-- ===== src/Rows/Offline.antt =====
-- src/ssa/storage/lifecycle_repository.py: the rows of offline episodes and their artifacts. JSON columns hold texts; a text
-- that names no member of an enumeration raises a ValueError.
pub mod ReadBack
use zero_hdsc.Base.{ℕ, String, Option, List, Result, ok, or_raise, value_error, ◌>>=◌}
use zero_hdsc.Domain.Offline.{
  OfflineEpisode, OfflineArtifact, OfflineActionKind, OfflineEpisodeStatus, action_kind_of,
  action_kind_value, offline_status_of, offline_status_value,
}
use zero_hdsc.Rows.Json.{Json, or_default}

pub record OfflineEpisodeRow : Type 0 where
  pub id : String
  pub conversation_id : String
  pub correlation_id : String
  pub dedup_key : String
  pub action_kind : String
  pub motive : String
  pub status : String
  pub goal_id : Option String
  pub source_event_ids_json : String
  pub source_trace_ids_json : String
  pub provider : Option String
  pub tool_name : Option String
  pub tool_output_hash : Option String
  pub summary : Option String
  pub error : Option String
  pub event_id : Option String
  pub started_at_ms : ℕ
  pub completed_at_ms : Option ℕ

module _ {ℓ} {V : Type ℓ} (json : Json V) where
  -- The parameters of the INSERT.
  unfoldable pub episode_row : OfflineEpisode → OfflineEpisodeRow
  episode_row episode = record {
    id = episode.id;
    conversation_id = episode.conversation_id;
    correlation_id = episode.correlation_id;
    dedup_key = episode.dedup_key;
    action_kind = action_kind_value episode.action_kind;
    motive = episode.motive;
    status = offline_status_value episode.status;
    goal_id = episode.goal_id;
    source_event_ids_json = json.dump_texts episode.source_event_ids;
    source_trace_ids_json = json.dump_texts episode.source_trace_ids;
    provider = episode.provider;
    tool_name = episode.tool_name;
    tool_output_hash = episode.tool_output_hash;
    summary = episode.summary;
    error = episode.error;
    event_id = episode.event_id;
    started_at_ms = episode.started_at_ms;
    completed_at_ms = episode.completed_at_ms;
  }

  unfoldable pub row_to_episode : OfflineEpisodeRow → Result OfflineEpisode
  row_to_episode row = do
    action_kind ← or_raise (action_kind_of row.action_kind) (value_error "")
    status ← or_raise (offline_status_of row.status) (value_error "")
    source_event_ids ← json.load_texts (or_default row.source_event_ids_json "[]")
    source_trace_ids ← json.load_texts (or_default row.source_trace_ids_json "[]")
    ok record {
      id = row.id;
      conversation_id = row.conversation_id;
      correlation_id = row.correlation_id;
      dedup_key = row.dedup_key;
      action_kind = action_kind;
      motive = row.motive;
      status = status;
      goal_id = row.goal_id;
      source_event_ids = source_event_ids;
      source_trace_ids = source_trace_ids;
      provider = row.provider;
      tool_name = row.tool_name;
      tool_output_hash = row.tool_output_hash;
      summary = row.summary;
      error = row.error;
      event_id = row.event_id;
      started_at_ms = row.started_at_ms;
      completed_at_ms = row.completed_at_ms;
    }

pub record OfflineArtifactRow : Type 0 where
  pub id : String
  pub episode_id : String
  pub artifact_type : String
  pub title : String
  pub content : String
  pub evidence_event_ids_json : String
  pub evidence_trace_ids_json : String
  pub metadata_json : String
  pub created_at_ms : ℕ

module _ {ℓ} {V : Type ℓ} (json : Json V) where
  -- The parameters of the INSERT.
  unfoldable pub artifact_row : OfflineArtifact V → OfflineArtifactRow
  artifact_row artifact = record {
    id = artifact.id;
    episode_id = artifact.episode_id;
    artifact_type = artifact.artifact_type;
    title = artifact.title;
    content = artifact.content;
    evidence_event_ids_json = json.dump_texts artifact.evidence_event_ids;
    evidence_trace_ids_json = json.dump_texts artifact.evidence_trace_ids;
    metadata_json = json.dumps artifact.metadata;
    created_at_ms = artifact.created_at_ms;
  }

  unfoldable pub row_to_artifact : OfflineArtifactRow → Result (OfflineArtifact V)
  row_to_artifact row = do
    evidence_event_ids ← json.load_texts (or_default row.evidence_event_ids_json "[]")
    evidence_trace_ids ← json.load_texts (or_default row.evidence_trace_ids_json "[]")
    metadata ← json.loads (or_default row.metadata_json "{}")
    ok record {
      id = row.id;
      episode_id = row.episode_id;
      artifact_type = row.artifact_type;
      title = row.title;
      content = row.content;
      evidence_event_ids = evidence_event_ids;
      evidence_trace_ids = evidence_trace_ids;
      metadata = metadata;
      created_at_ms = row.created_at_ms;
    }
