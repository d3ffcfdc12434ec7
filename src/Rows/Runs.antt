-- ===== src/Rows/Runs.antt =====
-- src/ssa/storage/learning_repository.py: the rows of reflection runs. JSON columns hold texts; a text
-- that names no member of an enumeration raises a ValueError.
pub mod ReadBack
use zero_hdsc.Base.{ℕ, String, Option, List, Result, ok, or_raise, value_error, ◌>>=◌}
use zero_hdsc.Domain.Runs.{
  ReflectionRun, ReflectionRunStatus, ReflectionTriggerKind, run_status_of, run_status_value,
  trigger_kind_of, trigger_kind_value,
}
use zero_hdsc.Rows.Json.{Json, or_default}

pub record ReflectionRunRow {ℓ} (F : Type ℓ) : Type ℓ where
  pub id : String
  pub conversation_id : String
  pub correlation_id : String
  pub dedup_key : String
  pub trigger_kind : String
  pub priority_score : F
  pub score_components_json : String
  pub status : String
  pub source_episode_id : Option String
  pub source_artifact_id : Option String
  pub source_event_ids_json : String
  pub source_trace_ids_json : String
  pub reflection_text : Option String
  pub critique_text : Option String
  pub critic_score : Option F
  pub model : Option String
  pub prompt_version : Option String
  pub error : Option String
  pub started_at_ms : ℕ
  pub completed_at_ms : Option ℕ

module _ {ℓ} {F V : Type ℓ} (json : Json V) where
  -- The parameters of the INSERT.
  unfoldable pub run_row : ReflectionRun F V → ReflectionRunRow F
  run_row run = record {
    id = run.id;
    conversation_id = run.conversation_id;
    correlation_id = run.correlation_id;
    dedup_key = run.dedup_key;
    trigger_kind = trigger_kind_value run.trigger_kind;
    priority_score = run.priority_score;
    score_components_json = json.dumps run.score_components;
    status = run_status_value run.status;
    source_episode_id = run.source_episode_id;
    source_artifact_id = run.source_artifact_id;
    source_event_ids_json = json.dump_texts run.source_event_ids;
    source_trace_ids_json = json.dump_texts run.source_trace_ids;
    reflection_text = run.reflection_text;
    critique_text = run.critique_text;
    critic_score = run.critic_score;
    model = run.model;
    prompt_version = run.prompt_version;
    error = run.error;
    started_at_ms = run.started_at_ms;
    completed_at_ms = run.completed_at_ms;
  }

  unfoldable pub row_to_run : ReflectionRunRow F → Result (ReflectionRun F V)
  row_to_run row = do
    trigger_kind ← or_raise (trigger_kind_of row.trigger_kind) (value_error "")
    score_components ← json.loads (or_default row.score_components_json "{}")
    status ← or_raise (run_status_of row.status) (value_error "")
    source_event_ids ← json.load_texts (or_default row.source_event_ids_json "[]")
    source_trace_ids ← json.load_texts (or_default row.source_trace_ids_json "[]")
    ok record {
      id = row.id;
      conversation_id = row.conversation_id;
      correlation_id = row.correlation_id;
      dedup_key = row.dedup_key;
      trigger_kind = trigger_kind;
      priority_score = row.priority_score;
      score_components = score_components;
      status = status;
      source_episode_id = row.source_episode_id;
      source_artifact_id = row.source_artifact_id;
      source_event_ids = source_event_ids;
      source_trace_ids = source_trace_ids;
      reflection_text = row.reflection_text;
      critique_text = row.critique_text;
      critic_score = row.critic_score;
      model = row.model;
      prompt_version = row.prompt_version;
      error = row.error;
      started_at_ms = row.started_at_ms;
      completed_at_ms = row.completed_at_ms;
    }
