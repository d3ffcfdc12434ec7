-- ===== src/Rows/Offline/ReadBack.antt =====
-- src/ssa/storage/lifecycle_repository.py: what is read back from a row of offline episodes and their artifacts.
use zero_hdsc.Base.{refl, ◌≡◌, ok}
use zero_hdsc.Domain.Offline.{
  OfflineEpisode, OfflineArtifact, action_kind_of-action_kind_value,
  offline_status_of-offline_status_value,
}
use zero_hdsc.Rows.Json.{Json, Reads, ReadsTexts, or_default-dumps, or_default-dump_texts}
use zero_hdsc.Rows.Offline.{episode_row, row_to_episode, artifact_row, row_to_artifact}

-- An offline episode whose JSON columns are not empty and are read back by json.loads is read back from its row as it was.
pub row_to_episode-episode_row {ℓ} :
    {V : Type ℓ} (json : Json V) (episode : OfflineEpisode)
    → ReadsTexts json episode.source_event_ids
    → ReadsTexts json episode.source_trace_ids
    → row_to_episode json (episode_row json episode) ≡ ok episode
unfolding row_to_episode episode_row
row_to_episode-episode_row json episode h1 h2 =
    rw
      (
        action_kind_of-action_kind_value episode.action_kind,
        offline_status_of-offline_status_value episode.status,
        or_default-dump_texts json episode.source_event_ids "[]" h1.0,
        h1.1,
        or_default-dump_texts json episode.source_trace_ids "[]" h2.0,
        h2.1,
      )
      refl

-- An artifact whose JSON columns are not empty and are read back by json.loads is read back from its row as it was.
pub row_to_artifact-artifact_row {ℓ} :
    {V : Type ℓ} (json : Json V) (artifact : OfflineArtifact V)
    → ReadsTexts json artifact.evidence_event_ids
    → ReadsTexts json artifact.evidence_trace_ids
    → Reads json artifact.metadata
    → row_to_artifact json (artifact_row json artifact) ≡ ok artifact
unfolding row_to_artifact artifact_row
row_to_artifact-artifact_row json artifact h1 h2 h3 =
    rw
      (
        or_default-dump_texts json artifact.evidence_event_ids "[]" h1.0,
        h1.1,
        or_default-dump_texts json artifact.evidence_trace_ids "[]" h2.0,
        h2.1,
        or_default-dumps json artifact.metadata "{}" h3.0,
        h3.1,
      )
      refl
