-- ===== src/Domain/Offline.antt =====
-- src/ssa/domain/lifecycle.py: offline episodes and their artifacts, with the enumerations and the texts of their
-- members. The floating-point numbers are of a type `F`, the values of JSON objects of a type `V`.
use zero_hdsc.Base.{ℕ, String, ◌≡◌, refl, Option, none, some, List, if◌then◌else◌, str_eq}

pub data OfflineActionKind : Type 0 where
  trace_reflection external_study : OfflineActionKind

-- OfflineActionKind.value
unfoldable pub action_kind_value : OfflineActionKind → String
action_kind_value OfflineActionKind.trace_reflection = "trace_reflection"
action_kind_value OfflineActionKind.external_study = "external_study"

-- OfflineActionKind(text); `none` is a ValueError
unfoldable pub action_kind_of : String → Option OfflineActionKind
action_kind_of text =
    if str_eq text "trace_reflection"
    then some OfflineActionKind.trace_reflection
    else if str_eq text "external_study"
    then some OfflineActionKind.external_study
    else none

pub action_kind_of-action_kind_value :
    (member : OfflineActionKind) → action_kind_of (action_kind_value member) ≡ some member
unfolding action_kind_of action_kind_value
action_kind_of-action_kind_value OfflineActionKind.trace_reflection = refl
action_kind_of-action_kind_value OfflineActionKind.external_study = refl

pub data OfflineEpisodeStatus : Type 0 where
  planned running completed failed : OfflineEpisodeStatus

-- OfflineEpisodeStatus.value
unfoldable pub offline_status_value : OfflineEpisodeStatus → String
offline_status_value OfflineEpisodeStatus.planned = "planned"
offline_status_value OfflineEpisodeStatus.running = "running"
offline_status_value OfflineEpisodeStatus.completed = "completed"
offline_status_value OfflineEpisodeStatus.failed = "failed"

-- OfflineEpisodeStatus(text); `none` is a ValueError
unfoldable pub offline_status_of : String → Option OfflineEpisodeStatus
offline_status_of text =
    if str_eq text "planned"
    then some OfflineEpisodeStatus.planned
    else if str_eq text "running"
    then some OfflineEpisodeStatus.running
    else if str_eq text "completed"
    then some OfflineEpisodeStatus.completed
    else if str_eq text "failed"
    then some OfflineEpisodeStatus.failed
    else none

pub offline_status_of-offline_status_value :
    (member : OfflineEpisodeStatus) → offline_status_of (offline_status_value member) ≡ some member
unfolding offline_status_of offline_status_value
offline_status_of-offline_status_value OfflineEpisodeStatus.planned = refl
offline_status_of-offline_status_value OfflineEpisodeStatus.running = refl
offline_status_of-offline_status_value OfflineEpisodeStatus.completed = refl
offline_status_of-offline_status_value OfflineEpisodeStatus.failed = refl

pub record OfflineEpisode : Type 0 where
  pub id : String
  pub conversation_id : String
  pub correlation_id : String
  pub dedup_key : String
  pub action_kind : OfflineActionKind
  pub motive : String
  pub status : OfflineEpisodeStatus
  pub goal_id : Option String
  pub source_event_ids : List String
  pub source_trace_ids : List String
  pub provider : Option String
  pub tool_name : Option String
  pub tool_output_hash : Option String
  pub summary : Option String
  pub error : Option String
  pub event_id : Option String
  pub started_at_ms : ℕ
  pub completed_at_ms : Option ℕ

pub record OfflineArtifact {ℓ} (V : Type ℓ) : Type ℓ where
  pub id : String
  pub episode_id : String
  pub artifact_type : String
  pub title : String
  pub content : String
  pub evidence_event_ids : List String
  pub evidence_trace_ids : List String
  pub metadata : V
  pub created_at_ms : ℕ
