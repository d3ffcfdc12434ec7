-- ===== src/Domain/Runs.antt =====
-- src/ssa/domain/learning.py: reflection runs, with the enumerations and the texts of their
-- members. The floating-point numbers are of a type `F`, the values of JSON objects of a type `V`.
use zero_hdsc.Base.{ℕ, String, ◌≡◌, refl, Option, none, some, List, if◌then◌else◌, str_eq}

pub data ReflectionTriggerKind : Type 0 where
  prediction_error unresolved goal_relevant relationship_salient novel scheduled :
      ReflectionTriggerKind

-- ReflectionTriggerKind.value
unfoldable pub trigger_kind_value : ReflectionTriggerKind → String
trigger_kind_value ReflectionTriggerKind.prediction_error = "prediction_error"
trigger_kind_value ReflectionTriggerKind.unresolved = "unresolved"
trigger_kind_value ReflectionTriggerKind.goal_relevant = "goal_relevant"
trigger_kind_value ReflectionTriggerKind.relationship_salient = "relationship_salient"
trigger_kind_value ReflectionTriggerKind.novel = "novel"
trigger_kind_value ReflectionTriggerKind.scheduled = "scheduled"

-- ReflectionTriggerKind(text); `none` is a ValueError
unfoldable pub trigger_kind_of : String → Option ReflectionTriggerKind
trigger_kind_of text =
    if str_eq text "prediction_error"
    then some ReflectionTriggerKind.prediction_error
    else if str_eq text "unresolved"
    then some ReflectionTriggerKind.unresolved
    else if str_eq text "goal_relevant"
    then some ReflectionTriggerKind.goal_relevant
    else if str_eq text "relationship_salient"
    then some ReflectionTriggerKind.relationship_salient
    else if str_eq text "novel"
    then some ReflectionTriggerKind.novel
    else if str_eq text "scheduled"
    then some ReflectionTriggerKind.scheduled
    else none

pub trigger_kind_of-trigger_kind_value :
    (member : ReflectionTriggerKind) → trigger_kind_of (trigger_kind_value member) ≡ some member
unfolding trigger_kind_of trigger_kind_value
trigger_kind_of-trigger_kind_value ReflectionTriggerKind.prediction_error = refl
trigger_kind_of-trigger_kind_value ReflectionTriggerKind.unresolved = refl
trigger_kind_of-trigger_kind_value ReflectionTriggerKind.goal_relevant = refl
trigger_kind_of-trigger_kind_value ReflectionTriggerKind.relationship_salient = refl
trigger_kind_of-trigger_kind_value ReflectionTriggerKind.novel = refl
trigger_kind_of-trigger_kind_value ReflectionTriggerKind.scheduled = refl

pub data ReflectionRunStatus : Type 0 where
  planned running completed skipped failed : ReflectionRunStatus

-- ReflectionRunStatus.value
unfoldable pub run_status_value : ReflectionRunStatus → String
run_status_value ReflectionRunStatus.planned = "planned"
run_status_value ReflectionRunStatus.running = "running"
run_status_value ReflectionRunStatus.completed = "completed"
run_status_value ReflectionRunStatus.skipped = "skipped"
run_status_value ReflectionRunStatus.failed = "failed"

-- ReflectionRunStatus(text); `none` is a ValueError
unfoldable pub run_status_of : String → Option ReflectionRunStatus
run_status_of text =
    if str_eq text "planned"
    then some ReflectionRunStatus.planned
    else if str_eq text "running"
    then some ReflectionRunStatus.running
    else if str_eq text "completed"
    then some ReflectionRunStatus.completed
    else if str_eq text "skipped"
    then some ReflectionRunStatus.skipped
    else if str_eq text "failed"
    then some ReflectionRunStatus.failed
    else none

pub run_status_of-run_status_value :
    (member : ReflectionRunStatus) → run_status_of (run_status_value member) ≡ some member
unfolding run_status_of run_status_value
run_status_of-run_status_value ReflectionRunStatus.planned = refl
run_status_of-run_status_value ReflectionRunStatus.running = refl
run_status_of-run_status_value ReflectionRunStatus.completed = refl
run_status_of-run_status_value ReflectionRunStatus.skipped = refl
run_status_of-run_status_value ReflectionRunStatus.failed = refl

pub record ReflectionRun {ℓ} (F V : Type ℓ) : Type ℓ where
  pub id : String
  pub conversation_id : String
  pub correlation_id : String
  pub dedup_key : String
  pub trigger_kind : ReflectionTriggerKind
  pub priority_score : F
  pub score_components : V
  pub status : ReflectionRunStatus
  pub source_episode_id : Option String
  pub source_artifact_id : Option String
  pub source_event_ids : List String
  pub source_trace_ids : List String
  pub reflection_text : Option String
  pub critique_text : Option String
  pub critic_score : Option F
  pub model : Option String
  pub prompt_version : Option String
  pub error : Option String
  pub started_at_ms : ℕ
  pub completed_at_ms : Option ℕ
