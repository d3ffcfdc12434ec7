-- ===== src/Domain/Experiments.antt =====
-- src/ssa/domain/learning.py: behavior experiments and their outcomes, with the enumerations and the texts of their
-- members. The floating-point numbers are of a type `F`, the values of JSON objects of a type `V`.
use zero_hdsc.Base.{ℕ, String, ◌≡◌, refl, Option, none, some, if◌then◌else◌, str_eq}

pub data ExperimentStatus : Type 0 where
  planned running completed aborted : ExperimentStatus

-- ExperimentStatus.value
unfoldable pub experiment_status_value : ExperimentStatus → String
experiment_status_value ExperimentStatus.planned = "planned"
experiment_status_value ExperimentStatus.running = "running"
experiment_status_value ExperimentStatus.completed = "completed"
experiment_status_value ExperimentStatus.aborted = "aborted"

-- ExperimentStatus(text); `none` is a ValueError
unfoldable pub experiment_status_of : String → Option ExperimentStatus
experiment_status_of text =
    if str_eq text "planned"
    then some ExperimentStatus.planned
    else if str_eq text "running"
    then some ExperimentStatus.running
    else if str_eq text "completed"
    then some ExperimentStatus.completed
    else if str_eq text "aborted"
    then some ExperimentStatus.aborted
    else none

pub experiment_status_of-experiment_status_value :
    (member : ExperimentStatus)
    → experiment_status_of (experiment_status_value member) ≡ some member
unfolding experiment_status_of experiment_status_value
experiment_status_of-experiment_status_value ExperimentStatus.planned = refl
experiment_status_of-experiment_status_value ExperimentStatus.running = refl
experiment_status_of-experiment_status_value ExperimentStatus.completed = refl
experiment_status_of-experiment_status_value ExperimentStatus.aborted = refl

pub data OutcomeVerdict : Type 0 where
  confirmed mixed contradicted inconclusive : OutcomeVerdict

-- OutcomeVerdict.value
unfoldable pub verdict_value : OutcomeVerdict → String
verdict_value OutcomeVerdict.confirmed = "confirmed"
verdict_value OutcomeVerdict.mixed = "mixed"
verdict_value OutcomeVerdict.contradicted = "contradicted"
verdict_value OutcomeVerdict.inconclusive = "inconclusive"

-- OutcomeVerdict(text); `none` is a ValueError
unfoldable pub verdict_of : String → Option OutcomeVerdict
verdict_of text =
    if str_eq text "confirmed"
    then some OutcomeVerdict.confirmed
    else if str_eq text "mixed"
    then some OutcomeVerdict.mixed
    else if str_eq text "contradicted"
    then some OutcomeVerdict.contradicted
    else if str_eq text "inconclusive"
    then some OutcomeVerdict.inconclusive
    else none

pub verdict_of-verdict_value :
    (member : OutcomeVerdict) → verdict_of (verdict_value member) ≡ some member
unfolding verdict_of verdict_value
verdict_of-verdict_value OutcomeVerdict.confirmed = refl
verdict_of-verdict_value OutcomeVerdict.mixed = refl
verdict_of-verdict_value OutcomeVerdict.contradicted = refl
verdict_of-verdict_value OutcomeVerdict.inconclusive = refl

pub record BehaviorExperiment {ℓ} (F V : Type ℓ) : Type ℓ where
  pub id : String
  pub conversation_id : String
  pub proposal_id : String
  pub dedup_key : String
  pub status : ExperimentStatus
  pub hypothesis : String
  pub policy_key : String
  pub baseline : V
  pub treatment : V
  pub rollback : V
  pub success_criteria : V
  pub min_observations : ℕ
  pub result_score : Option F
  pub conclusion : Option String
  pub started_at_ms : Option ℕ
  pub due_at_ms : ℕ
  pub completed_at_ms : Option ℕ
  pub created_at_ms : ℕ
  pub updated_at_ms : ℕ

pub record OutcomeObservation {ℓ} (F V : Type ℓ) : Type ℓ where
  pub id : String
  pub experiment_id : String
  pub dedup_key : String
  pub source_event_id : Option String
  pub observation_kind : OutcomeVerdict
  pub payload : V
  pub normalized_score : F
  pub confidence : F
  pub prediction_error : F
  pub observed_at_ms : ℕ
  pub created_at_ms : ℕ
