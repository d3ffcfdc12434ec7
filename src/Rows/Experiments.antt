-- ===== src/Rows/Experiments.antt =====
-- src/ssa/storage/learning_repository.py: the rows of behavior experiments and their outcomes. JSON columns hold texts; a text
-- that names no member of an enumeration raises a ValueError.
pub mod ReadBack
use zero_hdsc.Base.{ℕ, String, Option, List, Result, ok, or_raise, value_error, ◌>>=◌}
use zero_hdsc.Domain.Experiments.{
  BehaviorExperiment, OutcomeObservation, ExperimentStatus, OutcomeVerdict, experiment_status_of,
  experiment_status_value, verdict_of, verdict_value,
}
use zero_hdsc.Rows.Json.{Json, or_default}

pub record BehaviorExperimentRow {ℓ} (F : Type ℓ) : Type ℓ where
  pub id : String
  pub conversation_id : String
  pub proposal_id : String
  pub dedup_key : String
  pub status : String
  pub hypothesis : String
  pub policy_key : String
  pub baseline_json : String
  pub treatment_json : String
  pub rollback_json : String
  pub success_criteria_json : String
  pub min_observations : ℕ
  pub result_score : Option F
  pub conclusion : Option String
  pub started_at_ms : Option ℕ
  pub due_at_ms : ℕ
  pub completed_at_ms : Option ℕ
  pub created_at_ms : ℕ
  pub updated_at_ms : ℕ

module _ {ℓ} {F V : Type ℓ} (json : Json V) where
  -- The parameters of the INSERT.
  unfoldable pub experiment_row : BehaviorExperiment F V → BehaviorExperimentRow F
  experiment_row experiment = record {
    id = experiment.id;
    conversation_id = experiment.conversation_id;
    proposal_id = experiment.proposal_id;
    dedup_key = experiment.dedup_key;
    status = experiment_status_value experiment.status;
    hypothesis = experiment.hypothesis;
    policy_key = experiment.policy_key;
    baseline_json = json.dumps experiment.baseline;
    treatment_json = json.dumps experiment.treatment;
    rollback_json = json.dumps experiment.rollback;
    success_criteria_json = json.dumps experiment.success_criteria;
    min_observations = experiment.min_observations;
    result_score = experiment.result_score;
    conclusion = experiment.conclusion;
    started_at_ms = experiment.started_at_ms;
    due_at_ms = experiment.due_at_ms;
    completed_at_ms = experiment.completed_at_ms;
    created_at_ms = experiment.created_at_ms;
    updated_at_ms = experiment.updated_at_ms;
  }

  unfoldable pub row_to_experiment : BehaviorExperimentRow F → Result (BehaviorExperiment F V)
  row_to_experiment row = do
    status ← or_raise (experiment_status_of row.status) (value_error "")
    baseline ← json.loads (or_default row.baseline_json "{}")
    treatment ← json.loads (or_default row.treatment_json "{}")
    rollback ← json.loads (or_default row.rollback_json "{}")
    success_criteria ← json.loads (or_default row.success_criteria_json "{}")
    ok record {
      id = row.id;
      conversation_id = row.conversation_id;
      proposal_id = row.proposal_id;
      dedup_key = row.dedup_key;
      status = status;
      hypothesis = row.hypothesis;
      policy_key = row.policy_key;
      baseline = baseline;
      treatment = treatment;
      rollback = rollback;
      success_criteria = success_criteria;
      min_observations = row.min_observations;
      result_score = row.result_score;
      conclusion = row.conclusion;
      started_at_ms = row.started_at_ms;
      due_at_ms = row.due_at_ms;
      completed_at_ms = row.completed_at_ms;
      created_at_ms = row.created_at_ms;
      updated_at_ms = row.updated_at_ms;
    }

pub record OutcomeObservationRow {ℓ} (F : Type ℓ) : Type ℓ where
  pub id : String
  pub experiment_id : String
  pub dedup_key : String
  pub source_event_id : Option String
  pub observation_kind : String
  pub payload_json : String
  pub normalized_score : F
  pub confidence : F
  pub prediction_error : F
  pub observed_at_ms : ℕ
  pub created_at_ms : ℕ

module _ {ℓ} {F V : Type ℓ} (json : Json V) where
  -- The parameters of the INSERT.
  unfoldable pub outcome_row : OutcomeObservation F V → OutcomeObservationRow F
  outcome_row outcome = record {
    id = outcome.id;
    experiment_id = outcome.experiment_id;
    dedup_key = outcome.dedup_key;
    source_event_id = outcome.source_event_id;
    observation_kind = verdict_value outcome.observation_kind;
    payload_json = json.dumps outcome.payload;
    normalized_score = outcome.normalized_score;
    confidence = outcome.confidence;
    prediction_error = outcome.prediction_error;
    observed_at_ms = outcome.observed_at_ms;
    created_at_ms = outcome.created_at_ms;
  }

  unfoldable pub row_to_outcome : OutcomeObservationRow F → Result (OutcomeObservation F V)
  row_to_outcome row = do
    observation_kind ← or_raise (verdict_of row.observation_kind) (value_error "")
    payload ← json.loads (or_default row.payload_json "{}")
    ok record {
      id = row.id;
      experiment_id = row.experiment_id;
      dedup_key = row.dedup_key;
      source_event_id = row.source_event_id;
      observation_kind = observation_kind;
      payload = payload;
      normalized_score = row.normalized_score;
      confidence = row.confidence;
      prediction_error = row.prediction_error;
      observed_at_ms = row.observed_at_ms;
      created_at_ms = row.created_at_ms;
    }
