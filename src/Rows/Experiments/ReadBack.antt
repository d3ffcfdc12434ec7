-- ===== src/Rows/Experiments/ReadBack.antt =====
-- src/ssa/storage/learning_repository.py: what is read back from a row of behavior experiments and their outcomes.
use zero_hdsc.Base.{refl, ◌≡◌, ok}
use zero_hdsc.Domain.Experiments.{
  BehaviorExperiment, OutcomeObservation, experiment_status_of-experiment_status_value,
  verdict_of-verdict_value,
}
use zero_hdsc.Rows.Json.{Json, Reads, or_default-dumps}
use zero_hdsc.Rows.Experiments.{experiment_row, row_to_experiment, outcome_row, row_to_outcome}

-- A behavior experiment whose JSON columns are not empty and are read back by json.loads is read back from its row as it was.
pub row_to_experiment-experiment_row {ℓ} :
    {F V : Type ℓ} (json : Json V) (experiment : BehaviorExperiment F V)
    → Reads json experiment.baseline
    → Reads json experiment.treatment
    → Reads json experiment.rollback
    → Reads json experiment.success_criteria
    → row_to_experiment json (experiment_row json experiment) ≡ ok experiment
unfolding row_to_experiment experiment_row
row_to_experiment-experiment_row json experiment h1 h2 h3 h4 =
    rw
      (
        experiment_status_of-experiment_status_value experiment.status,
        or_default-dumps json experiment.baseline "{}" h1.0,
        h1.1,
        or_default-dumps json experiment.treatment "{}" h2.0,
        h2.1,
        or_default-dumps json experiment.rollback "{}" h3.0,
        h3.1,
        or_default-dumps json experiment.success_criteria "{}" h4.0,
        h4.1,
      )
      refl

-- An outcome observation whose JSON columns are not empty and are read back by json.loads is read back from its row as it was.
pub row_to_outcome-outcome_row {ℓ} :
    {F V : Type ℓ} (json : Json V) (outcome : OutcomeObservation F V)
    → Reads json outcome.payload
    → row_to_outcome json (outcome_row json outcome) ≡ ok outcome
unfolding row_to_outcome outcome_row
row_to_outcome-outcome_row json outcome h1 =
    rw
      (
        verdict_of-verdict_value outcome.observation_kind,
        or_default-dumps json outcome.payload "{}" h1.0,
        h1.1,
      )
      refl
