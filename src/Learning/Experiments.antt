-- ===== src/Learning/Experiments.antt =====
-- SqliteLearningRepository of src/ssa/storage/learning_repository.py: the tables
-- `behavior_experiments` and `outcome_observations`. `known` is the foreign keys to other tables.
use zero_hdsc.Base.{
  ℕ, String, Bool, true, false, ◌&&◌, Option, none, some, List, ltb, leb, if◌then◌else◌, str_eq,
  take, Result, ok, err, changed, value_error, find, select, update_where, rowcount, order_by,
  insert_row, returning, refers, hit_one,
}
use zero_hdsc.Domain.Proposals.{LearningProposal, LearningProposalType, proposal_type_value}
use zero_hdsc.Domain.Experiments.{
  BehaviorExperiment, ExperimentStatus, OutcomeObservation, experiment_status_value,
}
use zero_hdsc.Learning.Proposals.{get_proposal}

module _ {ℓ} {F V : Type ℓ} where
  unfoldable pub get_experiment :
      List (BehaviorExperiment F V) → String → Option (BehaviorExperiment F V)
  get_experiment rows id = find (λ r. str_eq r.id id) rows

  unfoldable pub find_experiment_by_dedup :
      List (BehaviorExperiment F V) → String → Option (BehaviorExperiment F V)
  find_experiment_by_dedup rows key = find (λ r. str_eq r.dedup_key key) rows

  abbrev pub is_policy : LearningProposal F V → Bool
  is_policy p =
      str_eq (proposal_type_value p.proposal_type)
        (proposal_type_value LearningProposalType.policy_proposal)

  -- The insert that follows the lookup of the proposal.
  abbrev pub insert_for_proposal :
      Option (LearningProposal F V)
      → BehaviorExperiment F V
      → List (BehaviorExperiment F V)
      → Result (BehaviorExperiment F V) × List (BehaviorExperiment F V)
  insert_for_proposal none experiment rows =
      (err (value_error "only policy proposals can create behavior experiments"), rows)
  insert_for_proposal (some proposal) experiment rows =
      if is_policy proposal
      then if str_eq proposal.conversation_id experiment.conversation_id
        then returning experiment (insert_row (λ r. str_eq r.id experiment.id) true experiment rows)
        else (err (value_error "experiment conversation must match its policy proposal"), rows)
      else (err (value_error "only policy proposals can create behavior experiments"), rows)

  abbrev pub insert_new_experiment :
      List (LearningProposal F V)
      → Option (BehaviorExperiment F V)
      → BehaviorExperiment F V
      → List (BehaviorExperiment F V)
      → Result (BehaviorExperiment F V) × List (BehaviorExperiment F V)
  insert_new_experiment proposals (some old) experiment rows = (ok old, rows)
  insert_new_experiment proposals none experiment rows =
      insert_for_proposal (get_proposal proposals experiment.proposal_id) experiment rows

  -- The unique dedup_key cannot fail after the lookup, nor the reference to the proposal.
  unfoldable pub insert_experiment :
      List (LearningProposal F V)
      → BehaviorExperiment F V
      → List (BehaviorExperiment F V)
      → Result (BehaviorExperiment F V) × List (BehaviorExperiment F V)
  insert_experiment proposals experiment rows =
      insert_new_experiment proposals (find_experiment_by_dedup rows experiment.dedup_key)
        experiment rows

  abbrev pub has_status : ExperimentStatus → BehaviorExperiment F V → Bool
  has_status status r = str_eq (experiment_status_value r.status) (experiment_status_value status)

  abbrev pub is_running : String → BehaviorExperiment F V → Bool
  is_running conversation r =
      str_eq r.conversation_id conversation && has_status ExperimentStatus.running r

  unfoldable pub list_due_experiments :
      List (BehaviorExperiment F V) → String → ℕ → ℕ → List (BehaviorExperiment F V)
  list_due_experiments rows conversation now limit = take limit (
      order_by (λ a b. ltb a.due_at_ms b.due_at_ms)
        (select (λ r. is_running conversation r && leb r.due_at_ms now) rows))

  -- ORDER BY updated_at_ms DESC, rowid DESC
  abbrev pub recent_first : BehaviorExperiment F V → BehaviorExperiment F V → Bool
  recent_first a b = leb b.updated_at_ms a.updated_at_ms

  unfoldable pub active_experiments :
      List (BehaviorExperiment F V) → String → ℕ → List (BehaviorExperiment F V)
  active_experiments rows conversation limit =
      take limit (order_by recent_first (select (is_running conversation) rows))

  unfoldable pub recent_experiments :
      List (BehaviorExperiment F V) → String → ℕ → List (BehaviorExperiment F V)
  recent_experiments rows conversation limit =
      take limit (order_by recent_first (select (λ r. str_eq r.conversation_id conversation) rows))

  -- The columns that `update_experiment` leaves.
  abbrev pub updated_experiment :
      BehaviorExperiment F V → BehaviorExperiment F V → BehaviorExperiment F V
  updated_experiment experiment r = record experiment {
    id = r.id;
    conversation_id = r.conversation_id;
    proposal_id = r.proposal_id;
    dedup_key = r.dedup_key;
    created_at_ms = r.created_at_ms;
  }

  abbrev pub is_expected : ExperimentStatus → BehaviorExperiment F V → BehaviorExperiment F V → Bool
  is_expected expected experiment r =
      str_eq r.id experiment.id
      && (str_eq r.conversation_id experiment.conversation_id && has_status expected r)

  unfoldable pub update_experiment :
      ExperimentStatus
      → BehaviorExperiment F V
      → List (BehaviorExperiment F V)
      → Result (BehaviorExperiment F V) × List (BehaviorExperiment F V)
  update_experiment expected experiment rows =
      hit_one (rowcount (is_expected expected experiment) rows) experiment
        (changed "behavior experiment" experiment.id)
        (update_where (is_expected expected experiment) (updated_experiment experiment) rows)

  unfoldable pub find_outcome_by_dedup :
      List (OutcomeObservation F V) → String → Option (OutcomeObservation F V)
  find_outcome_by_dedup rows key = find (λ r. str_eq r.dedup_key key) rows

  abbrev pub has_experiment : List (BehaviorExperiment F V) → String → Bool
  has_experiment experiments id = elim (get_experiment experiments id) [
    | none ↦ false
    | some e ↦ true
  ]

  abbrev pub insert_new_outcome :
      (String → String → Bool)
      → List (BehaviorExperiment F V)
      → Option (OutcomeObservation F V)
      → OutcomeObservation F V
      → List (OutcomeObservation F V)
      → Result (OutcomeObservation F V) × List (OutcomeObservation F V)
  insert_new_outcome known experiments (some old) outcome rows = (ok old, rows)
  insert_new_outcome known experiments none outcome rows = returning outcome (
      insert_row (λ r. str_eq r.id outcome.id)
        (has_experiment experiments outcome.experiment_id
          && refers known "events" outcome.source_event_id)
        outcome rows)

  -- The unique dedup_key cannot fail after the lookup.
  unfoldable pub insert_outcome :
      (String → String → Bool)
      → List (BehaviorExperiment F V)
      → OutcomeObservation F V
      → List (OutcomeObservation F V)
      → Result (OutcomeObservation F V) × List (OutcomeObservation F V)
  insert_outcome known experiments outcome rows =
      insert_new_outcome known experiments (find_outcome_by_dedup rows outcome.dedup_key) outcome
        rows

  unfoldable pub outcomes_for_experiment :
      List (OutcomeObservation F V) → String → List (OutcomeObservation F V)
  outcomes_for_experiment rows experiment =
      order_by (λ a b. ltb a.observed_at_ms b.observed_at_ms)
        (select (λ r. str_eq r.experiment_id experiment) rows)
