-- ===== src/Learning/Calls.antt =====
-- The calls of SqliteLearningRepository in src/ssa/storage/learning_repository.py that write, on
-- the store of all its tables.
use zero_hdsc.Base.{ℕ, String, Bool, List, [], ◌∷◌}
use zero_hdsc.Domain.Runs.{ReflectionRun, ReflectionRunStatus}
use zero_hdsc.Domain.Proposals.{LearningProposal, ProposalEvidence, ConsolidationDecision}
use zero_hdsc.Domain.Experiments.{BehaviorExperiment, ExperimentStatus, OutcomeObservation}
use zero_hdsc.Learning.Runs.{insert_run, update_run}
use zero_hdsc.Learning.Proposals.{Reviews, insert_proposal, update_proposal, append_decision}
use zero_hdsc.Learning.Experiments.{insert_experiment, update_experiment, insert_outcome}
use zero_hdsc.Learning.Evidence.{World, Store, add_evidence}

-- A call of the repository that writes.
pub data Call {ℓ} (F V : Type ℓ) : Type ℓ where
  run_inserted : ReflectionRun F V → Call F V
  run_updated : ReflectionRunStatus → ReflectionRun F V → Call F V
  proposal_inserted : LearningProposal F V → Call F V
  proposal_updated : ℕ → LearningProposal F V → Call F V
  evidence_added : ProposalEvidence F → Call F V
  decided : ConsolidationDecision F V → ℕ → LearningProposal F V → Call F V
  experiment_inserted : BehaviorExperiment F V → Call F V
  experiment_updated : ExperimentStatus → BehaviorExperiment F V → Call F V
  outcome_inserted : OutcomeObservation F V → Call F V

module _ {ℓ} {F V : Type ℓ} where
  -- `append_decision` on the tables that it writes.
  abbrev pub decide :
      (String → String → Bool)
      → ConsolidationDecision F V
      → ℕ
      → LearningProposal F V
      → Store F V
      → Reviews F V
  decide known decision expected p s =
      (append_decision known decision expected p
        (record { proposals = s.proposals; decisions = s.decisions })).1

  abbrev pub apply : (String → String → Bool) → World → Call F V → Store F V → Store F V
  apply known w (run_inserted run) s = record s { runs = (insert_run known run s.runs).1 }
  apply known w (run_updated expected run) s = record s {
    runs = (update_run expected run s.runs).1;
  }
  apply known w (proposal_inserted p) s = record s {
    proposals = (insert_proposal s.runs p s.proposals).1;
  }
  apply known w (proposal_updated expected p) s = record s {
    proposals = (update_proposal expected p s.proposals).1;
  }
  apply known w (evidence_added e) s = (add_evidence w e s).1
  apply known w (decided decision expected p) s =
      let after = decide known decision expected p s in
      record s { proposals = after.proposals; decisions = after.decisions }
  apply known w (experiment_inserted x) s = record s {
    experiments = (insert_experiment s.proposals x s.experiments).1;
  }
  apply known w (experiment_updated expected x) s = record s {
    experiments = (update_experiment expected x s.experiments).1;
  }
  apply known w (outcome_inserted o) s = record s {
    outcomes = (insert_outcome known s.experiments o s.outcomes).1;
  }

  abbrev pub run : (String → String → Bool) → World → List (Call F V) → Store F V → Store F V
  run known w [] s = s
  run known w (c ∷ cs) s = run known w cs (apply known w c s)
