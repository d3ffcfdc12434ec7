-- ===== src/Learning/Linked.antt =====
-- Each call of SqliteLearningRepository in src/ssa/storage/learning_repository.py keeps the links
-- between the tables.
use zero_hdsc.Base.{
  ℕ, String, Bool, Option, none, some, List, [], ◌∷◌, ◌++◌, ◌≡◌, refl, Result, All, All-append,
  find, Keeps-append, ◌+◌, ◌==◌, Keeps-insert_row, Keeps-hit_one, All-hit_one, Bool-cases,
  Option-cases, inl, inr,
}
use zero_hdsc.Domain.Proposals.{LearningProposal, ProposalEvidence, ConsolidationDecision}
use zero_hdsc.Domain.Experiments.{BehaviorExperiment, ExperimentStatus, OutcomeObservation}
use zero_hdsc.Learning.Runs.{insert_run, update_run}
use zero_hdsc.Learning.Proposals.{
  is_expected as is_expected_proposal, updated_proposal, get_proposal, Reviews, update_proposal,
}
use zero_hdsc.Learning.Experiments.{
  is_expected, updated_experiment, update_experiment, insert_outcome, find_outcome_by_dedup,
}
use zero_hdsc.Learning.Evidence.{
  add_to, insert_or_ignore, same_reference, World, Store, verify_reference, add_evidence,
}
use zero_hdsc.Learning.Versions.{Decides, raises, decides, append_decision-Decides}
use zero_hdsc.Learning.Links.{
  SameProposal, SameExperiment, RunOf, PolicyOf, Evidenced, same_proposal, insert_run-kept,
  update_run-kept, update_proposal-kept, insert_proposal-cases, insert_experiment-cases,
}
use zero_hdsc.Learning.Kept.{IsLinked, OutcomesKept, kept_outcomes}
use zero_hdsc.Learning.Calls.{
  Call, run_inserted, run_updated, proposal_inserted, proposal_updated, evidence_added, decided,
  experiment_inserted, experiment_updated, outcome_inserted, apply, run,
}
use zero_hdsc.Learning.Changes.{
  runs-IsLinked, proposals-IsLinked, experiments-IsLinked, outcomes-IsLinked,
}

module _ {ℓ} {F V : Type ℓ} (known : String → String → Bool) (w : World) (s : Store F V) where
  insert_proposal-IsLinked :
      (p : LearningProposal F V) → IsLinked w s → IsLinked w (apply known w (proposal_inserted p) s)
  insert_proposal-IsLinked p h = elim (insert_proposal-cases s.runs p s.proposals) [
    | inl e ↦ rw e h
    | inr (l, e) ↦ rw e (
        proposals-IsLinked w s (s.proposals ++ p ∷ [])
          (Keeps-append (λ x. x.id) SameProposal same_proposal s.proposals p)
          (All-append (RunOf s.runs) s.proposals (p ∷ []) h.proposals (l, tt)) h)
  ]

  insert_experiment-IsLinked :
      (x : BehaviorExperiment F V)
      → IsLinked w s
      → IsLinked w (apply known w (experiment_inserted x) s)
  insert_experiment-IsLinked x h = elim (insert_experiment-cases s.proposals x s.experiments) [
    | inl e ↦ rw e h
    | inr (l, e) ↦ rw e (
        experiments-IsLinked w s (s.experiments ++ x ∷ [])
          (Keeps-append (λ y. y.id) SameExperiment (λ y. refl) s.experiments x)
          (All-append (PolicyOf s.proposals) s.experiments (x ∷ []) h.experiments (l, tt)) h)
  ]

  update_experiment-IsLinked :
      (expected : ExperimentStatus) (x : BehaviorExperiment F V)
      → IsLinked w s
      → IsLinked w (apply known w (experiment_updated expected x) s)
  unfolding update_experiment
  update_experiment-IsLinked expected x h =
      experiments-IsLinked w s (update_experiment expected x s.experiments).1
        (Keeps-hit_one (λ y. y.id) SameExperiment (λ y. refl) (is_expected expected x)
          (updated_experiment x) (λ y. refl) (λ y. refl) _ x _ s.experiments)
        (All-hit_one (PolicyOf s.proposals) (is_expected expected x) (updated_experiment x)
          (λ y k. k) _ x _ s.experiments h.experiments)
        h

  outcome_kept_lem :
      (o : OutcomeObservation F V)
      → OutcomesKept s.outcomes (insert_outcome known s.experiments o s.outcomes).1
  unfolding insert_outcome
  outcome_kept_lem o = elim (Option-cases (find_outcome_by_dedup s.outcomes o.dedup_key)) [
    | inl e ↦ rw e (Keeps-insert_row (λ x. x.id) (λ x x'. x' ≡ x) (λ x. refl) _ _ o o s.outcomes)
    | inr (old, e) ↦ rw e (kept_outcomes s.outcomes)
  ]

  All-update_proposal :
      (expected : ℕ) (p : LearningProposal F V) (rows : List (LearningProposal F V))
      → All (RunOf s.runs) rows
      → All (RunOf s.runs) (update_proposal expected p rows).1
  unfolding update_proposal
  All-update_proposal expected p rows h = elim (Bool-cases (p.version == expected + 1)) [
    | inl e ↦ rw e (
        All-hit_one (RunOf s.runs) (is_expected_proposal expected p) (updated_proposal p) (λ y k. k)
          _ p _ rows h)
    | inr e ↦ rw e h
  ]

  update_proposal-IsLinked :
      (expected : ℕ) (p : LearningProposal F V)
      → IsLinked w s
      → IsLinked w (record s { proposals = (update_proposal expected p s.proposals).1 })
  update_proposal-IsLinked expected p h =
      proposals-IsLinked w s (update_proposal expected p s.proposals).1
        (update_proposal-kept expected p s.proposals)
        (All-update_proposal expected p s.proposals h.proposals) h

  decide-IsLinked :
      (d : ConsolidationDecision F V) (expected : ℕ) (p : LearningProposal F V)
      {r : Result (LearningProposal F V) × Reviews F V}
      → Decides d expected p (record { proposals = s.proposals; decisions = s.decisions }) r
      → IsLinked w s
      → IsLinked w (record s { proposals = r.1.proposals; decisions = r.1.decisions })
  decide-IsLinked d expected p (raises e) h = h
  decide-IsLinked d expected p (decides a k) h =
      let after = update_proposal-IsLinked expected p h in
      record {
        proposals = after.proposals;
        experiments = after.experiments;
        evidence = after.evidence;
      }

  All-insert_or_ignore :
      (P : ProposalEvidence F → Type ℓ) (e : ProposalEvidence F) (rows : List (ProposalEvidence F))
      → P e
      → All P rows
      → All P (insert_or_ignore e rows)
  All-insert_or_ignore P e rows h k = elim (Option-cases (find (same_reference e) rows)) [
    | inl f ↦ rw (insert_or_ignore, f) (All-append P rows (e ∷ []) k (h, tt))
    | inr (old, f) ↦ rw (insert_or_ignore, f) k
  ]

  add_to-IsLinked :
      (e : ProposalEvidence F) (found : Option (LearningProposal F V))
      → get_proposal s.proposals e.proposal_id ≡ found
      → IsLinked w s
      → IsLinked w (add_to w found e s).1
  add_to-IsLinked e none g h = h
  add_to-IsLinked e (some p) g h =
      elim (Bool-cases (
        verify_reference w s.experiments s.outcomes p.conversation_id e.reference_kind
          e.reference_id)) [
            | inl v ↦ rw v (record {
              proposals = h.proposals;
              experiments = h.experiments;
              evidence = All-insert_or_ignore (Evidenced w s) e s.evidence (p, g, v) h.evidence;
            })
            | inr v ↦ rw v h
          ]

  add_evidence-IsLinked :
      (e : ProposalEvidence F) → IsLinked w s → IsLinked w (apply known w (evidence_added e) s)
  unfolding add_evidence
  add_evidence-IsLinked e h = add_to-IsLinked e (get_proposal s.proposals e.proposal_id) refl h

  -- Each call keeps the links.
  apply-IsLinked : (c : Call F V) → IsLinked w s → IsLinked w (apply known w c s)
  apply-IsLinked (run_inserted r) h =
      runs-IsLinked w s (insert_run known r s.runs).1 (insert_run-kept known r s.runs) h
  apply-IsLinked (run_updated expected r) h =
      runs-IsLinked w s (update_run expected r s.runs).1 (update_run-kept expected r s.runs) h
  apply-IsLinked (proposal_inserted p) h = insert_proposal-IsLinked p h
  apply-IsLinked (proposal_updated expected p) h = update_proposal-IsLinked expected p h
  apply-IsLinked (evidence_added e) h = add_evidence-IsLinked e h
  apply-IsLinked (decided d expected p) h =
      decide-IsLinked d expected p
        (append_decision-Decides known d expected p
          (record { proposals = s.proposals; decisions = s.decisions }))
        h
  apply-IsLinked (experiment_inserted x) h = insert_experiment-IsLinked x h
  apply-IsLinked (experiment_updated expected x) h = update_experiment-IsLinked expected x h
  apply-IsLinked (outcome_inserted o) h =
      outcomes-IsLinked w s (insert_outcome known s.experiments o s.outcomes).1 (outcome_kept_lem o)
        h

module _ {ℓ} {F V : Type ℓ} (known : String → String → Bool) (w : World) where
  run_from-IsLinked :
      (calls : List (Call F V)) (s : Store F V) → IsLinked w s → IsLinked w (run known w calls s)
  run_from-IsLinked [] s h = h
  run_from-IsLinked (c ∷ cs) s h =
      run_from-IsLinked cs (apply known w c s) (apply-IsLinked known w s c h)

  abbrev pub empty : Store F V
  empty = record {
    runs = [];
    proposals = [];
    evidence = [];
    decisions = [];
    experiments = [];
    outcomes = [];
  }

  -- Whatever calls are made of the repository on empty tables, while the tables of events, traces,
  -- episodes and artifacts stay: each proposal belongs to a run of its conversation, each experiment
  -- to a policy proposal of its conversation, and each piece of evidence is for a proposal and
  -- refers to an event, a trace, an artifact or an outcome of the proposal's conversation.
  pub run-IsLinked : (calls : List (Call F V)) → IsLinked w (run known w calls empty)
  run-IsLinked calls =
      run_from-IsLinked calls empty (record { proposals = tt; experiments = tt; evidence = tt })
