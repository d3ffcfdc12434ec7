-- ===== src/Learning/Links.antt =====
-- How the rows of the tables of src/ssa/storage/learning_repository.py belong together: a proposal
-- to a run, an experiment to a policy proposal and a piece of evidence to a proposal, each of the
-- same conversation.
use zero_hdsc.Base.{
  ℕ, String, Bool, true, Option, none, some, List, [], ◌∷◌, ◌++◌, ◌+◌, ◌==◌, ◌≡◌, refl, arith,
  eq_iff, str_eq, Keeps, Keeps-refl, Keeps-insert_row, Keeps-hit_one, insert_row-cases, Bool-cases,
  Option-cases, inl, inr, ◌⊎◌,
}
use zero_hdsc.Domain.Runs.{ReflectionRun, ReflectionRunStatus}
use zero_hdsc.Domain.Proposals.{LearningProposal, ProposalEvidence}
use zero_hdsc.Domain.Experiments.{BehaviorExperiment}
use zero_hdsc.Learning.Runs.{
  has_status, get_run, insert_run, update_run, updated_run, is_expected_run, find_run_by_dedup,
}
use zero_hdsc.Learning.Proposals.{
  find_proposal_by_dedup, get_proposal, insert_proposal, is_expected, updated_proposal,
  insert_for_run, update_proposal,
}
use zero_hdsc.Learning.Experiments.{
  insert_for_proposal, find_experiment_by_dedup, insert_experiment, is_policy,
}
use zero_hdsc.Learning.Evidence.{World, Store, verify_reference}

module _ {ℓ} {F V : Type ℓ} where
  -- What a row keeps as long as it is there.
  abbrev pub SameRun : ReflectionRun F V → ReflectionRun F V → Type 0
  SameRun r r' = r'.conversation_id ≡ r.conversation_id

  pub record SameProposal (p p' : LearningProposal F V) : Type 0 where
    pub conversation : p'.conversation_id ≡ p.conversation_id
    pub type : p'.proposal_type ≡ p.proposal_type

  abbrev pub SameExperiment : BehaviorExperiment F V → BehaviorExperiment F V → Type 0
  SameExperiment e e' = e'.conversation_id ≡ e.conversation_id

  abbrev pub RunsKept : List (ReflectionRun F V) → List (ReflectionRun F V) → Type ℓ
  RunsKept = Keeps (λ r. r.id) SameRun

  abbrev pub ProposalsKept : List (LearningProposal F V) → List (LearningProposal F V) → Type ℓ
  ProposalsKept = Keeps (λ p. p.id) SameProposal

  abbrev pub ExperimentsKept :
      List (BehaviorExperiment F V) → List (BehaviorExperiment F V) → Type ℓ
  ExperimentsKept = Keeps (λ e. e.id) SameExperiment

  -- The proposal's run is there, and of its conversation.
  abbrev pub RunOf : List (ReflectionRun F V) → LearningProposal F V → Type ℓ
  RunOf runs p =
      (r : ReflectionRun F V) × (get_run runs p.run_id ≡ some r)
      × (r.conversation_id ≡ p.conversation_id)

  -- The experiment's proposal is there, proposes a policy and is of its conversation.
  abbrev pub PolicyOf : List (LearningProposal F V) → BehaviorExperiment F V → Type ℓ
  PolicyOf proposals e =
      (p : LearningProposal F V) × (get_proposal proposals e.proposal_id ≡ some p)
      × ((p.conversation_id ≡ e.conversation_id) × (is_policy p ≡ true))

  -- The proposal that the evidence is for is there, and the reference is of its conversation.
  abbrev pub Evidenced : World → Store F V → ProposalEvidence F → Type ℓ
  Evidenced w s e =
      (p : LearningProposal F V) × (get_proposal s.proposals e.proposal_id ≡ some p)
      × (verify_reference w s.experiments s.outcomes p.conversation_id e.reference_kind
            e.reference_id
          ≡ true)

  pub insert_run-kept :
      (known : String → String → Bool) (run : ReflectionRun F V) (rows : List (ReflectionRun F V))
      → RunsKept rows (insert_run known run rows).1
  unfolding insert_run
  insert_run-kept known run rows = elim (Option-cases (find_run_by_dedup rows run.dedup_key)) [
    | inl e ↦ rw e (Keeps-insert_row (λ r. r.id) SameRun (λ r. refl) _ _ run run rows)
    | inr (old, e) ↦ rw e (Keeps-refl (λ r. r.id) SameRun (λ r. refl) rows)
  ]

  pub update_run-kept :
      (expected : ReflectionRunStatus) (run : ReflectionRun F V) (rows : List (ReflectionRun F V))
      → RunsKept rows (update_run expected run rows).1
  unfolding update_run
  update_run-kept expected run rows =
      Keeps-hit_one (λ r. r.id) SameRun (λ r. refl) (is_expected_run expected run) (updated_run run)
        (λ r. refl) (λ r. refl) _ run _ rows

  pub same_proposal : (p : LearningProposal F V) → SameProposal p p
  same_proposal p = record { conversation = refl; type = refl }

  pub update_proposal-kept :
      (expected : ℕ) (p : LearningProposal F V) (rows : List (LearningProposal F V))
      → ProposalsKept rows (update_proposal expected p rows).1
  unfolding update_proposal
  update_proposal-kept expected p rows = elim (Bool-cases (p.version == expected + 1)) [
    | inl e ↦ rw e (
        Keeps-hit_one (λ r. r.id) SameProposal same_proposal (is_expected expected p)
          (updated_proposal p) (λ r. refl) (λ r. record { conversation = refl; type = refl }) _ p _
          rows)
    | inr e ↦ rw e (Keeps-refl (λ r. r.id) SameProposal same_proposal rows)
  ]

  -- An inserted proposal comes in at the end, with its run; else the table stays.
  insert_for_run-cases :
      (runs : List (ReflectionRun F V)) (p : LearningProposal F V)
      (rows : List (LearningProposal F V)) (found : Option (ReflectionRun F V))
      → get_run runs p.run_id ≡ found
      → ((insert_for_run found p rows).1 ≡ rows)
        ⊎ (RunOf runs p × ((insert_for_run found p rows).1 ≡ rows ++ p ∷ []))
  insert_for_run-cases runs p rows none h = inl refl
  insert_for_run-cases runs p rows (some r) h =
      elim (Bool-cases (has_status ReflectionRunStatus.completed r)) [
        | inl e ↦ elim (Bool-cases (str_eq r.conversation_id p.conversation_id)) [
          | inl f ↦ elim (insert_row-cases (λ x. str_eq x.id p.id) true p rows) [
            | inl g ↦ inr (
              (r, h, ground (arith, f, eq_iff r.conversation_id p.conversation_id)),
              rw (e, f, g) refl,
            )
            | inr (problem, g) ↦ inl (rw (e, f, g) refl)
          ]
          | inr f ↦ inl (rw (e, f) refl)
        ]
        | inr e ↦ inl (rw e refl)
      ]

  pub insert_proposal-cases :
      (runs : List (ReflectionRun F V)) (p : LearningProposal F V)
      (rows : List (LearningProposal F V))
      → ((insert_proposal runs p rows).1 ≡ rows)
        ⊎ (RunOf runs p × ((insert_proposal runs p rows).1 ≡ rows ++ p ∷ []))
  unfolding insert_proposal
  insert_proposal-cases runs p rows =
      elim (Option-cases (find_proposal_by_dedup rows p.dedup_key)) [
        | inl e ↦ rw e (insert_for_run-cases runs p rows (get_run runs p.run_id) refl)
        | inr (old, e) ↦ rw e (inl refl)
      ]

  insert_for_proposal-cases :
      (proposals : List (LearningProposal F V)) (x : BehaviorExperiment F V)
      (rows : List (BehaviorExperiment F V)) (found : Option (LearningProposal F V))
      → get_proposal proposals x.proposal_id ≡ found
      → ((insert_for_proposal found x rows).1 ≡ rows)
        ⊎ (PolicyOf proposals x × ((insert_for_proposal found x rows).1 ≡ rows ++ x ∷ []))
  insert_for_proposal-cases proposals x rows none h = inl refl
  insert_for_proposal-cases proposals x rows (some p) h = elim (Bool-cases (is_policy p)) [
    | inl e ↦ elim (Bool-cases (str_eq p.conversation_id x.conversation_id)) [
      | inl f ↦ elim (insert_row-cases (λ y. str_eq y.id x.id) true x rows) [
        | inl g ↦ inr (
          (p, h, (ground (arith, f, eq_iff p.conversation_id x.conversation_id), e)),
          rw (e, f, g) refl,
        )
        | inr (problem, g) ↦ inl (rw (e, f, g) refl)
      ]
      | inr f ↦ inl (rw (e, f) refl)
    ]
    | inr e ↦ inl (rw e refl)
  ]

  pub insert_experiment-cases :
      (proposals : List (LearningProposal F V)) (x : BehaviorExperiment F V)
      (rows : List (BehaviorExperiment F V))
      → ((insert_experiment proposals x rows).1 ≡ rows)
        ⊎ (PolicyOf proposals x × ((insert_experiment proposals x rows).1 ≡ rows ++ x ∷ []))
  unfolding insert_experiment
  insert_experiment-cases proposals x rows =
      elim (Option-cases (find_experiment_by_dedup rows x.dedup_key)) [
        | inl e ↦
            rw e (
              insert_for_proposal-cases proposals x rows (get_proposal proposals x.proposal_id)
                refl)
        | inr (old, e) ↦ rw e (inl refl)
      ]
