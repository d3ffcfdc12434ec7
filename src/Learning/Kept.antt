-- ===== src/Learning/Kept.antt =====
-- The tables of src/ssa/storage/learning_repository.py after a statement: what their rows refer to
-- is still there.
use zero_hdsc.Base.{
  String, Bool, true, false, Option, none, some, List, ◌≡◌, refl, ◌∙◌, str_eq, All, All-imp, find,
  Keeps, Keeps-refl,
}
use mathlib.Core.Option.{some-injective}
use zero_hdsc.Domain.Runs.{ReflectionRun}
use zero_hdsc.Domain.Proposals.{LearningProposal, ProposalEvidence, EvidenceReferenceKind}
use zero_hdsc.Domain.Experiments.{BehaviorExperiment, OutcomeObservation}
use zero_hdsc.Learning.Runs.{get_run}
use zero_hdsc.Learning.Proposals.{get_proposal}
use zero_hdsc.Learning.Experiments.{get_experiment}
use zero_hdsc.Learning.Evidence.{experiment_of, World, Store, verify_reference}
use zero_hdsc.Learning.Links.{
  RunsKept, ProposalsKept, ExperimentsKept, SameRun, SameProposal, SameExperiment, RunOf, PolicyOf,
  Evidenced, same_proposal,
}

-- A lookup that passes a test has found a row that passes it.
found {ℓ} :
    {A : Type ℓ} (o : Option A) (test : A → Bool)
    → elim o [ none ↦ false | some a ↦ test a ] ≡ true
    → (a : A) × (o ≡ some a) × (test a ≡ true)
found none test h = cc
found (some a) test h = (a, refl, h)

found_again {ℓ} :
    {A : Type ℓ} (o : Option A) (test : A → Bool) (a : A)
    → o ≡ some a
    → test a ≡ true
    → elim o [ none ↦ false | some b ↦ test b ] ≡ true
found_again none test a e h = cc
found_again (some b) test a e h = rw (some-injective b a e) h

module _ {ℓ} {F V : Type ℓ} where
  -- Each proposal belongs to a run, each experiment to a policy proposal and each piece of evidence
  -- to a proposal, of the same conversation.
  pub record IsLinked (w : World) (s : Store F V) : Type ℓ where
    pub proposals : All (RunOf s.runs) s.proposals
    pub experiments : All (PolicyOf s.proposals) s.experiments
    pub evidence : All (Evidenced w s) s.evidence

  abbrev pub OutcomesKept : List (OutcomeObservation F V) → List (OutcomeObservation F V) → Type ℓ
  OutcomesKept = Keeps (λ o. o.id) (λ o o'. o' ≡ o)

  -- What the rows refer to is still there.
  pub record Extends (s s' : Store F V) : Type ℓ where
    pub runs : RunsKept s.runs s'.runs
    pub proposals : ProposalsKept s.proposals s'.proposals
    pub experiments : ExperimentsKept s.experiments s'.experiments
    pub outcomes : OutcomesKept s.outcomes s'.outcomes

  pub kept_runs : (rows : List (ReflectionRun F V)) → RunsKept rows rows
  kept_runs = Keeps-refl (λ r. r.id) SameRun (λ r. refl)

  pub kept_proposals : (rows : List (LearningProposal F V)) → ProposalsKept rows rows
  kept_proposals = Keeps-refl (λ r. r.id) SameProposal same_proposal

  pub kept_experiments : (rows : List (BehaviorExperiment F V)) → ExperimentsKept rows rows
  kept_experiments = Keeps-refl (λ r. r.id) SameExperiment (λ r. refl)

  pub kept_outcomes : (rows : List (OutcomeObservation F V)) → OutcomesKept rows rows
  kept_outcomes = Keeps-refl (λ o. o.id) (λ o o'. o' ≡ o) (λ o. refl)

  outcome_kept :
      (rows rows' : List (OutcomeObservation F V))
      → OutcomesKept rows rows'
      → (id : String) (o : OutcomeObservation F V) → find (λ x. str_eq x.id id) rows ≡ some o
      → (o' : OutcomeObservation F V) × (find (λ x. str_eq x.id id) rows' ≡ some o') × (o' ≡ o)
  unfolding Keeps
  outcome_kept rows rows' h = h

  experiment_of-kept :
      (rows rows' : List (BehaviorExperiment F V)) (id c : String)
      → ExperimentsKept rows rows'
      → experiment_of rows id c ≡ true
      → experiment_of rows' id c ≡ true
  unfolding Keeps get_experiment
  experiment_of-kept rows rows' id c h k =
      let (e, f, t) = found _ _ k in
      let (e', f', same) = h id e f in found_again _ _ e' f' (rw same t)

  verify_reference-kept :
      (w : World) (s s' : Store F V) (c : String) (kind : EvidenceReferenceKind) (id : String)
      → Extends s s'
      → verify_reference w s.experiments s.outcomes c kind id ≡ true
      → verify_reference w s'.experiments s'.outcomes c kind id ≡ true
  unfolding verify_reference
  verify_reference-kept w s s' c EvidenceReferenceKind.event id h k = k
  verify_reference-kept w s s' c EvidenceReferenceKind.trace id h k = k
  verify_reference-kept w s s' c EvidenceReferenceKind.offline_artifact id h k = k
  verify_reference-kept w s s' c EvidenceReferenceKind.outcome_observation id h k =
      let (o, e, t) = found _ _ k in
      let (o', e', same) = outcome_kept s.outcomes s'.outcomes h.outcomes id o e in
      found_again _ _ o' e' (
        rw same (experiment_of-kept s.experiments s'.experiments o.experiment_id c h.experiments t))

  RunOf-kept :
      (rows rows' : List (ReflectionRun F V)) (p : LearningProposal F V)
      → RunsKept rows rows'
      → RunOf rows p
      → RunOf rows' p
  unfolding Keeps get_run
  RunOf-kept rows rows' p h (r, e, c) = let (r', e', c') = h p.run_id r e in (r', e', c' ∙ c)

  PolicyOf-kept :
      (rows rows' : List (LearningProposal F V)) (x : BehaviorExperiment F V)
      → ProposalsKept rows rows'
      → PolicyOf rows x
      → PolicyOf rows' x
  unfolding Keeps get_proposal
  PolicyOf-kept rows rows' x h (p, e, (c, t)) =
      let (p', e', k) = h x.proposal_id p e in (p', e', (k.conversation ∙ c, rw k.type t))

  Evidenced-kept :
      (w : World) (s s' : Store F V) (x : ProposalEvidence F)
      → Extends s s'
      → Evidenced w s x
      → Evidenced w s' x
  unfolding Keeps get_proposal
  Evidenced-kept w s s' x h (p, e, v) =
      let (p', e', k) = h.proposals x.proposal_id p e in
      (
        p',
        e',
        rw k.conversation
            (verify_reference-kept w s s' p.conversation_id x.reference_kind x.reference_id h v),
      )

  -- Rows that belong to the rows of the old tables belong to those of the new ones.
  pub links-kept :
      (w : World) (s s' : Store F V)
      → Extends s s'
      → All (RunOf s.runs) s'.proposals
      → All (PolicyOf s.proposals) s'.experiments
      → All (Evidenced w s) s'.evidence
      → IsLinked w s'
  links-kept w s s' h ps es vs = record {
    proposals =
        All-imp (RunOf s.runs) (RunOf s'.runs) s'.proposals
          (λ p. RunOf-kept s.runs s'.runs p h.runs) ps;
    experiments =
        All-imp (PolicyOf s.proposals) (PolicyOf s'.proposals) s'.experiments
          (λ x. PolicyOf-kept s.proposals s'.proposals x h.proposals) es;
    evidence =
        All-imp (Evidenced w s) (Evidenced w s') s'.evidence (λ x. Evidenced-kept w s s' x h) vs;
  }
