-- ===== src/Learning/Evidence.antt =====
-- SqliteLearningRepository of src/ssa/storage/learning_repository.py: the table
-- `learning_proposal_evidence`, and the state of all the tables of the repository.
use zero_hdsc.Base.{
  String, Bool, false, ◌&&◌, ◌||◌, Option, none, some, List, [], ◌∷◌, ◌++◌, ltb, ◌==◌,
  if◌then◌else◌, str_eq, str_less, Result, ok, err, unknown_row, unknown_evidence, find, select,
  order_by,
}
use zero_hdsc.Domain.Runs.{ReflectionRun}
use zero_hdsc.Domain.Proposals.{
  LearningProposal, ProposalEvidence, ConsolidationDecision, EvidenceReferenceKind,
  reference_kind_value,
}
use zero_hdsc.Domain.Experiments.{BehaviorExperiment, OutcomeObservation}
use zero_hdsc.Offline.{Episodes, Artifacts}
use zero_hdsc.Learning.Proposals.{get_proposal}
use zero_hdsc.Learning.Experiments.{get_experiment}

-- The tables of the other repositories: `has_event id conversation` tells whether the event is of
-- the conversation, `has_trace` likewise.
pub record World : Type 0 where
  pub has_event : String → String → Bool
  pub has_trace : String → String → Bool
  pub episodes : Episodes
  pub artifacts : Artifacts

pub record Store {ℓ} (F V : Type ℓ) : Type ℓ where
  pub runs : List (ReflectionRun F V)
  pub proposals : List (LearningProposal F V)
  pub evidence : List (ProposalEvidence F)
  pub decisions : List (ConsolidationDecision F V)
  pub experiments : List (BehaviorExperiment F V)
  pub outcomes : List (OutcomeObservation F V)

abbrev pub episode_of : Episodes → String → String → Bool
episode_of episodes episode conversation = elim (find (λ e. str_eq e.id episode) episodes) [
  | none ↦ false
  | some e ↦ str_eq e.conversation_id conversation
]

module _ {ℓ} {F : Type ℓ} where
  abbrev pub same_reference : ProposalEvidence F → ProposalEvidence F → Bool
  same_reference new old =
      str_eq old.proposal_id new.proposal_id
      && (str_eq (reference_kind_value old.reference_kind) (reference_kind_value new.reference_kind)
          && str_eq old.reference_id new.reference_id)

  -- INSERT OR IGNORE
  abbrev pub insert_or_ignore :
      ProposalEvidence F → List (ProposalEvidence F) → List (ProposalEvidence F)
  insert_or_ignore evidence rows = elim (find (same_reference evidence) rows) [
    | none ↦ rows ++ evidence ∷ []
    | some old ↦ rows
  ]

module _ {ℓ} {F V : Type ℓ} where
  abbrev pub experiment_of : List (BehaviorExperiment F V) → String → String → Bool
  experiment_of experiments experiment conversation = elim (get_experiment experiments experiment) [
    | none ↦ false
    | some e ↦ str_eq e.conversation_id conversation
  ]

  -- The query of `_verify_reference` for the kind of the reference, and whether it gives a row.
  unfoldable pub verify_reference :
      World
      → List (BehaviorExperiment F V)
      → List (OutcomeObservation F V)
      → String
      → EvidenceReferenceKind
      → String
      → Bool
  verify_reference w experiments outcomes conversation EvidenceReferenceKind.event id =
      w.has_event id conversation
  verify_reference w experiments outcomes conversation EvidenceReferenceKind.trace id =
      w.has_trace id conversation
  verify_reference w experiments outcomes conversation EvidenceReferenceKind.offline_artifact id =
      elim (find (λ a. str_eq a.id id) w.artifacts) [
        | none ↦ false
        | some a ↦ episode_of w.episodes a.episode_id conversation
      ]
  verify_reference w experiments outcomes conversation EvidenceReferenceKind.outcome_observation
        id =
      elim (find (λ o. str_eq o.id id) outcomes) [
        | none ↦ false
        | some o ↦ experiment_of experiments o.experiment_id conversation
      ]

  abbrev pub add_to :
      World
      → Option (LearningProposal F V)
      → ProposalEvidence F
      → Store F V
      → Result (ProposalEvidence F) × Store F V
  add_to w none evidence s = (err (unknown_row "proposal" evidence.proposal_id), s)
  add_to w (some proposal) evidence s =
      if verify_reference w s.experiments s.outcomes proposal.conversation_id
        evidence.reference_kind evidence.reference_id
      then (ok evidence, record s { evidence = insert_or_ignore evidence s.evidence })
      else (
        err (unknown_evidence (reference_kind_value evidence.reference_kind) evidence.reference_id),
        s,
      )

  unfoldable pub add_evidence :
      World → ProposalEvidence F → Store F V → Result (ProposalEvidence F) × Store F V
  add_evidence w evidence s = add_to w (get_proposal s.proposals evidence.proposal_id) evidence s

abbrev pub evidence_before {ℓ} : {F : Type ℓ} → ProposalEvidence F → ProposalEvidence F → Bool
evidence_before a b =
    ltb a.recorded_at_ms b.recorded_at_ms
    || (a.recorded_at_ms == b.recorded_at_ms
        && (str_less (reference_kind_value a.reference_kind) (reference_kind_value b.reference_kind)
            || (str_eq (reference_kind_value a.reference_kind)
                  (reference_kind_value b.reference_kind)
                && str_less a.reference_id b.reference_id)))

unfoldable pub evidence_for_proposal {ℓ} :
    {F : Type ℓ} → List (ProposalEvidence F) → String → List (ProposalEvidence F)
evidence_for_proposal rows proposal =
    order_by evidence_before (select (λ e. str_eq e.proposal_id proposal) rows)
