-- ===== src/Rows/Proposals/ReadBack.antt =====
-- src/ssa/storage/learning_repository.py: what is read back from a row of learning proposals, their evidence and the decisions on them.
use zero_hdsc.Domain.Events.{source_kind_of-source_kind_value}
use zero_hdsc.Base.{refl, ◌≡◌, ok}
use zero_hdsc.Domain.Proposals.{
  LearningProposal, ProposalEvidence, ConsolidationDecision, proposal_type_of-proposal_type_value,
  proposal_status_of-proposal_status_value, reference_kind_of-reference_kind_value,
  evidence_relation_of-evidence_relation_value, decision_kind_of-decision_kind_value,
}
use zero_hdsc.Rows.Json.{Json, Reads, or_default-dumps}
use zero_hdsc.Rows.Proposals.{
  proposal_row, row_to_proposal, evidence_row, row_to_evidence, decision_row, row_to_decision,
}

-- A learning proposal whose JSON columns are not empty and are read back by json.loads is read back from its row as it was.
pub row_to_proposal-proposal_row {ℓ} :
    {F V : Type ℓ} (json : Json V) (proposal : LearningProposal F V)
    → Reads json proposal.payload
    → Reads json proposal.rollback
    → row_to_proposal json (proposal_row json proposal) ≡ ok proposal
unfolding row_to_proposal proposal_row
row_to_proposal-proposal_row json proposal h1 h2 =
    rw
      (
        proposal_type_of-proposal_type_value proposal.proposal_type,
        proposal_status_of-proposal_status_value proposal.status,
        or_default-dumps json proposal.payload "{}" h1.0,
        h1.1,
        or_default-dumps json proposal.rollback "{}" h2.0,
        h2.1,
      )
      refl

-- The evidence of a proposal is read back from its row as it was.
pub row_to_evidence-evidence_row {ℓ} :
    {F : Type ℓ} (evidence : ProposalEvidence F)
    → row_to_evidence (evidence_row evidence) ≡ ok evidence
unfolding row_to_evidence evidence_row
row_to_evidence-evidence_row evidence =
    rw
      (
        reference_kind_of-reference_kind_value evidence.reference_kind,
        evidence_relation_of-evidence_relation_value evidence.relation,
        source_kind_of-source_kind_value evidence.provenance_kind,
      )
      refl

-- A consolidation decision whose JSON columns are not empty and are read back by json.loads is read back from its row as it was.
pub row_to_decision-decision_row {ℓ} :
    {F V : Type ℓ} (json : Json V) (decision : ConsolidationDecision F V)
    → Reads json decision.criteria
    → row_to_decision json (decision_row json decision) ≡ ok decision
unfolding row_to_decision decision_row
row_to_decision-decision_row json decision h1 =
    rw
      (
        decision_kind_of-decision_kind_value decision.decision,
        or_default-dumps json decision.criteria "{}" h1.0,
        h1.1,
      )
      refl
