-- ===== src/Rows/Proposals.antt =====
-- src/ssa/storage/learning_repository.py: the rows of learning proposals, their evidence and the decisions on them. JSON columns hold texts; a text
-- that names no member of an enumeration raises a ValueError.
pub mod ReadBack
use zero_hdsc.Domain.Events.{SourceKind, source_kind_of, source_kind_value}
use zero_hdsc.Base.{ℕ, String, Option, List, Result, ok, or_raise, value_error, ◌>>=◌}
use zero_hdsc.Domain.Proposals.{
  LearningProposal, ProposalEvidence, ConsolidationDecision, ConsolidationDecisionKind,
  EvidenceReferenceKind, EvidenceRelation, LearningProposalStatus, LearningProposalType,
  decision_kind_of, decision_kind_value, evidence_relation_of, evidence_relation_value,
  proposal_status_of, proposal_status_value, proposal_type_of, proposal_type_value,
  reference_kind_of, reference_kind_value,
}
use zero_hdsc.Rows.Json.{Json, or_default}

pub record LearningProposalRow {ℓ} (F : Type ℓ) : Type ℓ where
  pub id : String
  pub run_id : String
  pub conversation_id : String
  pub dedup_key : String
  pub proposal_type : String
  pub status : String
  pub title : String
  pub content : String
  pub payload_json : String
  pub rationale : String
  pub confidence : F
  pub critic_score : F
  pub target_kind : Option String
  pub target_id : Option String
  pub rollback_json : String
  pub version : ℕ
  pub created_at_ms : ℕ
  pub updated_at_ms : ℕ
  pub applied_at_ms : Option ℕ

module _ {ℓ} {F V : Type ℓ} (json : Json V) where
  -- The parameters of the INSERT.
  unfoldable pub proposal_row : LearningProposal F V → LearningProposalRow F
  proposal_row proposal = record {
    id = proposal.id;
    run_id = proposal.run_id;
    conversation_id = proposal.conversation_id;
    dedup_key = proposal.dedup_key;
    proposal_type = proposal_type_value proposal.proposal_type;
    status = proposal_status_value proposal.status;
    title = proposal.title;
    content = proposal.content;
    payload_json = json.dumps proposal.payload;
    rationale = proposal.rationale;
    confidence = proposal.confidence;
    critic_score = proposal.critic_score;
    target_kind = proposal.target_kind;
    target_id = proposal.target_id;
    rollback_json = json.dumps proposal.rollback;
    version = proposal.version;
    created_at_ms = proposal.created_at_ms;
    updated_at_ms = proposal.updated_at_ms;
    applied_at_ms = proposal.applied_at_ms;
  }

  unfoldable pub row_to_proposal : LearningProposalRow F → Result (LearningProposal F V)
  row_to_proposal row = do
    proposal_type ← or_raise (proposal_type_of row.proposal_type) (value_error "")
    status ← or_raise (proposal_status_of row.status) (value_error "")
    payload ← json.loads (or_default row.payload_json "{}")
    rollback ← json.loads (or_default row.rollback_json "{}")
    ok record {
      id = row.id;
      run_id = row.run_id;
      conversation_id = row.conversation_id;
      dedup_key = row.dedup_key;
      proposal_type = proposal_type;
      status = status;
      title = row.title;
      content = row.content;
      payload = payload;
      rationale = row.rationale;
      confidence = row.confidence;
      critic_score = row.critic_score;
      target_kind = row.target_kind;
      target_id = row.target_id;
      rollback = rollback;
      version = row.version;
      created_at_ms = row.created_at_ms;
      updated_at_ms = row.updated_at_ms;
      applied_at_ms = row.applied_at_ms;
    }

pub record ProposalEvidenceRow {ℓ} (F : Type ℓ) : Type ℓ where
  pub proposal_id : String
  pub reference_kind : String
  pub reference_id : String
  pub relation : String
  pub provenance_kind : String
  pub trust_weight : F
  pub likelihood_ratio : F
  pub content_hash : String
  pub excerpt : Option String
  pub recorded_at_ms : ℕ

module _ {ℓ} {F : Type ℓ} where
  -- The parameters of the INSERT.
  unfoldable pub evidence_row : ProposalEvidence F → ProposalEvidenceRow F
  evidence_row evidence = record {
    proposal_id = evidence.proposal_id;
    reference_kind = reference_kind_value evidence.reference_kind;
    reference_id = evidence.reference_id;
    relation = evidence_relation_value evidence.relation;
    provenance_kind = source_kind_value evidence.provenance_kind;
    trust_weight = evidence.trust_weight;
    likelihood_ratio = evidence.likelihood_ratio;
    content_hash = evidence.content_hash;
    excerpt = evidence.excerpt;
    recorded_at_ms = evidence.recorded_at_ms;
  }

  unfoldable pub row_to_evidence : ProposalEvidenceRow F → Result (ProposalEvidence F)
  row_to_evidence row = do
    reference_kind ← or_raise (reference_kind_of row.reference_kind) (value_error "")
    relation ← or_raise (evidence_relation_of row.relation) (value_error "")
    provenance_kind ← or_raise (source_kind_of row.provenance_kind) (value_error "")
    ok record {
      proposal_id = row.proposal_id;
      reference_kind = reference_kind;
      reference_id = row.reference_id;
      relation = relation;
      provenance_kind = provenance_kind;
      trust_weight = row.trust_weight;
      likelihood_ratio = row.likelihood_ratio;
      content_hash = row.content_hash;
      excerpt = row.excerpt;
      recorded_at_ms = row.recorded_at_ms;
    }

pub record ConsolidationDecisionRow {ℓ} (F : Type ℓ) : Type ℓ where
  pub id : String
  pub proposal_id : String
  pub decision_version : ℕ
  pub decision : String
  pub gate_score : F
  pub criteria_json : String
  pub reason : String
  pub rules_version : String
  pub model : Option String
  pub prompt_version : Option String
  pub event_id : Option String
  pub created_at_ms : ℕ

module _ {ℓ} {F V : Type ℓ} (json : Json V) where
  -- The parameters of the INSERT.
  unfoldable pub decision_row : ConsolidationDecision F V → ConsolidationDecisionRow F
  decision_row decision = record {
    id = decision.id;
    proposal_id = decision.proposal_id;
    decision_version = decision.decision_version;
    decision = decision_kind_value decision.decision;
    gate_score = decision.gate_score;
    criteria_json = json.dumps decision.criteria;
    reason = decision.reason;
    rules_version = decision.rules_version;
    model = decision.model;
    prompt_version = decision.prompt_version;
    event_id = decision.event_id;
    created_at_ms = decision.created_at_ms;
  }

  unfoldable pub row_to_decision : ConsolidationDecisionRow F → Result (ConsolidationDecision F V)
  row_to_decision row = do
    decision ← or_raise (decision_kind_of row.decision) (value_error "")
    criteria ← json.loads (or_default row.criteria_json "{}")
    ok record {
      id = row.id;
      proposal_id = row.proposal_id;
      decision_version = row.decision_version;
      decision = decision;
      gate_score = row.gate_score;
      criteria = criteria;
      reason = row.reason;
      rules_version = row.rules_version;
      model = row.model;
      prompt_version = row.prompt_version;
      event_id = row.event_id;
      created_at_ms = row.created_at_ms;
    }
