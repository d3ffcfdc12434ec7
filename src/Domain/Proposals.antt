-- ===== src/Domain/Proposals.antt =====
-- src/ssa/domain/learning.py: learning proposals, their evidence and the decisions on them, with the enumerations and the texts of their
-- members. The floating-point numbers are of a type `F`, the values of JSON objects of a type `V`.
use zero_hdsc.Domain.Events.{SourceKind}
use zero_hdsc.Base.{ℕ, String, ◌≡◌, refl, Option, none, some, if◌then◌else◌, str_eq}

pub data LearningProposalType : Type 0 where
  episode_note memory_candidate belief_revision goal_adjustment policy_proposal :
      LearningProposalType

-- LearningProposalType.value
unfoldable pub proposal_type_value : LearningProposalType → String
proposal_type_value LearningProposalType.episode_note = "episode_note"
proposal_type_value LearningProposalType.memory_candidate = "memory_candidate"
proposal_type_value LearningProposalType.belief_revision = "belief_revision"
proposal_type_value LearningProposalType.goal_adjustment = "goal_adjustment"
proposal_type_value LearningProposalType.policy_proposal = "policy_proposal"

-- LearningProposalType(text); `none` is a ValueError
unfoldable pub proposal_type_of : String → Option LearningProposalType
proposal_type_of text =
    if str_eq text "episode_note"
    then some LearningProposalType.episode_note
    else if str_eq text "memory_candidate"
    then some LearningProposalType.memory_candidate
    else if str_eq text "belief_revision"
    then some LearningProposalType.belief_revision
    else if str_eq text "goal_adjustment"
    then some LearningProposalType.goal_adjustment
    else if str_eq text "policy_proposal"
    then some LearningProposalType.policy_proposal
    else none

pub proposal_type_of-proposal_type_value :
    (member : LearningProposalType) → proposal_type_of (proposal_type_value member) ≡ some member
unfolding proposal_type_of proposal_type_value
proposal_type_of-proposal_type_value LearningProposalType.episode_note = refl
proposal_type_of-proposal_type_value LearningProposalType.memory_candidate = refl
proposal_type_of-proposal_type_value LearningProposalType.belief_revision = refl
proposal_type_of-proposal_type_value LearningProposalType.goal_adjustment = refl
proposal_type_of-proposal_type_value LearningProposalType.policy_proposal = refl

pub data LearningProposalStatus : Type 0 where
  candidate approved rejected applied under_test confirmed rolled_back superseded :
      LearningProposalStatus

-- LearningProposalStatus.value
unfoldable pub proposal_status_value : LearningProposalStatus → String
proposal_status_value LearningProposalStatus.candidate = "candidate"
proposal_status_value LearningProposalStatus.approved = "approved"
proposal_status_value LearningProposalStatus.rejected = "rejected"
proposal_status_value LearningProposalStatus.applied = "applied"
proposal_status_value LearningProposalStatus.under_test = "under_test"
proposal_status_value LearningProposalStatus.confirmed = "confirmed"
proposal_status_value LearningProposalStatus.rolled_back = "rolled_back"
proposal_status_value LearningProposalStatus.superseded = "superseded"

-- LearningProposalStatus(text); `none` is a ValueError
unfoldable pub proposal_status_of : String → Option LearningProposalStatus
proposal_status_of text =
    if str_eq text "candidate"
    then some LearningProposalStatus.candidate
    else if str_eq text "approved"
    then some LearningProposalStatus.approved
    else if str_eq text "rejected"
    then some LearningProposalStatus.rejected
    else if str_eq text "applied"
    then some LearningProposalStatus.applied
    else if str_eq text "under_test"
    then some LearningProposalStatus.under_test
    else if str_eq text "confirmed"
    then some LearningProposalStatus.confirmed
    else if str_eq text "rolled_back"
    then some LearningProposalStatus.rolled_back
    else if str_eq text "superseded"
    then some LearningProposalStatus.superseded
    else none

pub proposal_status_of-proposal_status_value :
    (member : LearningProposalStatus)
    → proposal_status_of (proposal_status_value member) ≡ some member
unfolding proposal_status_of proposal_status_value
proposal_status_of-proposal_status_value LearningProposalStatus.candidate = refl
proposal_status_of-proposal_status_value LearningProposalStatus.approved = refl
proposal_status_of-proposal_status_value LearningProposalStatus.rejected = refl
proposal_status_of-proposal_status_value LearningProposalStatus.applied = refl
proposal_status_of-proposal_status_value LearningProposalStatus.under_test = refl
proposal_status_of-proposal_status_value LearningProposalStatus.confirmed = refl
proposal_status_of-proposal_status_value LearningProposalStatus.rolled_back = refl
proposal_status_of-proposal_status_value LearningProposalStatus.superseded = refl

pub data EvidenceReferenceKind : Type 0 where
  event trace offline_artifact outcome_observation : EvidenceReferenceKind

-- EvidenceReferenceKind.value
unfoldable pub reference_kind_value : EvidenceReferenceKind → String
reference_kind_value EvidenceReferenceKind.event = "event"
reference_kind_value EvidenceReferenceKind.trace = "trace"
reference_kind_value EvidenceReferenceKind.offline_artifact = "offline_artifact"
reference_kind_value EvidenceReferenceKind.outcome_observation = "outcome_observation"

-- EvidenceReferenceKind(text); `none` is a ValueError
unfoldable pub reference_kind_of : String → Option EvidenceReferenceKind
reference_kind_of text =
    if str_eq text "event"
    then some EvidenceReferenceKind.event
    else if str_eq text "trace"
    then some EvidenceReferenceKind.trace
    else if str_eq text "offline_artifact"
    then some EvidenceReferenceKind.offline_artifact
    else if str_eq text "outcome_observation"
    then some EvidenceReferenceKind.outcome_observation
    else none

pub reference_kind_of-reference_kind_value :
    (member : EvidenceReferenceKind) → reference_kind_of (reference_kind_value member) ≡ some member
unfolding reference_kind_of reference_kind_value
reference_kind_of-reference_kind_value EvidenceReferenceKind.event = refl
reference_kind_of-reference_kind_value EvidenceReferenceKind.trace = refl
reference_kind_of-reference_kind_value EvidenceReferenceKind.offline_artifact = refl
reference_kind_of-reference_kind_value EvidenceReferenceKind.outcome_observation = refl

pub data EvidenceRelation : Type 0 where
  supports contradicts : EvidenceRelation

-- EvidenceRelation.value
unfoldable pub evidence_relation_value : EvidenceRelation → String
evidence_relation_value EvidenceRelation.supports = "supports"
evidence_relation_value EvidenceRelation.contradicts = "contradicts"

-- EvidenceRelation(text); `none` is a ValueError
unfoldable pub evidence_relation_of : String → Option EvidenceRelation
evidence_relation_of text =
    if str_eq text "supports"
    then some EvidenceRelation.supports
    else if str_eq text "contradicts"
    then some EvidenceRelation.contradicts
    else none

pub evidence_relation_of-evidence_relation_value :
    (member : EvidenceRelation)
    → evidence_relation_of (evidence_relation_value member) ≡ some member
unfolding evidence_relation_of evidence_relation_value
evidence_relation_of-evidence_relation_value EvidenceRelation.supports = refl
evidence_relation_of-evidence_relation_value EvidenceRelation.contradicts = refl

pub data ConsolidationDecisionKind : Type 0 where
  approve defer reject rollback : ConsolidationDecisionKind

-- ConsolidationDecisionKind.value
unfoldable pub decision_kind_value : ConsolidationDecisionKind → String
decision_kind_value ConsolidationDecisionKind.approve = "approve"
decision_kind_value ConsolidationDecisionKind.defer = "defer"
decision_kind_value ConsolidationDecisionKind.reject = "reject"
decision_kind_value ConsolidationDecisionKind.rollback = "rollback"

-- ConsolidationDecisionKind(text); `none` is a ValueError
unfoldable pub decision_kind_of : String → Option ConsolidationDecisionKind
decision_kind_of text =
    if str_eq text "approve"
    then some ConsolidationDecisionKind.approve
    else if str_eq text "defer"
    then some ConsolidationDecisionKind.defer
    else if str_eq text "reject"
    then some ConsolidationDecisionKind.reject
    else if str_eq text "rollback"
    then some ConsolidationDecisionKind.rollback
    else none

pub decision_kind_of-decision_kind_value :
    (member : ConsolidationDecisionKind)
    → decision_kind_of (decision_kind_value member) ≡ some member
unfolding decision_kind_of decision_kind_value
decision_kind_of-decision_kind_value ConsolidationDecisionKind.approve = refl
decision_kind_of-decision_kind_value ConsolidationDecisionKind.defer = refl
decision_kind_of-decision_kind_value ConsolidationDecisionKind.reject = refl
decision_kind_of-decision_kind_value ConsolidationDecisionKind.rollback = refl

pub record LearningProposal {ℓ} (F V : Type ℓ) : Type ℓ where
  pub id : String
  pub run_id : String
  pub conversation_id : String
  pub dedup_key : String
  pub proposal_type : LearningProposalType
  pub status : LearningProposalStatus
  pub title : String
  pub content : String
  pub payload : V
  pub rationale : String
  pub confidence : F
  pub critic_score : F
  pub target_kind : Option String
  pub target_id : Option String
  pub rollback : V
  pub version : ℕ
  pub created_at_ms : ℕ
  pub updated_at_ms : ℕ
  pub applied_at_ms : Option ℕ

pub record ProposalEvidence {ℓ} (F : Type ℓ) : Type ℓ where
  pub proposal_id : String
  pub reference_kind : EvidenceReferenceKind
  pub reference_id : String
  pub relation : EvidenceRelation
  pub provenance_kind : SourceKind
  pub trust_weight : F
  pub likelihood_ratio : F
  pub content_hash : String
  pub excerpt : Option String
  pub recorded_at_ms : ℕ

pub record ConsolidationDecision {ℓ} (F V : Type ℓ) : Type ℓ where
  pub id : String
  pub proposal_id : String
  pub decision_version : ℕ
  pub decision : ConsolidationDecisionKind
  pub gate_score : F
  pub criteria : V
  pub reason : String
  pub rules_version : String
  pub model : Option String
  pub prompt_version : Option String
  pub event_id : Option String
  pub created_at_ms : ℕ
