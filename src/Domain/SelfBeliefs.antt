-- ===== src/Domain/SelfBeliefs.antt =====
-- src/ssa/domain/self_belief.py: self-beliefs, with the enumerations and the texts of their
-- members. The floating-point numbers are of a type `F`, the values of JSON objects of a type `V`.
use Prim.Native.String.{◌++◌ as ◌^^◌}
use zero_hdsc.Base.{
  Bool, true, false, Result, require, value_error, ℕ, String, ◌≡◌, refl, Option, none, some, List,
  if◌then◌else◌, str_eq,
}

pub data SelfBeliefStatus : Type 0 where
  candidate active challenged revised archived : SelfBeliefStatus

-- SelfBeliefStatus.value
unfoldable pub belief_status_value : SelfBeliefStatus → String
belief_status_value SelfBeliefStatus.candidate = "candidate"
belief_status_value SelfBeliefStatus.active = "active"
belief_status_value SelfBeliefStatus.challenged = "challenged"
belief_status_value SelfBeliefStatus.revised = "revised"
belief_status_value SelfBeliefStatus.archived = "archived"

-- SelfBeliefStatus(text); `none` is a ValueError
unfoldable pub belief_status_of : String → Option SelfBeliefStatus
belief_status_of text =
    if str_eq text "candidate"
    then some SelfBeliefStatus.candidate
    else if str_eq text "active"
    then some SelfBeliefStatus.active
    else if str_eq text "challenged"
    then some SelfBeliefStatus.challenged
    else if str_eq text "revised"
    then some SelfBeliefStatus.revised
    else if str_eq text "archived"
    then some SelfBeliefStatus.archived
    else none

pub belief_status_of-belief_status_value :
    (member : SelfBeliefStatus) → belief_status_of (belief_status_value member) ≡ some member
unfolding belief_status_of belief_status_value
belief_status_of-belief_status_value SelfBeliefStatus.candidate = refl
belief_status_of-belief_status_value SelfBeliefStatus.active = refl
belief_status_of-belief_status_value SelfBeliefStatus.challenged = refl
belief_status_of-belief_status_value SelfBeliefStatus.revised = refl
belief_status_of-belief_status_value SelfBeliefStatus.archived = refl

pub data SelfBeliefEvidenceRelation : Type 0 where
  supports contradicts : SelfBeliefEvidenceRelation

-- SelfBeliefEvidenceRelation.value
unfoldable pub relation_value : SelfBeliefEvidenceRelation → String
relation_value SelfBeliefEvidenceRelation.supports = "supports"
relation_value SelfBeliefEvidenceRelation.contradicts = "contradicts"

-- SelfBeliefEvidenceRelation(text); `none` is a ValueError
unfoldable pub relation_of : String → Option SelfBeliefEvidenceRelation
relation_of text =
    if str_eq text "supports"
    then some SelfBeliefEvidenceRelation.supports
    else if str_eq text "contradicts"
    then some SelfBeliefEvidenceRelation.contradicts
    else none

pub relation_of-relation_value :
    (member : SelfBeliefEvidenceRelation) → relation_of (relation_value member) ≡ some member
unfolding relation_of relation_value
relation_of-relation_value SelfBeliefEvidenceRelation.supports = refl
relation_of-relation_value SelfBeliefEvidenceRelation.contradicts = refl

pub record SelfBelief {ℓ} (F : Type ℓ) : Type ℓ where
  pub id : String
  pub lineage_id : String
  pub claim : String
  pub confidence : F
  pub status : SelfBeliefStatus
  pub version : ℕ
  pub evidence_event_ids : List String
  pub counterevidence_event_ids : List String
  pub previous_id : Option String
  pub cause_event_id : Option String
  pub change_reason : String
  pub model : Option String
  pub prompt_version : Option String
  pub candidate_since_ms : ℕ
  pub activated_at_ms : Option ℕ
  pub created_at_ms : ℕ
  pub updated_at_ms : ℕ

-- new in _ALLOWED_TRANSITIONS[old]
unfoldable pub allowed : SelfBeliefStatus → SelfBeliefStatus → Bool
allowed candidate candidate = true
allowed candidate active = true
allowed active active = true
allowed active challenged = true
allowed challenged challenged = true
allowed challenged revised = true
allowed revised revised = true
allowed revised challenged = true
allowed archived archived = false
allowed old archived = true
allowed old new = false

-- validate_self_belief_transition
unfoldable pub validate_transition : SelfBeliefStatus → SelfBeliefStatus → Result (Unit {0})
validate_transition previous current = require (allowed previous current) (
    value_error (
      "invalid self-belief transition: "
      ^^ (belief_status_value previous ^^ (" -> " ^^ belief_status_value current))))

pub record SelfBeliefEvidence : Type 0 where
  pub belief_version_id : String
  pub event_id : String
  pub relation : SelfBeliefEvidenceRelation
  pub recorded_at_ms : ℕ
