-- ===== src/Domain/Initiatives.antt =====
-- src/ssa/domain/lifecycle.py: initiatives, with the enumerations and the texts of their
-- members. The floating-point numbers are of a type `F`, the values of JSON objects of a type `V`.
use zero_hdsc.Base.{ℕ, String, ◌≡◌, refl, Option, none, some, List, if◌then◌else◌, str_eq}

pub data InitiativeStatus : Type 0 where
  candidate approved queued sent expired cancelled : InitiativeStatus

-- InitiativeStatus.value
unfoldable pub initiative_status_value : InitiativeStatus → String
initiative_status_value InitiativeStatus.candidate = "candidate"
initiative_status_value InitiativeStatus.approved = "approved"
initiative_status_value InitiativeStatus.queued = "queued"
initiative_status_value InitiativeStatus.sent = "sent"
initiative_status_value InitiativeStatus.expired = "expired"
initiative_status_value InitiativeStatus.cancelled = "cancelled"

-- InitiativeStatus(text); `none` is a ValueError
unfoldable pub initiative_status_of : String → Option InitiativeStatus
initiative_status_of text =
    if str_eq text "candidate"
    then some InitiativeStatus.candidate
    else if str_eq text "approved"
    then some InitiativeStatus.approved
    else if str_eq text "queued"
    then some InitiativeStatus.queued
    else if str_eq text "sent"
    then some InitiativeStatus.sent
    else if str_eq text "expired"
    then some InitiativeStatus.expired
    else if str_eq text "cancelled"
    then some InitiativeStatus.cancelled
    else none

pub initiative_status_of-initiative_status_value :
    (member : InitiativeStatus)
    → initiative_status_of (initiative_status_value member) ≡ some member
unfolding initiative_status_of initiative_status_value
initiative_status_of-initiative_status_value InitiativeStatus.candidate = refl
initiative_status_of-initiative_status_value InitiativeStatus.approved = refl
initiative_status_of-initiative_status_value InitiativeStatus.queued = refl
initiative_status_of-initiative_status_value InitiativeStatus.sent = refl
initiative_status_of-initiative_status_value InitiativeStatus.expired = refl
initiative_status_of-initiative_status_value InitiativeStatus.cancelled = refl

pub record Initiative {ℓ} (F V : Type ℓ) : Type ℓ where
  pub id : String
  pub conversation_id : String
  pub motive : String
  pub intent : String
  pub content_draft : String
  pub urgency : F
  pub decision_score : F
  pub status : InitiativeStatus
  pub earliest_send_at_ms : ℕ
  pub expires_at_ms : Option ℕ
  pub correlation_id : Option String
  pub goal_id : Option String
  pub source_event_ids : List String
  pub source_trace_ids : List String
  pub decision : V
  pub channel : String
  pub dedup_key : Option String
  pub sent_event_id : Option String
  pub created_at_ms : ℕ
  pub updated_at_ms : ℕ
