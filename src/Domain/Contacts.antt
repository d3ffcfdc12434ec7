-- ===== src/Domain/Contacts.antt =====
-- src/ssa/domain/lifecycle.py: contact episodes, with the enumerations and the texts of their
-- members. The floating-point numbers are of a type `F`, the values of JSON objects of a type `V`.
use zero_hdsc.Base.{ℕ, String, ◌≡◌, refl, Option, none, some, if◌then◌else◌, str_eq}

pub data ContactPhase : Type 0 where
  opening waiting follow_up escalation withdrawal resolution : ContactPhase

-- ContactPhase.value
unfoldable pub contact_phase_value : ContactPhase → String
contact_phase_value ContactPhase.opening = "opening"
contact_phase_value ContactPhase.waiting = "waiting"
contact_phase_value ContactPhase.follow_up = "follow_up"
contact_phase_value ContactPhase.escalation = "escalation"
contact_phase_value ContactPhase.withdrawal = "withdrawal"
contact_phase_value ContactPhase.resolution = "resolution"

-- ContactPhase(text); `none` is a ValueError
unfoldable pub contact_phase_of : String → Option ContactPhase
contact_phase_of text =
    if str_eq text "opening"
    then some ContactPhase.opening
    else if str_eq text "waiting"
    then some ContactPhase.waiting
    else if str_eq text "follow_up"
    then some ContactPhase.follow_up
    else if str_eq text "escalation"
    then some ContactPhase.escalation
    else if str_eq text "withdrawal"
    then some ContactPhase.withdrawal
    else if str_eq text "resolution"
    then some ContactPhase.resolution
    else none

pub contact_phase_of-contact_phase_value :
    (member : ContactPhase) → contact_phase_of (contact_phase_value member) ≡ some member
unfolding contact_phase_of contact_phase_value
contact_phase_of-contact_phase_value ContactPhase.opening = refl
contact_phase_of-contact_phase_value ContactPhase.waiting = refl
contact_phase_of-contact_phase_value ContactPhase.follow_up = refl
contact_phase_of-contact_phase_value ContactPhase.escalation = refl
contact_phase_of-contact_phase_value ContactPhase.withdrawal = refl
contact_phase_of-contact_phase_value ContactPhase.resolution = refl

pub data ContactStatus : Type 0 where
  active resolved cancelled : ContactStatus

-- ContactStatus.value
unfoldable pub contact_status_value : ContactStatus → String
contact_status_value ContactStatus.active = "active"
contact_status_value ContactStatus.resolved = "resolved"
contact_status_value ContactStatus.cancelled = "cancelled"

-- ContactStatus(text); `none` is a ValueError
unfoldable pub contact_status_of : String → Option ContactStatus
contact_status_of text =
    if str_eq text "active"
    then some ContactStatus.active
    else if str_eq text "resolved"
    then some ContactStatus.resolved
    else if str_eq text "cancelled"
    then some ContactStatus.cancelled
    else none

pub contact_status_of-contact_status_value :
    (member : ContactStatus) → contact_status_of (contact_status_value member) ≡ some member
unfolding contact_status_of contact_status_value
contact_status_of-contact_status_value ContactStatus.active = refl
contact_status_of-contact_status_value ContactStatus.resolved = refl
contact_status_of-contact_status_value ContactStatus.cancelled = refl

pub record ContactEpisode {ℓ} (V : Type ℓ) : Type ℓ where
  pub id : String
  pub conversation_id : String
  pub correlation_id : String
  pub motive : String
  pub topic : String
  pub phase : ContactPhase
  pub status : ContactStatus
  pub message_count : ℕ
  pub max_messages : ℕ
  pub hypotheses : V
  pub source_initiative_id : Option String
  pub last_sent_at_ms : Option ℕ
  pub next_action_at_ms : Option ℕ
  pub resolved_by_event_id : Option String
  pub created_at_ms : ℕ
  pub updated_at_ms : ℕ
