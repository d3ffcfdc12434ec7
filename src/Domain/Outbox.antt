-- ===== src/Domain/Outbox.antt =====
-- src/ssa/domain/lifecycle.py: messages of the outbox, with the enumerations and the texts of their
-- members. The floating-point numbers are of a type `F`, the values of JSON objects of a type `V`.
use zero_hdsc.Base.{ℕ, String, ◌≡◌, refl, Option, none, some, if◌then◌else◌, str_eq}

pub data OutboxStatus : Type 0 where
  pending delivering delivered dead_letter : OutboxStatus

-- OutboxStatus.value
unfoldable pub outbox_status_value : OutboxStatus → String
outbox_status_value OutboxStatus.pending = "pending"
outbox_status_value OutboxStatus.delivering = "delivering"
outbox_status_value OutboxStatus.delivered = "delivered"
outbox_status_value OutboxStatus.dead_letter = "dead_letter"

-- OutboxStatus(text); `none` is a ValueError
unfoldable pub outbox_status_of : String → Option OutboxStatus
outbox_status_of text =
    if str_eq text "pending"
    then some OutboxStatus.pending
    else if str_eq text "delivering"
    then some OutboxStatus.delivering
    else if str_eq text "delivered"
    then some OutboxStatus.delivered
    else if str_eq text "dead_letter"
    then some OutboxStatus.dead_letter
    else none

pub outbox_status_of-outbox_status_value :
    (member : OutboxStatus) → outbox_status_of (outbox_status_value member) ≡ some member
unfolding outbox_status_of outbox_status_value
outbox_status_of-outbox_status_value OutboxStatus.pending = refl
outbox_status_of-outbox_status_value OutboxStatus.delivering = refl
outbox_status_of-outbox_status_value OutboxStatus.delivered = refl
outbox_status_of-outbox_status_value OutboxStatus.dead_letter = refl

pub record OutboxMessage {ℓ} (V : Type ℓ) : Type ℓ where
  pub id : String
  pub correlation_id : String
  pub channel : String
  pub recipient : String
  pub payload : V
  pub status : OutboxStatus
  pub attempt_count : ℕ
  pub next_attempt_at_ms : Option ℕ
  pub delivered_at_ms : Option ℕ
  pub created_at_ms : ℕ
  pub initiative_id : Option String
  pub dedup_key : Option String
  pub delivered_event_id : Option String
  pub last_error : Option String
