-- ===== src/Rows/Outbox.antt =====
-- src/ssa/storage/lifecycle_repository.py: the rows of messages of the outbox. JSON columns hold texts; a text
-- that names no member of an enumeration raises a ValueError.
pub mod ReadBack
use zero_hdsc.Base.{ℕ, String, Option, List, Result, ok, or_raise, value_error, ◌>>=◌}
use zero_hdsc.Domain.Outbox.{OutboxMessage, OutboxStatus, outbox_status_of, outbox_status_value}
use zero_hdsc.Rows.Json.{Json, or_default}

pub record MessageRow : Type 0 where
  pub id : String
  pub correlation_id : String
  pub channel : String
  pub recipient : String
  pub payload_json : String
  pub status : String
  pub attempt_count : ℕ
  pub next_attempt_at_ms : Option ℕ
  pub delivered_at_ms : Option ℕ
  pub created_at_ms : ℕ
  pub initiative_id : Option String
  pub dedup_key : Option String
  pub delivered_event_id : Option String
  pub last_error : Option String

module _ {ℓ} {V : Type ℓ} (json : Json V) where
  -- The parameters of the INSERT.
  unfoldable pub message_row : OutboxMessage V → MessageRow
  message_row message = record {
    id = message.id;
    correlation_id = message.correlation_id;
    channel = message.channel;
    recipient = message.recipient;
    payload_json = json.dumps message.payload;
    status = outbox_status_value message.status;
    attempt_count = message.attempt_count;
    next_attempt_at_ms = message.next_attempt_at_ms;
    delivered_at_ms = message.delivered_at_ms;
    created_at_ms = message.created_at_ms;
    initiative_id = message.initiative_id;
    dedup_key = message.dedup_key;
    delivered_event_id = message.delivered_event_id;
    last_error = message.last_error;
  }

  unfoldable pub row_to_message : MessageRow → Result (OutboxMessage V)
  row_to_message row = do
    payload ← json.loads (or_default row.payload_json "{}")
    status ← or_raise (outbox_status_of row.status) (value_error "")
    ok record {
      id = row.id;
      correlation_id = row.correlation_id;
      channel = row.channel;
      recipient = row.recipient;
      payload = payload;
      status = status;
      attempt_count = row.attempt_count;
      next_attempt_at_ms = row.next_attempt_at_ms;
      delivered_at_ms = row.delivered_at_ms;
      created_at_ms = row.created_at_ms;
      initiative_id = row.initiative_id;
      dedup_key = row.dedup_key;
      delivered_event_id = row.delivered_event_id;
      last_error = row.last_error;
    }
