-- ===== src/Rows/Outbox/ReadBack.antt =====
-- src/ssa/storage/lifecycle_repository.py: what is read back from a row of messages of the outbox.
use zero_hdsc.Base.{refl, ◌≡◌, ok}
use zero_hdsc.Domain.Outbox.{OutboxMessage, outbox_status_of-outbox_status_value}
use zero_hdsc.Rows.Json.{Json, Reads, or_default-dumps}
use zero_hdsc.Rows.Outbox.{message_row, row_to_message}

-- A message whose JSON columns are not empty and are read back by json.loads is read back from its row as it was.
pub row_to_message-message_row {ℓ} :
    {V : Type ℓ} (json : Json V) (message : OutboxMessage V)
    → Reads json message.payload
    → row_to_message json (message_row json message) ≡ ok message
unfolding row_to_message message_row
row_to_message-message_row json message h1 =
    rw
      (
        or_default-dumps json message.payload "{}" h1.0,
        h1.1,
        outbox_status_of-outbox_status_value message.status,
      )
      refl
