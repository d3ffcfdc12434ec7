-- ===== src/Delivery/Examples.antt =====
-- A run of `deliver_due` over two due messages, one of which has no initiative.
use zero_hdsc.Base.{ℕ, ◌+◌, String, refl, [], ◌∷◌, some, none, ok}
use zero_hdsc.Domain.Outbox.{OutboxMessage, OutboxStatus}
use zero_hdsc.Domain.Events.{Event, Actor, SourceKind}
use zero_hdsc.Rows.Examples.{notes, some_message, some_initiative}
use zero_hdsc.Rows.Outbox.{message_row}
use zero_hdsc.Rows.Initiatives.{initiative_row}
use zero_hdsc.Delivery.{State, Service, DeliveryBatchResult, deliver_due}
use zero_hdsc.Delivery.Batch.{IsBatch, deliver_due-IsBatch}
use zero_hdsc.Outbox.{claim_due, claim_all, due_ids, fail, mark_delivered}
use zero_hdsc.Base.{order_by, select, rowcount, find, update_where, dict_get, error_text, insert_by}
use zero_hdsc.Domain.Outbox.{outbox_status_value, outbox_status_of}
use zero_hdsc.Rows.Outbox.{row_to_message}
use zero_hdsc.Delivery.{
  deliver_all, conclude, attempt, delivery_event, failing, initiative_for, retry_delay_ms,
}
use zero_hdsc.Domain.Events.{actor_of, actor_value, source_kind_of, source_kind_value}
use zero_hdsc.Domain.Initiatives.{initiative_status_of, initiative_status_value}
use zero_hdsc.Events.{append, find_by_channel_message, make_signal, normalize_signal, without_nul}
use zero_hdsc.Initiatives.{update_status}
use zero_hdsc.Rows.Events.{event_row, row_to_event}
use zero_hdsc.Rows.Initiatives.{row_to_initiative}
use zero_hdsc.Rows.Json.{or_default}
use zero_hdsc.Outbox.{get as get_message}
use zero_hdsc.Initiatives.{get as get_initiative}

abbrev service : Service ℕ String Unit
service = record {
  adapters = ("channel", λ message s. (ok tt, s)) ∷ [];
  on_delivered = none;
  lease_ms = 60;
  max_attempts = 5;
}

abbrev message : OutboxMessage String
message = record some_message {
  id = "m1";
  status = OutboxStatus.pending;
  attempt_count = 0;
  next_attempt_at_ms = none;
  initiative_id = some "id";
}

abbrev start : State ℕ Unit
start = record {
  outbox =
      message_row notes message
      ∷ message_row notes (record message { id = "m2"; initiative_id = none })
      ∷ [];
  initiatives = initiative_row notes some_initiative ∷ [];
  events = [];
  rest = tt;
  reads = 0;
  ids = 0;
}

abbrev sent : Event String
sent = record {
  id = "event-1";
  correlation_id = "correlation_id";
  conversation_id = "conversation_id";
  actor = Actor.agent;
  event_type = "agent.initiative";
  source_kind = SourceKind.agent_output;
  content = "hello";
  parent_event_id = none;
  channel = some "outbox:channel";
  channel_message_id = some "m1";
  content_hash = "hello";
  metadata = "{}";
  created_at_ms = 101;
}

abbrev batch : DeliveryBatchResult String
batch = record { claimed = 2; delivered = 1; failed = 1; dead_lettered = 0; events = sent ∷ [] }

-- The state after the batch.
abbrev finish : State ℕ Unit
finish =
    (deliver_due notes (λ n. 100 + n) (λ n. "event-1") (λ text. text) (λ text. text) (λ text. text)
      (λ payload. "hello") (λ initiative m. "{}") 8 service start).1

deliver_due-IsBatch_example :
    IsBatch notes
      (λ n. 100 + n)
      (λ n. "event-1")
      (λ text. text)
      (λ text. text)
      (λ text. text)
      (λ payload. "hello")
      (λ initiative m. "{}")
      8
      service
      start
      batch
      finish
unfolding deliver_due message_row initiative_row get_message get_initiative claim_due claim_all
    due_ids fail mark_delivered order_by select rowcount find update_where dict_get error_text
    insert_by outbox_status_value outbox_status_of row_to_message deliver_all conclude attempt
    delivery_event failing initiative_for retry_delay_ms actor_of actor_value source_kind_of
    source_kind_value initiative_status_of initiative_status_value append find_by_channel_message
    make_signal normalize_signal without_nul update_status event_row row_to_event row_to_initiative
    or_default
deliver_due-IsBatch_example =
    deliver_due-IsBatch notes (λ n. 100 + n) (λ n. "event-1") (λ text. text) (λ text. text)
      (λ text. text) (λ payload. "hello") (λ initiative m. "{}") 8 service start finish batch refl
