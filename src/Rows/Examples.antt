-- ===== src/Rows/Examples.antt =====
-- Runs of the row mapping, with a JSON codec for texts and for lists of at most one text.
use zero_hdsc.Base.{ℕ, String, ◌≡◌, refl, none, some, List, [], ◌∷◌, ok, if◌then◌else◌, str_eq}
use zero_hdsc.Rows.Json.{Json}
use zero_hdsc.Domain.Initiatives.{Initiative, InitiativeStatus}
use zero_hdsc.Rows.Initiatives.{initiative_row, row_to_initiative}
use zero_hdsc.Rows.Initiatives.ReadBack.{row_to_initiative-initiative_row}
use zero_hdsc.Domain.Outbox.{OutboxMessage, OutboxStatus}
use zero_hdsc.Rows.Outbox.{message_row, row_to_message}
use zero_hdsc.Rows.Outbox.ReadBack.{row_to_message-message_row}
use zero_hdsc.Domain.Events.{Event, Actor, SourceKind}
use zero_hdsc.Rows.Events.{event_row, row_to_event}
use zero_hdsc.Rows.Events.ReadBack.{row_to_event-event_row}

abbrev pub dump_one : List String → String
dump_one [] = "[]"
dump_one (text ∷ rest) = text

abbrev pub notes : Json String
notes = record {
  dumps = λ text. text;
  loads = λ text. ok text;
  dump_texts = dump_one;
  load_texts = λ text. if str_eq text "[]" then ok [] else ok (text ∷ []);
}

abbrev pub some_initiative : Initiative ℕ String
some_initiative = record {
  id = "id";
  conversation_id = "conversation_id";
  motive = "motive";
  intent = "intent";
  content_draft = "content_draft";
  urgency = 5;
  decision_score = 6;
  status = InitiativeStatus.cancelled;
  earliest_send_at_ms = 9;
  expires_at_ms = some 14;
  correlation_id = none;
  goal_id = some "goal_id";
  source_event_ids = [];
  source_trace_ids = "text" ∷ [];
  decision = "{}";
  channel = "channel";
  dedup_key = none;
  sent_event_id = some "sent_event_id";
  created_at_ms = 19;
  updated_at_ms = 20;
}

row_to_initiative-initiative_row_example :
    row_to_initiative notes (initiative_row notes some_initiative) ≡ ok some_initiative
row_to_initiative-initiative_row_example =
    row_to_initiative-initiative_row notes some_initiative (refl, refl) (refl, refl) (refl, refl)

abbrev pub some_message : OutboxMessage String
some_message = record {
  id = "id";
  correlation_id = "correlation_id";
  channel = "channel";
  recipient = "recipient";
  payload = "{}";
  status = OutboxStatus.dead_letter;
  attempt_count = 7;
  next_attempt_at_ms = some 12;
  delivered_at_ms = none;
  created_at_ms = 10;
  initiative_id = none;
  dedup_key = some "dedup_key";
  delivered_event_id = none;
  last_error = some "last_error";
}

row_to_message-message_row_example :
    row_to_message notes (message_row notes some_message) ≡ ok some_message
row_to_message-message_row_example = row_to_message-message_row notes some_message (refl, refl)

abbrev pub some_event : Event String
some_event = record {
  id = "id";
  correlation_id = "correlation_id";
  conversation_id = "conversation_id";
  actor = Actor.world;
  event_type = "event_type";
  source_kind = SourceKind.world_observed;
  content = "content";
  parent_event_id = some "parent_event_id";
  channel = none;
  channel_message_id = some "channel_message_id";
  content_hash = "content_hash";
  metadata = "{}";
  created_at_ms = 13;
}

row_to_event-event_row_example : row_to_event notes (event_row notes some_event) ≡ ok some_event
row_to_event-event_row_example = row_to_event-event_row notes some_event (refl, refl)
