-- ===== src/Events/Examples.antt =====
-- A run of `append`, twice for one message.
use zero_hdsc.Base.{String, ◌≡◌, refl, some, none, [], ok, err, duplicate_event, find}
use zero_hdsc.Domain.Events.{Event}
use zero_hdsc.Rows.Examples.{notes, some_event}
use zero_hdsc.Events.{append, find_by_channel_message}
use zero_hdsc.Events.Ledger.{append_once}

abbrev first_event : Event String
first_event = record some_event {
  channel = some "outbox:local";
  channel_message_id = some "message-1";
  parent_event_id = none;
}

abbrev again : Event String
again = record first_event { id = "other"; content = "again" }

append_once_example :
    ((append notes first_event []).0 ≡ ok first_event)
    × ((find_by_channel_message notes (append notes first_event []).1 "outbox:local" "message-1"
          ≡ ok (some first_event))
        × (append notes again (append notes first_event []).1
            ≡ (err duplicate_event, (append notes first_event []).1)))
unfolding find
append_once_example =
    append_once notes first_event again [] "outbox:local" "message-1" (refl, refl) refl refl refl
      refl refl refl refl refl refl
