-- ===== src/Rows/Events/ReadBack.antt =====
-- src/ssa/storage/event_repository.py: what is read back from a row of events.
use zero_hdsc.Base.{refl, ◌≡◌, ok}
use zero_hdsc.Domain.Events.{Event, actor_of-actor_value, source_kind_of-source_kind_value}
use zero_hdsc.Rows.Json.{Json, Reads, or_default-dumps}
use zero_hdsc.Rows.Events.{event_row, row_to_event}

-- An event whose JSON columns are not empty and are read back by json.loads is read back from its row as it was.
pub row_to_event-event_row {ℓ} :
    {V : Type ℓ} (json : Json V) (event : Event V)
    → Reads json event.metadata
    → row_to_event json (event_row json event) ≡ ok event
unfolding row_to_event event_row
row_to_event-event_row json event h1 =
    rw
      (
        actor_of-actor_value event.actor,
        source_kind_of-source_kind_value event.source_kind,
        or_default-dumps json event.metadata "{}" h1.0,
        h1.1,
      )
      refl
