-- ===== src/Events/Ledger.antt =====
-- src/ssa/storage/event_repository.py: one event for a message of a channel.
use zero_hdsc.Base.{
  String, ◌≡◌, refl, false, none, some, [], ◌∷◌, ◌++◌, str_eq, eq_refl, ok, err, duplicate_event,
  find, find-append_new, find-append_other,
}
use zero_hdsc.Domain.Events.{Event}
use zero_hdsc.Rows.Json.{Json, Reads}
use zero_hdsc.Rows.Events.{EventRow, event_row}
use zero_hdsc.Rows.Events.ReadBack.{row_to_event-event_row}
use zero_hdsc.Events.{Ledger, append, same_message, has_id, find_by_channel_message}

append-new {ℓ} :
    {V : Type ℓ} (json : Json V) (event : Event V) (rows : Ledger)
    → event.parent_event_id ≡ none
    → find (has_id event.id) rows ≡ none
    → find (same_message event.channel event.channel_message_id) rows ≡ none
    → append json event rows ≡ (ok event, rows ++ event_row json event ∷ [])
unfolding append
append-new json event rows p fresh new = rw (p, fresh, new) refl

append-duplicate {ℓ} :
    {V : Type ℓ} (json : Json V) (event : Event V) (rows : Ledger) (row : EventRow)
    → find (has_id event.id) rows ≡ none
    → find (same_message event.channel event.channel_message_id) rows ≡ some row
    → append json event rows ≡ (err duplicate_event, rows)
unfolding append
append-duplicate json event rows row fresh old = rw (fresh, old) refl

-- An event with a fresh id, a channel, a message id that no event of the channel has, no parent, and
-- metadata that json.loads reads back, is appended; a lookup of the message returns it; and a second
-- event with a fresh id for the same message raises DuplicateEventError and leaves the ledger.
pub append_once {ℓ} :
    {V : Type ℓ} (json : Json V) (event second : Event V) (rows : Ledger) (channel id : String)
    → Reads json event.metadata
    → event.channel ≡ some channel
    → event.channel_message_id ≡ some id
    → event.parent_event_id ≡ none
    → find (has_id event.id) rows ≡ none
    → find (same_message (some channel) (some id)) rows ≡ none
    → second.channel ≡ some channel
    → second.channel_message_id ≡ some id
    → find (has_id second.id) rows ≡ none
    → str_eq event.id second.id ≡ false
    → ((append json event rows).0 ≡ ok event)
      × ((find_by_channel_message json (append json event rows).1 channel id ≡ ok (some event))
          × (append json second (append json event rows).1
              ≡ (err duplicate_event, (append json event rows).1)))
unfolding find_by_channel_message event_row
append_once json event second rows channel id reads c i p fresh new c2 i2 fresh2 other =
    let row = event_row json event in
    let found : find (same_message (some channel) (some id)) (rows ++ row ∷ []) ≡ some row =
      find-append_new (same_message (some channel) (some id)) rows row new
        (rw (c, i, eq_refl channel, eq_refl id) refl) in
    let fresh2' : find (has_id second.id) (rows ++ row ∷ []) ≡ none =
      find-append_other (has_id second.id) rows row fresh2 other in
    let appended = append-new json event rows p fresh (rw (c, i) new) in
    rw appended (
      refl,
      (
        rw found (rw (row_to_event-event_row json event reads) refl),
        append-duplicate json second (rows ++ row ∷ []) row fresh2' (rw (c2, i2) found),
      ),
    )
