-- ===== src/InnerLoop.antt =====
-- src/ssa/storage/lifecycle_repository.py: InnerLoopRepository, over the table `inner_loop_states`
-- with one row for a conversation. `known` tells the events of the ledger, which the columns
-- last_user_event_id and last_agent_event_id refer to.
pub mod Lookup
mod Examples
use zero_hdsc.Base.{
  String, Bool, Option, none, some, List, [], ◌∷◌, ◌++◌, str_eq, Result, find, update_where,
  fetch_one, refers, ok, err, integrity_error, ◌&&◌, if◌then◌else◌,
}
use zero_hdsc.Domain.InnerLoop.{InnerLoopState}
use zero_hdsc.Rows.InnerLoop.{StateRow, state_row, row_to_state}

module _ {ℓ} {F : Type ℓ} where
  abbrev pub is_of : String → StateRow F → Bool
  is_of conversation r = str_eq r.conversation_id conversation

  unfoldable pub get : List (StateRow F) → String → Result (Option (InnerLoopState F))
  get rows conversation = fetch_one row_to_state (find (is_of conversation) rows)

  -- DO UPDATE SET every column but the key.
  abbrev pub replaced_row : InnerLoopState F → StateRow F → StateRow F
  replaced_row state r = record (state_row state) { conversation_id = r.conversation_id }

  abbrev pub upserted :
      Option (StateRow F) → InnerLoopState F → List (StateRow F) → List (StateRow F)
  upserted none state rows = rows ++ state_row state ∷ []
  upserted (some r) state rows =
      update_where (is_of state.conversation_id) (replaced_row state) rows

  -- REFERENCES events(id), of both columns
  abbrev pub events_exist : (String → Bool) → InnerLoopState F → Bool
  events_exist known state =
      refers (λ _ id. known id) "events" state.last_user_event_id
      && refers (λ _ id. known id) "events" state.last_agent_event_id

  unfoldable pub upsert :
      (String → Bool)
      → InnerLoopState F
      → List (StateRow F)
      → Result (InnerLoopState F) × List (StateRow F)
  upsert known state rows =
      if events_exist known state
      then (ok state, upserted (find (is_of state.conversation_id) rows) state rows)
      else (err (integrity_error "FOREIGN KEY constraint failed"), rows)
