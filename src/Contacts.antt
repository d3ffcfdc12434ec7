-- ===== src/Contacts.antt =====
-- src/ssa/storage/lifecycle_repository.py: ContactEpisodeRepository, over the table
-- `contact_episodes`. `known` is the foreign keys.
use zero_hdsc.Base.{
  ℕ, String, Bool, ◌&&◌, Option, none, some, List, ltb, str_eq, Result, unknown_row, find, select,
  update_where, rowcount, order_by, insert_row, returning, refers, fetch_one, fetch_all, hit_one,
  first, is_due,
}
use zero_hdsc.Domain.Contacts.{ContactEpisode}
use zero_hdsc.Rows.Json.{Json}
use zero_hdsc.Rows.Contacts.{ContactEpisodeRow, contact_row, row_to_contact}

abbrev pub Contacts : Type 0
Contacts = List ContactEpisodeRow

abbrev pub is_active : String → ContactEpisodeRow → Bool
is_active conversation r = str_eq r.conversation_id conversation && str_eq r.status "active"

abbrev pub opt_eq : Option String → String → Bool
opt_eq none b = Bool.false
opt_eq (some a) b = str_eq a b

abbrev pub opt_before : Option ℕ → Option ℕ → Bool
opt_before none none = Bool.false
opt_before none (some b) = Bool.true
opt_before (some a) none = Bool.false
opt_before (some a) (some b) = ltb a b

module _ {ℓ} {V : Type ℓ} (json : Json V) where
  unfoldable pub insert :
      (String → String → Bool) → ContactEpisode V → Contacts → Result (ContactEpisode V) × Contacts
  insert known episode rows = returning episode (
      insert_row (λ r. str_eq r.id episode.id)
        (refers known "initiatives" episode.source_initiative_id
          && refers known "events" episode.resolved_by_event_id)
        (contact_row json episode) rows)

  unfoldable pub get : Contacts → String → Result (Option (ContactEpisode V))
  get rows id = fetch_one (row_to_contact json) (find (λ r. str_eq r.id id) rows)

  unfoldable pub find_by_source_initiative : Contacts → String → Result (Option (ContactEpisode V))
  find_by_source_initiative rows initiative = fetch_one (row_to_contact json) (
      first (
        order_by (λ a b. ltb b.created_at_ms a.created_at_ms)
          (select (λ r. opt_eq r.source_initiative_id initiative) rows)))

  unfoldable pub active : Contacts → String → Result (List (ContactEpisode V))
  active rows conversation =
      fetch_all (row_to_contact json) (
        order_by (λ a b. ltb a.created_at_ms b.created_at_ms)
          (select (is_active conversation) rows))

  unfoldable pub due : Contacts → String → ℕ → Result (List (ContactEpisode V))
  due rows conversation now = fetch_all (row_to_contact json) (
      order_by (λ a b. opt_before a.next_action_at_ms b.next_action_at_ms)
        (select (λ r. is_active conversation r && is_due r.next_action_at_ms now) rows))

  -- The columns that `update` leaves.
  abbrev pub updated_row : ContactEpisode V → ContactEpisodeRow → ContactEpisodeRow
  updated_row episode r = record (contact_row json episode) {
    id = r.id;
    conversation_id = r.conversation_id;
    correlation_id = r.correlation_id;
    source_initiative_id = r.source_initiative_id;
    created_at_ms = r.created_at_ms;
  }

  -- An event that the episode names is one that the ledger has.
  unfoldable pub update : ContactEpisode V → Contacts → Result (ContactEpisode V) × Contacts
  update episode rows =
      let mine = λ (r : ContactEpisodeRow).
        str_eq r.id episode.id && str_eq r.conversation_id episode.conversation_id in
      hit_one (rowcount mine rows) episode (unknown_row "contact episode" episode.id)
        (update_where mine (updated_row episode) rows)
