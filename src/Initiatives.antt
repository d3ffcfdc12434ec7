-- ===== src/Initiatives.antt =====
-- src/ssa/storage/lifecycle_repository.py: InitiativeRepository, over the table `initiatives`.
-- `less` is `<` on floating-point numbers, and `known` the foreign keys.
pub mod Expiry
mod Examples
use zero_hdsc.Base.{
  first, descending, ℕ, String, Bool, false, not, ◌&&◌, ◌||◌, Option, none, some, List, ltb, leb,
  str_eq, Result, ok, err, unknown_row, find, select, update_where, rowcount, order_by, insert_row,
  returning, refers, fetch_one, fetch_all,
}
use zero_hdsc.Domain.Initiatives.{Initiative, InitiativeStatus, initiative_status_value}
use zero_hdsc.Rows.Json.{Json}
use zero_hdsc.Rows.Initiatives.{InitiativeRow, initiative_row, row_to_initiative}

-- status IN ('candidate', 'approved', 'queued')
abbrev pub is_active : String → Bool
is_active status = str_eq status "candidate" || (str_eq status "approved" || str_eq status "queued")

-- expires_at_ms IS NOT NULL AND expires_at_ms <= now
abbrev pub is_expired : Option ℕ → ℕ → Bool
is_expired none now = false
is_expired (some at) now = leb at now

abbrev pub opt_or {ℓ} : {A : Type ℓ} → Option A → Option A → Option A
opt_or none b = b
opt_or (some a) b = some a

module _ {ℓ} {F : Type ℓ} where
  -- The WHERE of `list_ready`.
  abbrev pub is_ready : String → ℕ → InitiativeRow F → Bool
  is_ready conversation now r =
      (str_eq r.conversation_id conversation
        && (str_eq r.status "approved" || str_eq r.status "queued"))
      && (leb r.earliest_send_at_ms now && not (is_expired r.expires_at_ms now))

  -- The WHERE of `expire_due`.
  abbrev pub is_expiring : String → ℕ → InitiativeRow F → Bool
  is_expiring conversation now r =
      (str_eq r.conversation_id conversation && is_active r.status)
      && is_expired r.expires_at_ms now

  abbrev pub is_sent : String → InitiativeRow F → Bool
  is_sent conversation r = str_eq r.conversation_id conversation && str_eq r.status "sent"

  unfoldable pub count_sent_since : List (InitiativeRow F) → String → ℕ → ℕ
  count_sent_since rows conversation since =
      rowcount (λ r. is_sent conversation r && leb since r.updated_at_ms) rows

  -- The number of rows, and the table.
  unfoldable pub expire_due : String → ℕ → List (InitiativeRow F) → ℕ × List (InitiativeRow F)
  expire_due conversation now rows = (
    rowcount (is_expiring conversation now) rows,
    update_where (is_expiring conversation now)
        (λ r. record r { status = "expired"; updated_at_ms = now }) rows,
  )

module _ {ℓ} {F V : Type ℓ} (json : Json V) where
  unfoldable pub get : List (InitiativeRow F) → String → Result (Option (Initiative F V))
  get rows id = fetch_one (row_to_initiative json) (find (λ r. str_eq r.id id) rows)

  unfoldable pub find_by_dedup : List (InitiativeRow F) → String → Result (Option (Initiative F V))
  find_by_dedup rows key =
      fetch_one (row_to_initiative json)
        (find (λ r. elim r.dedup_key [ none ↦ false | some k ↦ str_eq k key ]) rows)

  abbrev pub existing : List (InitiativeRow F) → Option String → Result (Option (Initiative F V))
  existing rows none = ok none
  existing rows (some key) = find_by_dedup rows key

  abbrev pub insert_with :
      Result (Option (Initiative F V))
      → Result (Initiative F V) × List (InitiativeRow F)
      → List (InitiativeRow F)
      → Result (Initiative F V) × List (InitiativeRow F)
  insert_with (err e) inserted rows = (err e, rows)
  insert_with (ok none) inserted rows = inserted
  insert_with (ok (some initiative)) inserted rows = (ok initiative, rows)

  -- The unique index on dedup_key cannot fail after the lookup.
  unfoldable pub insert :
      (String → String → Bool)
      → Initiative F V
      → List (InitiativeRow F)
      → Result (Initiative F V) × List (InitiativeRow F)
  insert known initiative rows =
      insert_with (existing rows initiative.dedup_key)
        (returning initiative (
          insert_row (λ r. str_eq r.id initiative.id)
            (refers known "goals" initiative.goal_id
              && refers known "events" initiative.sent_event_id)
            (initiative_row json initiative) rows))
        rows

  unfoldable pub list_ready :
      (F → F → Bool) → List (InitiativeRow F) → String → ℕ → Result (List (Initiative F V))
  list_ready less rows conversation now = fetch_all (row_to_initiative json) (
      order_by
        (λ a b.
          descending less a.urgency b.urgency (ltb a.earliest_send_at_ms b.earliest_send_at_ms))
        (select (is_ready conversation now) rows))

  unfoldable pub list_active : List (InitiativeRow F) → String → Result (List (Initiative F V))
  list_active rows conversation = fetch_all (row_to_initiative json) (
      order_by (λ a b. ltb a.created_at_ms b.created_at_ms)
        (select (λ r. str_eq r.conversation_id conversation && is_active r.status) rows))

  unfoldable pub latest_sent : List (InitiativeRow F) → String → Result (Option (Initiative F V))
  latest_sent rows conversation = fetch_one (row_to_initiative json) (
      first (
        order_by (λ a b. ltb b.updated_at_ms a.updated_at_ms) (select (is_sent conversation) rows)))

  abbrev pub known_initiative : String → Result (Option (Initiative F V)) → Result (Initiative F V)
  known_initiative id (err e) = err e
  known_initiative id (ok none) = err (unknown_row "initiative" id)
  known_initiative id (ok (some initiative)) = ok initiative

  -- The event is one that the ledger has, so that the foreign key of sent_event_id cannot fail.
  unfoldable pub update_status :
      String
      → InitiativeStatus
      → ℕ
      → Option String
      → List (InitiativeRow F)
      → Result (Initiative F V) × List (InitiativeRow F)
  update_status id status now event rows =
      let rows' =
        update_where (λ r. str_eq r.id id)
          (λ r. record r {
            status = initiative_status_value status;
            updated_at_ms = now;
            sent_event_id = opt_or event r.sent_event_id;
          })
          rows in
      (known_initiative id (get rows' id), rows')
