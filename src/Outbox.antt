-- ===== src/Outbox.antt =====
-- src/ssa/storage/lifecycle_repository.py: OutboxRepository, over the table `outbox`. `known` is the
-- foreign keys.
mod Holds
pub mod Claims
pub mod Reopened
mod Examples
use zero_hdsc.Base.{
  ℕ, ◌+◌, String, Bool, true, false, ◌&&◌, ◌||◌, Option, none, some, List, [], ◌∷◌, map, ltb, leb,
  ◌==◌, if◌then◌else◌, str_eq, take, Result, ok, err, ◌>>=◌, unknown_row, value_error, find, select,
  update_where, rowcount, order_by, insert_row, returning, refers, fetch_one,
}
use zero_hdsc.Domain.Outbox.{OutboxMessage, OutboxStatus, pending, dead_letter, outbox_status_value}
use zero_hdsc.Rows.Json.{Json}
use zero_hdsc.Rows.Outbox.{MessageRow, message_row, row_to_message}

abbrev pub Outbox : Type 0
Outbox = List MessageRow

abbrev pub has_id : String → MessageRow → Bool
has_id id row = str_eq row.id id

abbrev pub has_dedup : String → MessageRow → Bool
has_dedup key row = elim row.dedup_key [ none ↦ false | some k ↦ str_eq k key ]

-- next_attempt_at_ms IS NULL OR next_attempt_at_ms <= now
abbrev pub attempt_due : Option ℕ → ℕ → Bool
attempt_due none now = true
attempt_due (some at) now = leb at now

-- The WHERE of both statements of `claim_due`.
abbrev pub claimable : ℕ → MessageRow → Bool
claimable now row =
    (str_eq row.status "pending" && attempt_due row.next_attempt_at_ms now)
    || (str_eq row.status "delivering" && attempt_due row.next_attempt_at_ms now)

abbrev pub claimed_row : ℕ → MessageRow → MessageRow
claimed_row until row = record row {
  status = "delivering";
  attempt_count = row.attempt_count + 1;
  next_attempt_at_ms = some until;
}

-- The rows that the first statement of `claim_due` selects.
unfoldable pub due_ids : ℕ → ℕ → Outbox → List String
due_ids now limit rows =
    map (λ r. r.id)
      (take limit
        (order_by (λ a b. ltb a.created_at_ms b.created_at_ms) (select (claimable now) rows)))

abbrev pub delivered_row : ℕ → Option String → MessageRow → MessageRow
delivered_row now event row = record row {
  status = "delivered";
  delivered_at_ms = some now;
  delivered_event_id = event;
  last_error = none;
}

abbrev pub failed_row : OutboxStatus → String → ℕ → MessageRow → MessageRow
failed_row status error retry row = record row {
  status = outbox_status_value status;
  last_error = some error;
  next_attempt_at_ms = some retry;
}

-- The row an UPDATE has just acted on; `what` is raised where there is none.
abbrev pub reread {ℓ} : {A : Type ℓ} → Result (Option A) → Result A → Result A
reread (err e) what = err e
reread (ok none) what = what
reread (ok (some a)) what = ok a

module _ {ℓ} {V : Type ℓ} (json : Json V) where
  unfoldable pub get : Outbox → String → Result (Option (OutboxMessage V))
  get rows id = fetch_one (row_to_message json) (find (has_id id) rows)

  unfoldable pub find_by_dedup : Outbox → String → Result (Option (OutboxMessage V))
  find_by_dedup rows key = fetch_one (row_to_message json) (find (has_dedup key) rows)

  abbrev pub existing : Outbox → Option String → Result (Option (OutboxMessage V))
  existing rows none = ok none
  existing rows (some key) = find_by_dedup rows key

  -- INSERT. The unique index on dedup_key cannot fail after the lookup.
  unfoldable pub insert :
      (String → String → Bool) → OutboxMessage V → Outbox → Result (OutboxMessage V) × Outbox
  insert known message rows = returning message (
      insert_row (has_id message.id)
        (refers known "initiatives" message.initiative_id
          && refers known "events" message.delivered_event_id)
        (message_row json message) rows)

  abbrev pub enqueue_with :
      Result (Option (OutboxMessage V))
      → Result (OutboxMessage V) × Outbox
      → Outbox
      → Result (OutboxMessage V) × Outbox
  enqueue_with (err e) inserted rows = (err e, rows)
  enqueue_with (ok none) inserted rows = inserted
  enqueue_with (ok (some message)) inserted rows = (ok message, rows)

  unfoldable pub enqueue :
      (String → String → Bool) → OutboxMessage V → Outbox → Result (OutboxMessage V) × Outbox
  enqueue known message rows =
      enqueue_with (existing rows message.dedup_key) (insert known message rows) rows

  -- After the UPDATE of one row: the message is read and goes into the list, which goes on with the
  -- other rows.
  abbrev pub claimed :
      Result (Option (OutboxMessage V))
      → Outbox
      → Result (List (OutboxMessage V)) × Outbox
      → Result (List (OutboxMessage V)) × Outbox
  claimed (err e) here (messages, rows) = (err e, here)
  claimed (ok none) here (messages, rows) = (messages, rows)
  claimed (ok (some message)) here (messages, rows) = (messages >>= λ ms. ok (message ∷ ms), rows)

  unfoldable pub claim_all : ℕ → ℕ → List String → Outbox → Result (List (OutboxMessage V)) × Outbox
  claim_all now until [] rows = (ok [], rows)
  claim_all now until (id ∷ ids) rows =
      let mine = λ (r : MessageRow). str_eq r.id id && claimable now r in
      let rows' = update_where mine (claimed_row until) rows in
      let rest = claim_all now until ids rows' in
      if rowcount mine rows == 1 then claimed (get rows' id) rows' rest else rest

  unfoldable pub claim_due : ℕ → ℕ → ℕ → Outbox → Result (List (OutboxMessage V)) × Outbox
  claim_due now lease limit rows =
      if ltb lease 1
      then (err (value_error "lease_ms must be positive"), rows)
      else claim_all now (now + lease) (due_ids now limit rows) rows

  -- The event is one that the ledger has, so that the foreign key cannot fail.
  unfoldable pub mark_delivered :
      String → ℕ → Option String → Outbox → Result (OutboxMessage V) × Outbox
  mark_delivered id now event rows =
      let rows' = update_where (has_id id) (delivered_row now event) rows in
      (reread (get rows' id) (err (unknown_row "outbox message" id)), rows')

  abbrev pub fail_status : ℕ → OutboxMessage V → OutboxStatus
  fail_status most message = if leb most message.attempt_count then dead_letter else pending

  abbrev pub fail_with :
      Result (Option (OutboxMessage V))
      → String
      → String
      → ℕ
      → ℕ
      → Outbox
      → Result (OutboxMessage V) × Outbox
  unfolding get
  fail_with (err e) id error retry most rows = (err e, rows)
  fail_with (ok none) id error retry most rows = (err (unknown_row "outbox message" id), rows)
  fail_with (ok (some message)) id error retry most rows =
      let rows' =
        update_where (has_id id) (failed_row (fail_status most message) error retry) rows in
      (reread (get rows' id) (err (value_error "")), rows')

  unfoldable pub fail : String → String → ℕ → ℕ → Outbox → Result (OutboxMessage V) × Outbox
  fail id error retry most rows = fail_with (get rows id) id error retry most rows
