-- ===== src/Events.antt =====
-- src/ssa/domain/events.py: signals and their normalization, and
-- src/ssa/storage/event_repository.py: SqliteEventRepository, over the table `events`. SHA-256 and
-- `str.strip` are parameters.
pub mod Ledger
mod Examples
use Prim.Native.Char.{code}
use zero_hdsc.Base.{
  ℕ, String, Bool, true, false, ◌&&◌, ◌||◌, Option, none, some, List, [], ◌∷◌, ◌++◌, ltb, leb, ◌==◌,
  if◌then◌else◌, str_eq, take, length, Result, ok, err, value_error, integrity_error,
  duplicate_event, find, select, order_by, refers, fetch_one, fetch_all, first,
}
use zero_hdsc.Domain.Events.{Event, Actor, SourceKind, actor_value}
use zero_hdsc.Rows.Json.{Json}
use zero_hdsc.Rows.Events.{EventRow, event_row, row_to_event}

pub record IncomingSignal {ℓ} (V : Type ℓ) : Type ℓ where
  pub actor : Actor
  pub signal_type : String
  pub content : String
  pub channel : String
  pub channel_message_id : Option String
  pub conversation_id : String
  pub parent_event_id : Option String
  pub metadata : V

-- text.replace("\x00", "")
unfoldable pub without_nul : String → String
without_nul String.[] = String.[]
without_nul (String.◌∷◌ c cs) =
    let rest = without_nul cs in if code c == 0 then rest else String.◌∷◌ c rest

-- The validators of IncomingSignal.
unfoldable pub make_signal {ℓ} :
    {V : Type ℓ} → (String → String) → IncomingSignal V → Result (IncomingSignal V)
make_signal strip signal =
    if str_eq signal.content "" || str_eq (strip signal.content) ""
    then err (value_error "signal content must not be empty")
    else if str_eq signal.signal_type ""
    then err (value_error "signal_type must not be empty")
    else ok signal

-- The validator of Event.
abbrev pub make_event {ℓ} : {V : Type ℓ} → Event V → Result (Event V)
make_event event =
    if str_eq event.content ""
    then err (value_error "event content must not be empty")
    else ok event

unfoldable pub normalize_signal {ℓ} :
    {V : Type ℓ}
    → (String → String)
    → IncomingSignal V
    → String
    → String
    → ℕ
    → SourceKind
    → Result (Event V)
normalize_signal hash signal event_id correlation_id now source_kind =
    let cleaned = without_nul signal.content in
    make_event record {
      id = event_id;
      correlation_id = correlation_id;
      conversation_id = signal.conversation_id;
      actor = signal.actor;
      event_type = signal.signal_type;
      source_kind = source_kind;
      content = cleaned;
      parent_event_id = signal.parent_event_id;
      channel = some signal.channel;
      channel_message_id = signal.channel_message_id;
      content_hash = hash cleaned;
      metadata = signal.metadata;
      created_at_ms = now;
    }

abbrev pub Ledger : Type 0
Ledger = List EventRow

-- a = b of SQL, which is not so where a side is NULL
abbrev pub sql_eq : Option String → Option String → Bool
sql_eq none b = false
sql_eq (some a) none = false
sql_eq (some a) (some b) = str_eq a b

abbrev pub same_message : Option String → Option String → EventRow → Bool
same_message channel id r = sql_eq r.channel channel && sql_eq r.channel_message_id id

abbrev pub append_row {ℓ} :
    {A : Type ℓ}
    → A
    → Bool
    → Option EventRow
    → Option EventRow
    → EventRow
    → Ledger
    → Result A × Ledger
append_row event parent (some r) other row rows =
    (err (integrity_error "UNIQUE constraint failed: events.id"), rows)
append_row event parent none (some r) row rows = (err duplicate_event, rows)
append_row event true none none row rows = (ok event, rows ++ row ∷ [])
append_row event false none none row rows =
    (err (integrity_error "FOREIGN KEY constraint failed"), rows)

abbrev is_some {ℓ} : {A : Type ℓ} → Option A → Bool
is_some none = false
is_some (some a) = true

abbrev pub has_id : String → EventRow → Bool
has_id id r = str_eq r.id id

-- list(reversed(rows))
unfoldable pub reversed {ℓ} : {A : Type ℓ} → List A → List A
reversed [] = []
reversed (a ∷ rest) = reversed rest ++ a ∷ []

module _ {ℓ} {V : Type ℓ} (json : Json V) where
  -- The parent that the event names is an event of the table, or the event itself.
  unfoldable pub append : Event V → Ledger → Result (Event V) × Ledger
  append event rows =
      append_row event
        (refers (λ table id. str_eq id event.id || is_some (find (has_id id) rows)) "events"
          event.parent_event_id)
        (find (has_id event.id) rows)
        (find (same_message event.channel event.channel_message_id) rows) (event_row json event)
        rows

  unfoldable pub get : Ledger → String → Result (Option (Event V))
  get rows id = fetch_one (row_to_event json) (find (has_id id) rows)

  unfoldable pub find_by_channel_message : Ledger → String → String → Result (Option (Event V))
  find_by_channel_message rows channel id =
      fetch_one (row_to_event json) (find (same_message (some channel) (some id)) rows)

  unfoldable pub find_by_correlation : Ledger → String → Result (List (Event V))
  find_by_correlation rows correlation = fetch_all (row_to_event json) (
      order_by (λ a b. ltb a.created_at_ms b.created_at_ms)
        (select (λ r. str_eq r.correlation_id correlation) rows))

  unfoldable pub recent : Ledger → ℕ → Result (List (Event V))
  recent rows limit =
      fetch_all (row_to_event json)
        (take limit (order_by (λ a b. ltb b.created_at_ms a.created_at_ms) rows))

  -- ORDER BY created_at_ms DESC, rowid DESC: a later row stands before its equals.
  abbrev pub newest_first : (EventRow → Bool) → Ledger → Ledger
  newest_first p rows = order_by (λ a b. leb b.created_at_ms a.created_at_ms) (select p rows)

  unfoldable pub recent_by_conversation :
      (String → String) → Ledger → String → ℕ → Result (List (Event V))
  recent_by_conversation strip rows conversation limit =
      if str_eq (strip conversation) ""
      then err (value_error "conversation_id must not be empty")
      else if ltb limit 1
      then err (value_error "limit must be positive")
      else fetch_all (row_to_event json)
          (reversed (take limit (newest_first (λ r. str_eq r.conversation_id conversation) rows)))

  unfoldable pub latest_by_actor : Ledger → String → Actor → Result (Option (Event V))
  latest_by_actor rows conversation actor = fetch_one (row_to_event json) (
      first (
        newest_first
          (λ r. str_eq r.conversation_id conversation && str_eq r.actor (actor_value actor)) rows))

unfoldable pub count : Ledger → ℕ
count rows = length rows
