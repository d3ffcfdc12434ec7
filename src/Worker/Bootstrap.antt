-- ===== src/Worker/Bootstrap.antt =====
-- src/ssa/runtime/lifecycle.py: `bootstrap` of PersistentLifecycleWorker.
use Prim.Native.String.{◌++◌ as str_append}
use zero_hdsc.Base.{
  String, ℕ, ◌+◌, Option, none, some, List, [], ◌∷◌, map, if◌then◌else◌, str_less, Result, ok, err,
  order_by,
}
use zero_hdsc.Domain.Jobs.{ScheduledJob, pending, is_dead_letter}
use zero_hdsc.Jobs.{Jobs, enqueue, revive_missing_handler_dead_letter}
use zero_hdsc.Worker.{State, Worker}

abbrev pub dedup_of : String → String → String
dedup_of conversation job_type =
    str_append "lifecycle:" (str_append conversation (str_append ":" job_type))

module _ {ℓ} {V : Type ℓ} where
  abbrev or_else : Option (ScheduledJob V) → ScheduledJob V → ScheduledJob V
  or_else none stored = stored
  or_else (some row) stored = row

  -- `revive(...) or stored`, if the stored row is dead
  unfoldable pub revived : ScheduledJob V → ℕ → ℕ → Jobs V → ScheduledJob V × Jobs V
  revived stored first_due now jobs =
      if is_dead_letter stored.status
      then (
        or_else (revive_missing_handler_dead_letter stored.id first_due now jobs).0 stored,
        (revive_missing_handler_dead_letter stored.id first_due now jobs).1,
      )
      else (stored, jobs)

  abbrev pub prepend :
      ScheduledJob V → Result (List (ScheduledJob V)) → Result (List (ScheduledJob V))
  prepend row (err e) = err e
  prepend row (ok rows) = ok (row ∷ rows)

-- sorted(self._intervals_ms)
unfoldable pub interval_types {ℓ} : {V W : Type ℓ} → Worker V W → List String
interval_types w = order_by (λ a b. str_less a b) (map (λ p. p.0) w.intervals_ms)

module _ {ℓ} {V W : Type ℓ} (fresh : ℕ → String) (recurring : V) where
  unfoldable pub recurring_job : Worker V W → String → String → ℕ → ℕ → ScheduledJob V
  recurring_job w id job_type first_due now = record {
    id = id;
    conversation_id = w.conversation_id;
    job_type = job_type;
    dedup_key = some (dedup_of w.conversation_id job_type);
    payload = ("recurring", recurring) ∷ [];
    due_at_ms = first_due;
    attempt_count = 0;
    max_attempts = 5;
    status = pending;
    last_error = none;
    leased_until_ms = none;
    completed_at_ms = none;
    created_at_ms = now;
    updated_at_ms = now;
  }

  -- One round of the loop of `bootstrap`.
  unfoldable pub schedule_one :
      Worker V W → ℕ → ℕ → String → State V W → Result (ScheduledJob V) × State V W
  schedule_one w first_due now job_type s =
      let (stored, jobs) = enqueue (recurring_job w (fresh s.ids) job_type first_due now) s.jobs in
      elim stored [
        | err e ↦ (err e, record s { jobs = jobs; ids = s.ids + 1 })
        | ok row ↦
            let (row', jobs') = revived row first_due now jobs in
            (ok row', record s { jobs = jobs'; ids = s.ids + 1 })
      ]

  unfoldable pub schedule_all :
      Worker V W → ℕ → ℕ → List String → State V W → Result (List (ScheduledJob V)) × State V W
  schedule_all w first_due now [] s = (ok [], s)
  schedule_all w first_due now (job_type ∷ types) s =
      let (row, s') = schedule_one w first_due now job_type s in
      elim row [
        | err e ↦ (err e, s')
        | ok r ↦ let (rows, s'') = schedule_all w first_due now types s' in (prepend r rows, s'')
      ]

  module _ (times : ℕ → ℕ) where
    unfoldable pub bootstrap :
        Option ℕ → Worker V W → State V W → Result (List (ScheduledJob V)) × State V W
    bootstrap due_at w s =
        let now = times s.reads in
        let first_due : ℕ = elim due_at [ none ↦ now | some due ↦ due ] in
        schedule_all w first_due now (interval_types w) (record s { reads = s.reads + 1 })
