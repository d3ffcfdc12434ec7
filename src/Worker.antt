-- ===== src/Worker.antt =====
-- src/ssa/runtime/lifecycle.py: PersistentLifecycleWorker, over the job table of Jobs.antt.
-- The clock, the ids and Python's `repr` and truth of a payload value are parameters: the n-th
-- reading of the clock is `times n`, and the n-th new id is `fresh n`.
pub mod Bootstrap
pub mod Run
pub mod Backoff
pub mod Counts
pub mod Settled
pub mod Recurring
pub mod Revived
mod Examples
use zero_hdsc.Base.{
  String, ℕ, ◌+◌, ◌-◌, ◌*◌, ◌^◌, min, Bool, true, false, ◌&&◌, Option, none, some, List, [], ◌∷◌,
  ◌++◌, map, leb, ltb, length, if◌then◌else◌, Error, not_registered, value_error, error_text,
  Result, ok, err, order_by, dict_get, dict_set,
}
use zero_hdsc.Domain.Jobs.{ScheduledJob, JobStatus, pending, is_dead_letter, Payload}
use zero_hdsc.Jobs.{
  Jobs, enqueue, revive_missing_handler_dead_letter, lease_due, reschedule, complete, fail,
}

-- min(60 * 60 * 1_000, 30_000 * (2 ** max(0, attempts - 1)))
unfoldable pub retry_delay : ℕ → ℕ
retry_delay attempts = min (60 * 60 * 1000) (30000 * 2 ^ (attempts - 1))

-- What the worker and its handlers act on: the job table, the rest of the program's state, and how
-- often the clock was read and a new id was asked for.
pub record State {ℓ} (V W : Type ℓ) : Type ℓ where
  pub jobs : Jobs V
  pub rest : W
  pub reads : ℕ
  pub ids : ℕ

-- A handler changes the state, and returns or raises.
abbrev pub Handler {ℓ} : Type ℓ → Type ℓ → Type ℓ
Handler V W = ScheduledJob V → State V W → Option Error × State V W

pub record Worker {ℓ} (V W : Type ℓ) : Type ℓ where
  pub conversation_id : String
  pub lease_ms : ℕ
  pub handlers : List (String × Handler V W)
  pub intervals_ms : List (String × ℕ)

pub record TickResult : Type 0 where
  pub leased : ℕ
  pub completed : ℕ
  pub rescheduled : ℕ
  pub failed : ℕ
  pub dead_lettered : ℕ
  pub job_ids : List String

module _ {ℓ} {V W : Type ℓ} (is_blank : String → Bool) where
  abbrev with_handler : String → Handler V W → List (String × ℕ) → Worker V W → Worker V W
  with_handler job_type handler intervals w = record w {
    handlers = dict_set job_type handler w.handlers;
    intervals_ms = intervals;
  }

  -- `is_blank text` is `not text.strip()`.
  unfoldable pub register :
      String → Handler V W → Option ℕ → Worker V W → Result (Unit {0}) × Worker V W
  register job_type handler interval w =
      if is_blank job_type
      then (err (value_error "job_type must not be empty"), w)
      else elim interval [
        | none ↦ (ok tt, with_handler job_type handler w.intervals_ms w)
        | some ms ↦
            if ltb ms 1
            then (err (value_error "interval_ms must be positive"), w)
            else (ok tt, with_handler job_type handler (dict_set job_type ms w.intervals_ms) w)
      ]
