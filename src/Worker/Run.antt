-- ===== src/Worker/Run.antt =====
-- src/ssa/runtime/lifecycle.py: `run_due` of PersistentLifecycleWorker.
use zero_hdsc.Base.{
  String, ℕ, ◌+◌, Bool, true, false, Option, none, some, List, [], ◌∷◌, ◌++◌, length, if◌then◌else◌,
  Error, not_registered, error_text, Result, ok, err, dict_get,
}
use zero_hdsc.Domain.Jobs.{ScheduledJob, is_dead_letter}
use zero_hdsc.Jobs.{lease_due, reschedule, complete, fail}
use zero_hdsc.Worker.{State, Handler, Worker, TickResult, retry_delay}

-- What became of a job that did not raise.
pub data Done : Type 0 where
  completed rescheduled : Done

abbrev pub count_done : Done → TickResult → TickResult
count_done completed c = record c { completed = c.completed + 1 }
count_done rescheduled c = record c { rescheduled = c.rescheduled + 1 }

abbrev pub no_counts : ℕ → TickResult
no_counts n = record {
  leased = n;
  completed = 0;
  rescheduled = 0;
  failed = 0;
  dead_lettered = 0;
  job_ids = [];
}

module _ {ℓ} {V : Type ℓ} where
  abbrev outcome : Done → Result (ScheduledJob V) → Result Done
  outcome d (ok job) = ok d
  outcome d (err e) = err e

  abbrev pub count_failed : ScheduledJob V → TickResult → TickResult
  count_failed row c = record c {
    failed = c.failed + 1;
    dead_lettered = if is_dead_letter row.status then c.dead_lettered + 1 else c.dead_lettered;
  }

  abbrev pub count_id : ScheduledJob V → TickResult → TickResult
  count_id job c = record c { job_ids = c.job_ids ++ job.id ∷ [] }

-- `truthy` is Python's `bool`.
module _ {ℓ} {V : Type ℓ} (truthy : V → Bool) where
  -- bool(job.payload.get("recurring", True))
  unfoldable pub is_recurring : ScheduledJob V → Bool
  is_recurring job = elim (dict_get "recurring" job.payload) [ none ↦ true | some v ↦ truthy v ]

module _ {ℓ} {V W : Type ℓ} (times : ℕ → ℕ) (repr : String → String) (truthy : V → Bool) where
  unfoldable pub rescheduling : ScheduledJob V → ℕ → State V W → Result Done × State V W
  rescheduling job due s =
      let (row, jobs) = reschedule job.id due (times s.reads) s.jobs in
      (outcome rescheduled row, record s { jobs = jobs; reads = s.reads + 1 })

  unfoldable pub completing : ScheduledJob V → State V W → Result Done × State V W
  completing job s =
      let (row, jobs) = complete job.id (times s.reads) s.jobs in
      (outcome completed row, record s { jobs = jobs; reads = s.reads + 1 })

  -- The `try` after the handler: a recurring job that has an interval is rescheduled, any other
  -- completed.
  unfoldable pub finish_with :
      Option ℕ → Bool → ℕ → ScheduledJob V → State V W → Result Done × State V W
  unfolding rescheduling completing
  finish_with none recurring now job s = completing job s
  finish_with (some ms) true now job s = rescheduling job (now + ms) s
  finish_with (some ms) false now job s = completing job s

  unfoldable pub finish : Worker V W → ℕ → ScheduledJob V → State V W → Result Done × State V W
  unfolding finish_with is_recurring
  finish w now job s =
      finish_with (dict_get job.job_type w.intervals_ms) (is_recurring truthy job) now job s

  unfoldable pub after_handler :
      Worker V W → ℕ → ScheduledJob V → Option Error × State V W → Result Done × State V W
  unfolding finish
  after_handler w now job (some e, s) = (err e, s)
  after_handler w now job (none, s) = finish w now job s

  unfoldable pub handled :
      Option (Handler V W) → Worker V W → ℕ → ScheduledJob V → State V W → Result Done × State V W
  unfolding after_handler
  handled none w now job s = (err (not_registered "lifecycle handler" job.job_type), s)
  handled (some handler) w now job s = after_handler w now job (handler job s)

  -- The body of the `try`.
  unfoldable pub attempt : Worker V W → ℕ → ScheduledJob V → State V W → Result Done × State V W
  unfolding handled
  attempt w now job s = handled (dict_get job.job_type w.handlers) w now job s

  -- `self._jobs.fail(...)` of the `except`: two readings of the clock
  unfoldable pub failing : ScheduledJob V → Error → State V W → Result (ScheduledJob V) × State V W
  unfolding retry_delay
  failing job e s =
      let first = times s.reads in
      let second = times (s.reads + 1) in
      let (row, jobs) =
        fail job.id (error_text repr e) first (second + retry_delay job.attempt_count) s.jobs in
      (row, record s { jobs = jobs; reads = s.reads + 2 })

  unfoldable pub count_failure :
      TickResult → Result (ScheduledJob V) × State V W → Result TickResult × State V W
  count_failure c (ok row, s) = (ok (count_failed row c), s)
  count_failure c (err e, s) = (err e, s)

  -- The `except` of the loop. What `fail` raises is not caught.
  unfoldable pub conclude :
      ScheduledJob V → TickResult → Result Done × State V W → Result TickResult × State V W
  unfolding failing count_failure
  conclude job c (ok done, s) = (ok (count_done done c), s)
  conclude job c (err e, s) = count_failure c (failing job e s)

  -- The body of the loop.
  unfoldable pub run_job :
      Worker V W → ℕ → ScheduledJob V → TickResult → State V W → Result TickResult × State V W
  unfolding attempt conclude
  run_job w now job c s = conclude job (count_id job c) (attempt w now job s)

  unfoldable pub run_jobs :
      Worker V W
      → ℕ
      → List (ScheduledJob V)
      → TickResult
      → State V W
      → Result TickResult × State V W
  run_jobs w now [] c s = (ok c, s)
  run_jobs w now (job ∷ rest) c s =
      let (counts, s') = run_job w now job c s in
      elim counts [ err e ↦ (err e, s') | ok c' ↦ run_jobs w now rest c' s' ]

  unfoldable pub run_due : ℕ → Worker V W → State V W → Result TickResult × State V W
  run_due limit w s =
      let now = times s.reads in
      let (leased, jobs) = lease_due now w.lease_ms limit s.jobs in
      run_jobs w now leased (no_counts (length leased))
        (record s { jobs = jobs; reads = s.reads + 1 })
