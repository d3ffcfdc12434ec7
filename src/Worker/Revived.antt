-- ===== src/Worker/Revived.antt =====
-- src/ssa/runtime/lifecycle.py: a job that dies for want of a handler is one that `bootstrap` revives.
use zero_hdsc.Base.{
  String, ℕ, ◌+◌, ◌≤◌, ◌≡◌, refl, ◌∙◌, Bool, true, none, some, arith, leb, Result, ok, err,
  error_text, not_registered, eq_refl, dict_get,
}
use zero_hdsc.Domain.Jobs.{ScheduledJob, pending, dead_letter}
use zero_hdsc.Jobs.{
  Jobs, get, fail, failed_row, died_of_missing_handler, revive_missing_handler_dead_letter,
}
use zero_hdsc.Jobs.Keys.{get-update, get_id}
use zero_hdsc.Jobs.Retries.{fail-found, get-update_self}
use zero_hdsc.Worker.{State, Worker, TickResult, retry_delay}
use zero_hdsc.Worker.Run.{run_job, attempt, handled, conclude, failing, count_failure, count_id}
use zero_hdsc.Worker.Backoff.{missing_handler_revivable}

module _ {ℓ} {V : Type ℓ} where
  -- What `fail` leaves of a job whose attempts are used up.
  fail-dead :
      (id error : String) (now retry_at : ℕ) (jobs : Jobs V) (row : ScheduledJob V)
      → get jobs id ≡ some row
      → row.max_attempts ≤ row.attempt_count
      → get (fail id error now retry_at jobs).1 id
        ≡ some record row {
          status = dead_letter;
          last_error = some error;
          due_at_ms = retry_at;
          leased_until_ms = none;
          updated_at_ms = now;
        }
  unfolding failed_row
  fail-dead id error now retry_at jobs row h k =
      let t : leb row.max_attempts row.attempt_count ≡ true = ground (arith, k) in
      rw (fail-found id error now retry_at jobs row h) (
        get-update_self id (failed_row (leb row.max_attempts row.attempt_count) error now retry_at)
          jobs row (λ r. refl) h
        ∙ rw t refl)

  -- What the revival of a dead row leaves, where its error is that of a missing handler.
  revive-dead :
      (id : String) (due now : ℕ) (jobs : Jobs V) (row : ScheduledJob V)
      → get jobs id ≡ some row
      → row.status ≡ dead_letter
      → died_of_missing_handler row.last_error ≡ true
      → (revive_missing_handler_dead_letter id due now jobs).0
        ≡ some record row {
          status = pending;
          due_at_ms = due;
          attempt_count = 0;
          last_error = none;
          leased_until_ms = none;
          completed_at_ms = none;
          updated_at_ms = now;
        }
  unfolding revive_missing_handler_dead_letter
  revive-dead id due now jobs row h d e =
      let same = get_id jobs id row h in
      get-update _ _ jobs id (λ r. refl) ∙ rw (h, same, eq_refl id, d, e) refl

module _ {ℓ} {V W : Type ℓ} (times : ℕ → ℕ) (repr : String → String) (truthy : V → Bool) where
  count_failure-state :
      (c : TickResult) (r : Result (ScheduledJob V)) (s : State V W)
      → (count_failure times repr truthy c (r, s)).1 ≡ s
  unfolding count_failure
  count_failure-state c (ok row) s = refl
  count_failure-state c (err e) s = refl

  -- When the worker runs a job whose type has no handler and whose row has no attempts left, the row
  -- becomes dead, and `revive_missing_handler_dead_letter`, which `bootstrap` calls on dead rows,
  -- makes it pending again, due at the given time, with no attempts made and no error.
  pub run_job-revived :
      (w : Worker V W) (now due later : ℕ) (job row : ScheduledJob V) (c : TickResult)
      (s : State V W)
      → dict_get job.job_type w.handlers ≡ none
      → get s.jobs job.id ≡ some row
      → row.max_attempts ≤ row.attempt_count
      → (dead : ScheduledJob V) × (get (run_job times repr truthy w now job c s).1.jobs job.id
          ≡ some dead)
        × (dead.status ≡ dead_letter)
        × ((revive_missing_handler_dead_letter job.id due later
              (run_job times repr truthy w now job c s).1.jobs).0
            ≡ some record dead {
              status = pending;
              due_at_ms = due;
              attempt_count = 0;
              last_error = none;
              leased_until_ms = none;
              completed_at_ms = none;
              updated_at_ms = later;
            })
  unfolding run_job attempt handled conclude failing
  run_job-revived w now due later job row c s h k full =
      let error = error_text repr (not_registered "lifecycle handler" job.job_type) in
      let retry_at = times (s.reads + 1) + retry_delay job.attempt_count in
      let dead = record row {
        status = dead_letter;
        last_error = some error;
        due_at_ms = retry_at;
        leased_until_ms = none;
        updated_at_ms = times s.reads;
      } in
      let failed = fail job.id error (times s.reads) retry_at s.jobs in
      let found = fail-dead job.id error (times s.reads) retry_at s.jobs row k full in
      rw
        (
          h,
          count_failure-state (count_id job c) failed.0
              (record s { jobs = failed.1; reads = s.reads + 2 }),
        )
        (
          dead,
          found,
          refl,
          revive-dead job.id due later failed.1 dead found refl
              (missing_handler_revivable repr job.job_type),
        )
