-- ===== src/Jobs/Retries.antt =====
-- `fail`, `expedite` and the attempts of ScheduledJobRepository: when a job is retried, when it is
-- dead, and when it is stuck.
use mathlib.Core.Option
use mathlib.Core.Path.{subst}
use zero_hdsc.Base.{
  ℕ, ◌≤◌, min, String, ◌≡◌, ◌≢◌, refl, sym, ◌∙◌, ◌⊎◌, inl, inr, Bool, true, ◌&&◌, none, some, arith,
  leb, if◌then◌else◌, Option-cases, eq_iff, ok, update_where, updated,
}
use zero_hdsc.Domain.Jobs.{ScheduledJob, pending, running, dead_letter, is_pending}
use zero_hdsc.Jobs.{
  Jobs, read_back, has_id, has_dedup, get, expedite, revive_missing_handler_dead_letter, lease_due,
  eligible, fail, failed_row,
}
use zero_hdsc.Jobs.Keys.{IsKeyed, KeepsId, get-update, get_id}
use zero_hdsc.Jobs.Exclusion.{Kept, lease_due-Kept}

module _ {ℓ} {V : Type ℓ} where
  abbrev pub failed : Bool → String → ℕ → ℕ → ScheduledJob V → ScheduledJob V
  failed terminal error now retry_at job = record job {
    status = if terminal then dead_letter else pending;
    last_error = some error;
    due_at_ms = retry_at;
    leased_until_ms = none;
    updated_at_ms = now;
  }

  pub fail-found :
      (id error : String) (now retry_at : ℕ) (jobs : Jobs V) (job : ScheduledJob V)
      → get jobs id ≡ some job
      → fail id error now retry_at jobs
        ≡ read_back
            (update_where
              (has_id id)
              (failed_row (leb job.max_attempts job.attempt_count) error now retry_at)
              jobs)
            id
  unfolding fail
  fail-found id error now retry_at jobs job h = ground arith

  pub get-update_self :
      (id : String) (f : ScheduledJob V → ScheduledJob V) (jobs : Jobs V) (job : ScheduledJob V)
      → KeepsId f
      → get jobs id ≡ some job
      → get (update_where (has_id id) f jobs) id ≡ some (f job)
  get-update_self id f jobs job keep h =
      get-update (has_id id) f jobs id keep
      ∙ ground (arith, h, get_id jobs id job h, eq_iff job.id id)

  pub get-update_other :
      (id k : String) (f : ScheduledJob V → ScheduledJob V) (jobs : Jobs V)
      → KeepsId f
      → k ≢ id
      → get (update_where (has_id id) f jobs) k ≡ get jobs k
  get-update_other id k f jobs keep ne = elim (Option-cases (get jobs k)) [
    | inl z ↦ get-update (has_id id) f jobs k keep ∙ rw z
    | inr (x, z) ↦
        get-update (has_id id) f jobs k keep ∙ ground (arith, z, get_id jobs k x z, eq_iff x.id id)
  ]

  -- `fail` of a stored job keeps its attempts, stores the error and the time of the retry, ends the
  -- lease, and makes the job dead exactly when its attempts have reached the maximum; every other
  -- row is as it was.
  pub fail_outcome :
      (id error : String) (now retry_at : ℕ) (jobs : Jobs V) (job : ScheduledJob V) (k : String)
      → get jobs id ≡ some job
      → k ≢ id
      → ((fail id error now retry_at jobs).0
          ≡ ok (failed (leb job.max_attempts job.attempt_count) error now retry_at job))
        × (get (fail id error now retry_at jobs).1 k ≡ get jobs k)
  unfolding failed_row
  fail_outcome id error now retry_at jobs job k h ne =
      let f = failed_row (leb job.max_attempts job.attempt_count) error now retry_at in
      (
        rw (fail-found id error now retry_at jobs job h)
            (rw (get-update_self id f jobs job (λ r. refl) h)),
        rw (fail-found id error now retry_at jobs job h)
            (get-update_other id k f jobs (λ r. refl) ne),
      )

  not_eligible :
      (now : ℕ) (r : ScheduledJob V) → r.max_attempts ≤ r.attempt_count → eligible now r ≢ true
  unfolding eligible
  not_eligible now r x e = ground arith

  -- A row that is running with no attempts left (its worker stopped during the last one) is left
  -- as it is by `lease_due` at any time, whether or not the lease has run out, and by the two
  -- statements that revive or expedite a job: nothing makes it dead, and nothing runs it.
  pub exhausted_running-stuck :
      (now lease limit due : ℕ) (key : String) (jobs : Jobs V) (id : String) (r : ScheduledJob V)
      → 1 ≤ lease
      → IsKeyed jobs
      → get jobs id ≡ some r
      → r.status ≡ running
      → r.max_attempts ≤ r.attempt_count
      → (get (lease_due now lease limit jobs).1 id ≡ some r)
        × (get (revive_missing_handler_dead_letter id due now jobs).1 id ≡ some r)
        × (get (expedite key due now jobs).1 id ≡ some r)
  unfolding revive_missing_handler_dead_letter expedite
  exhausted_running-stuck now lease limit due key jobs id r p k e s x = (
    stuck (lease_due now lease limit jobs).1 (lease_due-Kept now lease limit jobs id p k),
    get-update _ _ jobs id (λ j. refl) ∙ ground (arith, e, s),
    get-update _ _ jobs id (λ j. refl) ∙ ground (arith, e, s),
  )
    where
      stuck : (new : Jobs V) → Kept now lease jobs new id → get new id ≡ some r
      stuck new (inl h) = h ∙ e
      stuck new (inr (q, was, due, h)) =
          let same : q ≡ r = Option.some-injective q r (sym was ∙ e) in
          absurd
            (not_eligible now r x (subst (λ (y : ScheduledJob V). eligible now y ≡ true) same due))

  -- `expedite` keeps every row and its status and moves no row later; a row that it changes was
  -- pending and is due by the time asked for.
  pub expedite_earlier :
      (key : String) (due now : ℕ) (jobs : Jobs V) (id : String) (r : ScheduledJob V)
      → get jobs id ≡ some r
      → (new : ScheduledJob V) × (get (expedite key due now jobs).1 id ≡ some new)
        × (new.due_at_ms ≤ r.due_at_ms)
        × (new.status ≡ r.status)
        × ((new.due_at_ms ≤ due) ⊎ (new ≡ r))
        × ((is_pending r.status ≡ true) ⊎ (new ≡ r))
  unfolding expedite
  expedite_earlier key due now jobs id r e =
      let f = λ (job : ScheduledJob V). record job {
        due_at_ms = min job.due_at_ms due;
        updated_at_ms = now;
      } in
      let p = λ (job : ScheduledJob V). has_dedup key job && is_pending job.status in
      (
        updated p f r,
        get-update p f jobs id (λ j. refl) ∙ rw e,
        ground arith,
        ground arith,
        ground arith,
        ground arith,
      )
