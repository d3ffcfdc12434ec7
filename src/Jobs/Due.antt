-- ===== src/Jobs/Due.antt =====
-- `lease_due` of ScheduledJobRepository as a whole: what it returns and stores, what it leaves
-- alone, and whom a lease excludes.
use mathlib.Core.Option
use mathlib.Core.Path.{subst}
use zero_hdsc.Base.{
  ℕ, ◌+◌, ◌≤◌, ◌<◌, ◌⊎◌, inl, inr, refl, leb, Option, none, ◌&&◌, ◌||◌, String, ◌≡◌, sym, ◌∙◌, true,
  some, List, [], ◌∷◌, arith, All, All-imp, All-map, length-map, All-take, All-select, All-order_by,
  take, length, length-take, select, order_by,
}
use zero_hdsc.Domain.Jobs.{
  ScheduledJob, JobStatus, pending, running, done, dead_letter, is_pending, is_running,
}
use zero_hdsc.Jobs.{
  Jobs, opt_leb, claimable, leased_row, get, before, eligible, due_ids, lease_one, lease_all,
  lease_due,
}
use zero_hdsc.Jobs.Keys.{IsKeyed, All-get}
use zero_hdsc.Jobs.Lease.{IsLeased, HasAttempts}
use zero_hdsc.Jobs.Claims.{lease_all-IsLeased}

due_lem :
    (now : ℕ) (status : JobStatus) (due : ℕ) (until : Option ℕ)
    → ((is_pending status && leb due now) || (is_running status && opt_leb until now)) ≡ true
    → ((status ≡ pending) × (due ≤ now))
      ⊎ ((status ≡ running) × ((end : ℕ) × (until ≡ some end) × (end ≤ now)))
due_lem now pending due until h = inl (refl, ground (arith, h))
due_lem now running due none h = cc
due_lem now running due (some end) h = inr (refl, (end, refl, ground (arith, h)))
due_lem now done due until h = cc
due_lem now dead_letter due until h = cc

module _ {ℓ} {V : Type ℓ} (now lease limit : ℕ) where
  HasAttempts-eligible :
      (jobs : Jobs V) (r : ScheduledJob V)
      → eligible now r ≡ true
      → get jobs r.id ≡ some r
      → HasAttempts now lease jobs r.id
  HasAttempts-eligible jobs r d e x g c =
      let same : r ≡ x = Option.some-injective r x (sym e ∙ g) in
      subst (λ (y : ScheduledJob V). eligible now y ≡ true) same d

  pub due_ids-HasAttempts :
      (jobs : Jobs V) → IsKeyed jobs → All (HasAttempts now lease jobs) (due_ids now limit jobs)
  unfolding due_ids
  due_ids-HasAttempts jobs k =
      let Selected = λ (r : ScheduledJob V). (eligible now r ≡ true) × (get jobs r.id ≡ some r) in
      let rows = take limit (order_by before (select (eligible now) jobs)) in
      All-map (HasAttempts now lease jobs) (λ job. job.id) rows
        (All-imp Selected (λ r. HasAttempts now lease jobs r.id) rows
          (λ r s. HasAttempts-eligible jobs r s.0 s.1)
          (All-take Selected limit (order_by before (select (eligible now) jobs)) (
            All-order_by Selected before (select (eligible now) jobs)
              (All-select (λ r. get jobs r.id ≡ some r) (eligible now) jobs (All-get jobs k)))))

  pub lease_due-IsLeased :
      (jobs : Jobs V)
      → 1 ≤ lease
      → IsKeyed jobs
      → All
          (IsLeased now lease jobs (lease_due now lease limit jobs).1)
          (lease_due now lease limit jobs).0
  unfolding lease_due
  lease_due-IsLeased jobs p k =
      lease_all-IsLeased now lease p (due_ids now limit jobs) jobs k (due_ids-HasAttempts jobs k)

  -- The job was leased from the table `old`: its row was pending and due, or running under a lease
  -- that has ended, and had attempts left. It is that row, running under the new lease and with
  -- one attempt more, and `new` stores it.
  pub record IsDueJob (old new : Jobs V) (job : ScheduledJob V) : Type ℓ where
    pub row : ScheduledJob V
    pub was : get old job.id ≡ some row
    pub due :
        ((row.status ≡ pending) × (row.due_at_ms ≤ now))
        ⊎ ((row.status ≡ running)
            × ((until : ℕ) × (row.leased_until_ms ≡ some until) × (until ≤ now)))
    pub left : row.attempt_count < row.max_attempts
    pub leased : job ≡ record row {
      status = running;
      leased_until_ms = some (now + lease);
      attempt_count = row.attempt_count + 1;
      updated_at_ms = now;
    }
    pub stored : get new job.id ≡ some job

  IsLeased-IsDueJob :
      (old new : Jobs V) (job : ScheduledJob V)
      → IsLeased now lease old new job
      → IsDueJob old new job
  unfolding eligible claimable leased_row
  IsLeased-IsDueJob old new job l = record {
    row = l.row;
    was = l.was;
    due = due_lem now l.row.status l.row.due_at_ms l.row.leased_until_ms (ground (arith, l.due));
    left = ground (arith, l.due);
    leased = l.leased;
    stored = l.stored;
  }

  -- Every job that `lease_due` returns was, in the table before, a row with attempts left that was
  -- pending with its time not later than now, or running under a lease that ended not later than
  -- now; it is that row with the status running, a lease from now and one attempt more, changed
  -- now, and this is what the table then stores under its id.
  pub lease_due-IsDueJob :
      (jobs : Jobs V)
      → 1 ≤ lease
      → IsKeyed jobs
      → All (IsDueJob jobs (lease_due now lease limit jobs).1) (lease_due now lease limit jobs).0
  lease_due-IsDueJob jobs p k =
      All-imp (IsLeased now lease jobs (lease_due now lease limit jobs).1)
        (IsDueJob jobs (lease_due now lease limit jobs).1) (lease_due now lease limit jobs).0
        (IsLeased-IsDueJob jobs (lease_due now lease limit jobs).1) (lease_due-IsLeased jobs p k)

  length-lease_all :
      (ids : List String) (jobs : Jobs V) → length (lease_all now lease ids jobs).0 ≤ length ids
  unfolding lease_all
  length-lease_all [] jobs = omega arith
  length-lease_all (id ∷ ids) jobs =
      ground (arith, length-lease_all ids (lease_one now lease id jobs).1)

  -- At most `limit` jobs are leased.
  pub length-lease_due-le : (jobs : Jobs V) → length (lease_due now lease limit jobs).0 ≤ limit
  unfolding lease_due due_ids
  length-lease_due-le jobs = omega (
    arith,
    length-lease_all (due_ids now limit jobs) jobs,
    length-map (take limit (order_by before (select (eligible now) jobs))) (λ job. job.id),
    length-take limit (order_by before (select (eligible now) jobs)),
  )
