-- ===== src/Worker/Settled.antt =====
-- src/ssa/runtime/lifecycle.py: `run_due` leaves no job of its batch running.
use mathlib.Core.Path.{subst}
use zero_hdsc.Base.{
  String, ℕ, ◌≡◌, refl, sym, ◌⊎◌, inl, inr, Bool, true, false, Option, none, some, List, [], ◌∷◌,
  arith, Error, Result, ok, err, Result-cases, All, dict_get, error_text,
}
use zero_hdsc.Domain.Jobs.{ScheduledJob}
use zero_hdsc.Jobs.{lease_due}
use zero_hdsc.Worker.{State, Handler, Worker, TickResult}
use zero_hdsc.Worker.Run.{
  Done, count_id, finish_with, after_handler, conclude, count_failure, handled, failing, run_job,
  run_jobs, run_due,
}
use zero_hdsc.Jobs.Settled.{
  IsSettled, fail-IsSettled, complete-IsSettled, reschedule-IsSettled, expedite_all,
  expedite_all-IsSettled,
}

module _ {ℓ} {V W : Type ℓ} (times : ℕ → ℕ) (repr : String → String) (truthy : V → Bool) where
  -- What a handler does to the job table: calls of `expedite`, or none.
  abbrev pub Expedites : Handler V W → Type ℓ
  Expedites handler =
      (job : ScheduledJob V) (s : State V W)
      → (calls : List (String × (ℕ × ℕ))) × ((handler job s).1.jobs ≡ expedite_all calls s.jobs)

  -- The handlers change the job table by `expedite` only, as those of the runtime do
  -- (src/ssa/runtime/autonomous.py).
  abbrev pub IsExpediting : Worker V W → Type ℓ
  IsExpediting w =
      (name : String) (handler : Handler V W)
      → dict_get name w.handlers ≡ some handler
      → Expedites handler

  handler-IsSettled :
      (handler : Handler V W) (job : ScheduledJob V) (s : State V W) (k : String)
      → Expedites handler
      → IsSettled s.jobs k ⊎ (k ≡ job.id)
      → IsSettled (handler job s).1.jobs k ⊎ (k ≡ job.id)
  handler-IsSettled handler job s k e (inl h) =
      let (calls, same) = e job s in
      inl (subst (λ jobs. IsSettled jobs k) (sym same) (expedite_all-IsSettled calls k s.jobs h))
  handler-IsSettled handler job s k e (inr q) = inr q

  finish_with-IsSettled :
      (interval : Option ℕ) (recurring : Bool) (now : ℕ) (job : ScheduledJob V) (s : State V W)
      (k : String)
      → IsSettled s.jobs k ⊎ (k ≡ job.id)
      → IsSettled (finish_with times repr truthy interval recurring now job s).1.jobs k
  unfolding finish_with
  finish_with-IsSettled none recurring now job s k h = complete-IsSettled job.id k _ s.jobs h
  finish_with-IsSettled (some ms) true now job s k h = reschedule-IsSettled job.id k _ _ s.jobs h
  finish_with-IsSettled (some ms) false now job s k h = complete-IsSettled job.id k _ s.jobs h

  count_failure-IsSettled :
      (c : TickResult) (r : Result (ScheduledJob V) × State V W) (k : String)
      → IsSettled r.1.jobs k
      → IsSettled (count_failure times repr truthy c r).1.jobs k
  unfolding count_failure
  count_failure-IsSettled c (ok row, s) k h = h
  count_failure-IsSettled c (err e, s) k h = h

  failing-IsSettled :
      (job : ScheduledJob V) (c : TickResult) (e : Error) (s : State V W) (k : String)
      → IsSettled s.jobs k ⊎ (k ≡ job.id)
      → IsSettled (count_failure times repr truthy c (failing times repr truthy job e s)).1.jobs k
  unfolding failing
  failing-IsSettled job c e s k h =
      count_failure-IsSettled c _ k (fail-IsSettled job.id (error_text repr e) k _ _ s.jobs h)

  conclude-IsSettled :
      (job : ScheduledJob V) (c : TickResult) (r : Result Done × State V W) (k : String)
      → IsSettled r.1.jobs k
      → IsSettled (conclude times repr truthy job c r).1.jobs k
  unfolding conclude
  conclude-IsSettled job c (ok d, s) k h = h
  conclude-IsSettled job c (err e, s) k h = failing-IsSettled job c e s k (inl h)

  after_handler-IsSettled :
      (w : Worker V W) (now : ℕ) (job : ScheduledJob V) (c : TickResult)
      (p : Option Error × State V W) (k : String)
      → IsSettled p.1.jobs k ⊎ (k ≡ job.id)
      → IsSettled
          (conclude times repr truthy job c (after_handler times repr truthy w now job p)).1.jobs
          k
  unfolding after_handler
  after_handler-IsSettled w now job c (some e, s) k h =
      unfold conclude in failing-IsSettled job c e s k h
  after_handler-IsSettled w now job c (none, s) k h =
      conclude-IsSettled job c _ k (finish_with-IsSettled _ _ now job s k h)

  handled-IsSettled :
      (handler : Option (Handler V W)) (w : Worker V W) (now : ℕ) (job : ScheduledJob V)
      (c : TickResult) (s : State V W) (k : String)
      → ((h : Handler V W) → handler ≡ some h → Expedites h)
      → IsSettled s.jobs k ⊎ (k ≡ job.id)
      → IsSettled
          (conclude times repr truthy job c (handled times repr truthy handler w now job s)).1.jobs
          k
  unfolding handled
  handled-IsSettled none w now job c s k expedites h =
      unfold conclude in failing-IsSettled job c _ s k h
  handled-IsSettled (some f) w now job c s k expedites h =
      after_handler-IsSettled w now job c (f job s) k
        (handler-IsSettled f job s k (expedites f refl) h)

  run_job-IsSettled :
      (w : Worker V W) (now : ℕ) (job : ScheduledJob V) (c : TickResult) (s : State V W)
      (k : String)
      → IsExpediting w
      → IsSettled s.jobs k ⊎ (k ≡ job.id)
      → IsSettled (run_job times repr truthy w now job c s).1.jobs k
  unfolding run_job
  run_job-IsSettled w now job c s k expedites h =
      handled-IsSettled (dict_get job.job_type w.handlers) w now job (count_id job c) s k
        (λ f e. expedites job.job_type f e) h

  run_jobs-raised :
      (w : Worker V W) (now : ℕ) (job : ScheduledJob V) (rest : List (ScheduledJob V))
      (c : TickResult) (s : State V W) (e : Error)
      → (run_job times repr truthy w now job c s).0 ≡ err e
      → run_jobs times repr truthy w now (job ∷ rest) c s
        ≡ (err e, (run_job times repr truthy w now job c s).1)
  unfolding run_jobs
  run_jobs-raised w now job rest c s e h = ground arith

  run_jobs-cons :
      (w : Worker V W) (now : ℕ) (job : ScheduledJob V) (rest : List (ScheduledJob V))
      (c c' : TickResult) (s : State V W)
      → (run_job times repr truthy w now job c s).0 ≡ ok c'
      → run_jobs times repr truthy w now (job ∷ rest) c s
        ≡ run_jobs times repr truthy w now rest c' (run_job times repr truthy w now job c s).1
  unfolding run_jobs
  run_jobs-cons w now job rest c c' s h = ground arith

  run_jobs-IsSettled :
      (w : Worker V W) (now : ℕ) (jobs : List (ScheduledJob V)) (c : TickResult) (s : State V W)
      (k : String)
      → IsExpediting w
      → IsSettled s.jobs k
      → IsSettled (run_jobs times repr truthy w now jobs c s).1.jobs k
  run_jobs-IsSettled w now [] c s k expedites h = unfold run_jobs in h
  run_jobs-IsSettled w now (job ∷ rest) c s k expedites h =
      let mid = (run_job times repr truthy w now job c s).1 in
      let h' = run_job-IsSettled w now job c s k expedites (inl h) in
      elim (Result-cases (run_job times repr truthy w now job c s).0) [
        | inl (c', z) ↦
            rw (run_jobs-cons w now job rest c c' s z)
              (run_jobs-IsSettled w now rest c' mid k expedites h')
        | inr (e, z) ↦ rw (run_jobs-raised w now job rest c s e z) h'
      ]

  run_jobs-AllSettled :
      (w : Worker V W) (now : ℕ) (jobs : List (ScheduledJob V)) (c c' : TickResult) (s : State V W)
      → IsExpediting w
      → (run_jobs times repr truthy w now jobs c s).0 ≡ ok c'
      → All (λ job. IsSettled (run_jobs times repr truthy w now jobs c s).1.jobs job.id) jobs
  run_jobs-AllSettled w now [] c c' s expedites h = tt
  run_jobs-AllSettled w now (job ∷ rest) c c' s expedites h =
      let mid = (run_job times repr truthy w now job c s).1 in
      elim (Result-cases (run_job times repr truthy w now job c s).0) [
        | inl (c1, z) ↦
            let same = run_jobs-cons w now job rest c c1 s z in
            subst
              (λ (x : Result TickResult × State V W).
                All (λ j. IsSettled x.1.jobs j.id) (job ∷ rest))
              (sym same)
              (
                run_jobs-IsSettled w now rest c1 mid job.id expedites
                    (run_job-IsSettled w now job c s job.id expedites (inr refl)),
                run_jobs-AllSettled w now rest c1 c' mid expedites (rw same at h),
              )
        | inr (e, z) ↦ let same = run_jobs-raised w now job rest c s e z in ground (arith, same)
      ]

  -- When `run_due` returns, with handlers that change the job table by `expedite` only, no job that
  -- it leased is still running or under a lease.
  pub run_due-settles :
      (limit : ℕ) (w : Worker V W) (s : State V W) (c : TickResult)
      → IsExpediting w
      → (run_due times repr truthy limit w s).0 ≡ ok c
      → All
          (λ job. IsSettled (run_due times repr truthy limit w s).1.jobs job.id)
          (lease_due (times s.reads) w.lease_ms limit s.jobs).0
  unfolding run_due
  run_due-settles limit w s c expedites h =
      run_jobs-AllSettled w (times s.reads) (lease_due (times s.reads) w.lease_ms limit s.jobs).0 _
        c _ expedites h
