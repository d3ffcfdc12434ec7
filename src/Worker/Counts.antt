-- ===== src/Worker/Counts.antt =====
-- src/ssa/runtime/lifecycle.py: the counts that `run_due` returns.
use zero_hdsc.Base.{
  String, ℕ, suc, ◌+◌, ◌≤◌, ◌≡◌, inl, inr, Bool, List, [], ◌∷◌, arith, ok, Result-cases, length,
  length-append,
}
use zero_hdsc.Domain.Jobs.{ScheduledJob}
use zero_hdsc.Jobs.{lease_due}
use zero_hdsc.Jobs.Due.{length-lease_due-le}
use zero_hdsc.Worker.{State, Worker, TickResult}
use zero_hdsc.Worker.Run.{run_job, run_jobs, run_due, no_counts}

-- After `n` of `total` jobs: each is counted once, and its id is listed.
pub record IsBalanced (total n : ℕ) (c : TickResult) : Type 0 where
  pub leased : c.leased ≡ total
  pub counted : c.completed + c.rescheduled + c.failed ≡ n
  pub dead : c.dead_lettered ≤ c.failed
  pub listed : length c.job_ids ≡ n

module _ {ℓ} {V W : Type ℓ} (times : ℕ → ℕ) (repr : String → String) (truthy : V → Bool) where
  run_job-IsBalanced :
      (w : Worker V W) (now : ℕ) (job : ScheduledJob V) (c c' : TickResult) (s : State V W)
      (total n : ℕ)
      → IsBalanced total n c
      → (run_job times repr truthy w now job c s).0 ≡ ok c'
      → IsBalanced total (suc n) c'
  unfolding run_job
  run_job-IsBalanced w now job c c' s total n b h =
      ground (arith, length-append c.job_ids (job.id ∷ []))

  run_jobs-IsBalanced :
      (w : Worker V W) (now : ℕ) (jobs : List (ScheduledJob V)) (c c' : TickResult) (s : State V W)
      (total n : ℕ)
      → IsBalanced total n c
      → (run_jobs times repr truthy w now jobs c s).0 ≡ ok c'
      → IsBalanced total (n + length jobs) c'
  unfolding run_jobs
  run_jobs-IsBalanced w now [] c c' s total n b h = ground arith
  run_jobs-IsBalanced w now (job ∷ rest) c c' s total n b h =
      elim (Result-cases (run_job times repr truthy w now job c s).0) [
        | inr (e, z) ↦ ground arith
        | inl (c1, z) ↦
            let rest =
              run_jobs-IsBalanced w now rest c1 c' (run_job times repr truthy w now job c s).1 total
                (suc n) (run_job-IsBalanced w now job c c1 s total n b z) in
            ground (arith, rest)
      ]

  -- When `run_due` returns, it has leased at most `limit` jobs, has counted each of them as exactly
  -- one of completed, rescheduled and failed, counts no more dead jobs than failed ones, and lists
  -- one id for each job.
  pub run_due_counts :
      (limit : ℕ) (w : Worker V W) (s : State V W) (c : TickResult)
      → (run_due times repr truthy limit w s).0 ≡ ok c
      → (c.leased ≤ limit)
        × (c.completed + c.rescheduled + c.failed ≡ c.leased)
        × (c.dead_lettered ≤ c.failed)
        × (length c.job_ids ≡ c.leased)
  unfolding run_due
  run_due_counts limit w s c h =
      let now = times s.reads in
      let leased = (lease_due now w.lease_ms limit s.jobs).0 in
      let b =
        run_jobs-IsBalanced w now leased (no_counts (length leased)) c
          (record s { jobs = (lease_due now w.lease_ms limit s.jobs).1; reads = s.reads + 1 })
          (length leased) 0 (omega arith) h in
      omega (arith, b, length-lease_due-le now w.lease_ms limit s.jobs)
