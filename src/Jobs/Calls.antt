-- ===== src/Jobs/Calls.antt =====
-- Any sequence of calls of ScheduledJobRepository, from the empty table.
use zero_hdsc.Base.{ℕ, ◌≤◌, String, List, [], ◌∷◌, All, find}
use zero_hdsc.Domain.Jobs.{ScheduledJob}
use zero_hdsc.Jobs.{
  Jobs, get, enqueue, expedite, revive_missing_handler_dead_letter, lease_due, reschedule, complete,
  fail,
}
use zero_hdsc.Jobs.Invariant.{
  RowIsSound, IsSound, enqueue-IsSound, expedite-IsSound, revive-IsSound, lease_due-IsSound,
  reschedule-IsSound, complete-IsSound, fail-IsSound,
}

module _ {ℓ} (V : Type ℓ) where
  -- A call of the repository that writes, with its arguments.
  pub data Call : Type ℓ where
    enqueued : ScheduledJob V → Call
    revived : String → ℕ → ℕ → Call
    expedited : String → ℕ → ℕ → Call
    leased : ℕ → ℕ → ℕ → Call
    rescheduled : String → ℕ → ℕ → Call
    completed : String → ℕ → Call
    failed : String → String → ℕ → ℕ → Call

module _ {ℓ} {V : Type ℓ} where
  abbrev pub apply : Call V → Jobs V → Jobs V
  apply (enqueued job) jobs = (enqueue job jobs).1
  apply (revived id due now) jobs = (revive_missing_handler_dead_letter id due now jobs).1
  apply (expedited key due now) jobs = (expedite key due now jobs).1
  apply (leased now lease limit) jobs = (lease_due now lease limit jobs).1
  apply (rescheduled id due now) jobs = (reschedule id due now jobs).1
  apply (completed id now) jobs = (complete id now jobs).1
  apply (failed id error now retry_at) jobs = (fail id error now retry_at jobs).1

  abbrev pub run : List (Call V) → Jobs V → Jobs V
  run [] jobs = jobs
  run (c ∷ cs) jobs = run cs (apply c jobs)

  -- What the callers ensure: a job that is enqueued is a sound row, and a lease is positive.
  abbrev pub IsAllowed : Call V → Type 0
  IsAllowed (enqueued job) = RowIsSound job
  IsAllowed (leased now lease limit) = 1 ≤ lease
  IsAllowed _ = Unit

  apply-IsSound : (c : Call V) (jobs : Jobs V) → IsAllowed c → IsSound jobs → IsSound (apply c jobs)
  apply-IsSound (enqueued job) jobs a h = enqueue-IsSound job jobs a h
  apply-IsSound (revived id due now) jobs a h = revive-IsSound id due now jobs h
  apply-IsSound (expedited key due now) jobs a h = expedite-IsSound key due now jobs h
  apply-IsSound (leased now lease limit) jobs a h = lease_due-IsSound now lease limit jobs a h
  apply-IsSound (rescheduled id due now) jobs a h = reschedule-IsSound id due now jobs h
  apply-IsSound (completed id now) jobs a h = complete-IsSound id now jobs h
  apply-IsSound (failed id error now retry_at) jobs a h = fail-IsSound id error now retry_at jobs h

  run_from-IsSound :
      (cs : List (Call V)) (jobs : Jobs V) → All IsAllowed cs → IsSound jobs → IsSound (run cs jobs)
  run_from-IsSound [] jobs a h = h
  run_from-IsSound (c ∷ cs) jobs a h =
      run_from-IsSound cs (apply c jobs) a.1 (apply-IsSound c jobs a.0 h)

  empty-IsSound : IsSound {V = V} []
  unfolding get find
  empty-IsSound = record { keyed = tt; deduped = tt; rows = λ id r e. cc }

  -- Whatever calls are made of the repository on an empty table, in any order, with sound jobs
  -- enqueued and positive leases: ids and dedup keys stay unique, no row passes its maximum of
  -- attempts, and exactly the running rows are under a lease.
  pub run-IsSound : (calls : List (Call V)) → All IsAllowed calls → IsSound (run calls [])
  run-IsSound calls a = run_from-IsSound calls [] a empty-IsSound
