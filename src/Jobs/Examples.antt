-- ===== src/Jobs/Examples.antt =====
-- Two jobs, and the theorems about the job table at them.
use zero_hdsc.Base.{
  String, ℕ, ◌≤◌, ◌≡◌, ◌≢◌, refl, Bool, true, false, Option, none, some, List, [], ◌∷◌, arith, All,
  ok, eq_iff, find, ◌⊎◌,
}
use zero_hdsc.Domain.Jobs.{ScheduledJob, JobStatus, pending, running, is_pending}
use zero_hdsc.Jobs.{
  Jobs, get, eligible, claimable, leased_row, find_by_dedup, enqueue, expedite, lease_due, fail,
  revive_missing_handler_dead_letter,
}
use zero_hdsc.Jobs.Progress.{lease_due-leases}
use zero_hdsc.Jobs.Keys.{IsKeyed}
use zero_hdsc.Jobs.Due.{IsDueJob, lease_due-IsDueJob}
use zero_hdsc.Jobs.Exclusion.{Kept, lease_due-Kept, lease_due_exclusion}
use zero_hdsc.Jobs.Dedup.{enqueue_idempotent}
use zero_hdsc.Jobs.Invariant.{IsSound}
use zero_hdsc.Jobs.Calls.{Call, enqueued, leased, failed, run, run-IsSound}
use zero_hdsc.Jobs.Retries.{
  failed as failed_job, fail_outcome, exhausted_running-stuck, expedite_earlier,
}

abbrev job : String → Option String → ℕ → ℕ → JobStatus → Option ℕ → ScheduledJob Bool
job id key due attempts status lease = record {
  id = id;
  conversation_id = "main";
  job_type = "health.check";
  dedup_key = key;
  payload = ("recurring", true) ∷ [];
  due_at_ms = due;
  attempt_count = attempts;
  max_attempts = 5;
  status = status;
  last_error = none;
  leased_until_ms = lease;
  completed_at_ms = none;
  created_at_ms = 0;
  updated_at_ms = 0;
}

abbrev early : ScheduledJob Bool
early = job "a" (some "health") 10 0 pending none

abbrev late : ScheduledJob Bool
late = job "b" (some "state") 500 5 running (some 20)

abbrev table : Jobs Bool
table = early ∷ late ∷ []

table-IsKeyed : IsKeyed table
unfolding get find
table-IsKeyed = (refl, (refl, tt))

get-early : get table "a" ≡ some early
unfolding get find
get-early = refl

get-late : get table "b" ≡ some late
unfolding get find
get-late = refl

lease_due-IsDueJob_example :
    All (IsDueJob 100 60 8 table (lease_due 100 60 8 table).1) (lease_due 100 60 8 table).0
lease_due-IsDueJob_example = lease_due-IsDueJob 100 60 8 table (omega arith) table-IsKeyed

early-eligible : eligible 100 early ≡ true
unfolding eligible claimable
early-eligible = refl

lease_due-leases_example : get (lease_due 100 60 8 table).1 "a" ≡ some (leased_row 100 60 early)
lease_due-leases_example =
    lease_due-leases 100 60 (omega arith) 8 "a" early table get-early early-eligible (omega arith)

lease_due-Kept_example : Kept 100 60 table (lease_due 100 60 8 table).1 "b"
lease_due-Kept_example = lease_due-Kept 100 60 8 table "b" (omega arith) table-IsKeyed

lease_due_exclusion_example :
    let (mine, mid) = lease_due 100 60 8 table in
    All (λ a. All (λ b. a.id ≢ b.id) (lease_due 150 60 8 mid).0) mine
lease_due_exclusion_example =
    lease_due_exclusion 100 150 60 8 8 table (omega arith) (omega arith) table-IsKeyed

enqueue_idempotent_example :
    enqueue (job "c" (some "health") 0 0 pending none) (early ∷ []) ≡ (ok early, early ∷ [])
unfolding enqueue find_by_dedup get find
enqueue_idempotent_example =
    enqueue_idempotent early (job "c" (some "health") 0 0 pending none) early "health" []
      (early ∷ []) refl refl refl

abbrev calls : List (Call Bool)
calls = enqueued early ∷ leased 100 60 8 ∷ failed "a" "boom" 120 30120 ∷ leased 200 60 8 ∷ []

run-IsSound_example : IsSound (run calls [])
run-IsSound_example = run-IsSound calls (
  record { attempts = omega arith; allowed = omega arith; leased = refl },
  (omega arith, (tt, (omega arith, tt))),
)

a≢b : ◌≢◌ {A = String} "b" "a"
a≢b e = cc ((eq_iff "b" "a").1 e)

fail_outcome_example :
    ((fail "a" "boom" 20 50 table).0 ≡ ok (failed_job false "boom" 20 50 early))
    × (get (fail "a" "boom" 20 50 table).1 "b" ≡ get table "b")
fail_outcome_example = fail_outcome "a" "boom" 20 50 table early "b" get-early a≢b

exhausted_running-stuck_example :
    (get (lease_due 1000 60 8 table).1 "b" ≡ some late)
    × (get (revive_missing_handler_dead_letter "b" 0 1000 table).1 "b" ≡ some late)
    × (get (expedite "state" 0 1000 table).1 "b" ≡ some late)
exhausted_running-stuck_example =
    exhausted_running-stuck 1000 60 8 0 "state" table "b" late (omega arith) table-IsKeyed get-late
      refl (omega arith)

expedite_earlier_example :
    (new : ScheduledJob Bool) × (get (expedite "health" 5 7 table).1 "a" ≡ some new)
    × (new.due_at_ms ≤ 10)
    × (new.status ≡ pending)
    × ((new.due_at_ms ≤ 5) ⊎ (new ≡ early))
    × ((is_pending pending ≡ true) ⊎ (new ≡ early))
expedite_earlier_example = expedite_earlier "health" 5 7 table "a" early get-early
