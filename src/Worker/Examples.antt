-- ===== src/Worker/Examples.antt =====
-- A worker with the two jobs that it is built with, one of them without its handler.
use mathlib.Core.Option
use mathlib.Core.Path.{subst}
use zero_hdsc.Base.{
  zero, inl, inr, Bool-cases, str_eq, String, ℕ, ◌+◌, ◌*◌, ◌≤◌, ◌≡◌, refl, Bool, true, none, some,
  List, [], ◌∷◌, arith, All, ok, find, ◌⊎◌, order_by, select, rowcount, update_where, length,
  dict_get, suc,
}
use zero_hdsc.Domain.Jobs.{ScheduledJob, pending, dead_letter}
use zero_hdsc.Jobs.{
  lease_due, enqueue, eligible, claimable, leased_row, reschedule, fail, get, find_by_dedup,
  revive_missing_handler_dead_letter, expedite,
}
use zero_hdsc.Jobs.Settled.{IsSettled}
use zero_hdsc.Worker.{State, Worker, Handler, TickResult, retry_delay}
use zero_hdsc.Worker.Bootstrap.{
  interval_types, recurring_job, revived, schedule_all, schedule_one, bootstrap,
}
use zero_hdsc.Worker.Run.{run_due, run_jobs, run_job}
use zero_hdsc.Worker.Backoff.{retry_delay_bounds}
use zero_hdsc.Worker.Revived.{run_job-revived}
use zero_hdsc.Worker.Counts.{run_due_counts}
use zero_hdsc.Worker.Settled.{Expedites, IsExpediting, run_due-settles}
use zero_hdsc.Worker.Recurring.{bootstrap_idempotent}

abbrev health_check : Handler Bool (Unit {0})
health_check job s = (none, s)

abbrev worker : Worker Bool (Unit {0})
worker = record {
  conversation_id = "main";
  lease_ms = 60000;
  handlers = ("health.check", health_check) ∷ [];
  intervals_ms = ("state.refresh", 3600000) ∷ ("health.check", 60000) ∷ [];
}

abbrev start : State Bool (Unit {0})
start = record { jobs = []; rest = tt; reads = 0; ids = 0 }

abbrev clock : ℕ → ℕ
clock n = 1000 + n

abbrev fresh : ℕ → String
fresh n = elim n [ zero ↦ "job-0" | suc m ↦ "job-1" ]

abbrev quoted : String → String
quoted s = s

abbrev truth : Bool → Bool
truth b = b

abbrev booted : State Bool (Unit {0})
booted = (bootstrap fresh true clock none worker start).1

abbrev ticked : TickResult
ticked = record {
  leased = 2;
  completed = 0;
  rescheduled = 1;
  failed = 1;
  dead_lettered = 0;
  job_ids = "job-0" ∷ "job-1" ∷ [];
}

run_booted : (run_due clock quoted truth 16 worker booted).0 ≡ ok ticked
unfolding run_due run_jobs run_job bootstrap schedule_all schedule_one recurring_job revived
    interval_types lease_due order_by select enqueue find_by_dedup find get eligible claimable
    rowcount update_where leased_row dict_get reschedule fail
run_booted = refl

retry_delay_bounds_example :
    (30000 ≤ retry_delay 3)
    × (retry_delay 3 ≤ retry_delay 4)
    × (retry_delay 4 ≤ 3600000)
    × ((retry_delay 5 ≡ 2 * retry_delay 4) ⊎ (retry_delay 5 ≡ 3600000))
retry_delay_bounds_example = retry_delay_bounds 3 4 (omega arith)

-- A row of a job whose type has no handler, on its last attempt.
abbrev last_attempt : ScheduledJob Bool
last_attempt = record (recurring_job fresh true worker "job-0" "state.refresh" 1000 1000) {
  attempt_count = 5;
  max_attempts = 5;
}

abbrev last : State Bool (Unit {0})
last = record { jobs = last_attempt ∷ []; rest = tt; reads = 0; ids = 0 }

abbrev no_counts_yet : TickResult
no_counts_yet = record {
  leased = 1;
  completed = 0;
  rescheduled = 0;
  failed = 0;
  dead_lettered = 0;
  job_ids = [];
}

no_handler : dict_get "state.refresh" worker.handlers ≡ none
unfolding dict_get
no_handler = refl

last_there : get last.jobs "job-0" ≡ some last_attempt
unfolding get find recurring_job
last_there = refl

run_job-revived_example :
    (dead : ScheduledJob Bool) × (get
        (run_job clock quoted truth worker 1000 last_attempt no_counts_yet last).1.jobs
        "job-0"
      ≡ some dead)
    × (dead.status ≡ dead_letter)
    × ((revive_missing_handler_dead_letter "job-0" 5000 6000
          (run_job clock quoted truth worker 1000 last_attempt no_counts_yet last).1.jobs).0
        ≡ some record dead {
          status = pending;
          due_at_ms = 5000;
          attempt_count = 0;
          last_error = none;
          leased_until_ms = none;
          completed_at_ms = none;
          updated_at_ms = 6000;
        })
unfolding recurring_job
run_job-revived_example =
    run_job-revived clock quoted truth worker 1000 5000 6000 last_attempt last_attempt no_counts_yet
      last no_handler last_there (omega arith)

run_due_counts_example : (2 ≤ 16) × (0 + 1 + 1 ≡ 2) × (0 ≤ 1) × (length ticked.job_ids ≡ 2)
run_due_counts_example = run_due_counts clock quoted truth 16 worker booted ticked run_booted

-- A handler that makes another job due, as those of the runtime do.
abbrev observe : Handler Bool (Unit {0})
observe job s =
    (none, record s { jobs = (expedite "lifecycle:main:state.refresh" 1000 1000 s.jobs).1 })

abbrev observer : Worker Bool (Unit {0})
observer = record worker {
  handlers = ("world.observe", observe) ∷ [];
  intervals_ms = ("state.refresh", 3600000) ∷ ("world.observe", 60000) ∷ [];
}

abbrev observing : State Bool (Unit {0})
observing = (bootstrap fresh true clock none observer start).1

run_observing : (run_due clock quoted truth 16 observer observing).0 ≡ ok ticked
unfolding run_due run_jobs run_job bootstrap schedule_all schedule_one recurring_job revived
    interval_types lease_due order_by select enqueue find_by_dedup find get eligible claimable
    rowcount update_where leased_row dict_get reschedule fail expedite
run_observing = refl

observer-IsExpediting : IsExpediting clock quoted truth observer
unfolding dict_get
observer-IsExpediting name handler e = elim (Bool-cases (str_eq "world.observe" name)) [
  | inl t ↦
      let same : observe ≡ handler = Option.some-injective observe handler (rw t at e) in
      subst (λ h. Expedites clock quoted truth h) same
        (λ job s. (("lifecycle:main:state.refresh", (1000, 1000)) ∷ [], refl))
  | inr t ↦ absurd (Option.none-ne-some handler (rw t at e))
]

run_due-settles_example :
    All
      (λ job. IsSettled (run_due clock quoted truth 16 observer observing).1.jobs job.id)
      (lease_due (clock observing.reads) 60000 16 observing.jobs).0
run_due-settles_example =
    run_due-settles clock quoted truth 16 observer observing ticked observer-IsExpediting
      run_observing

abbrev boot_rows : List (ScheduledJob Bool)
boot_rows =
    recurring_job fresh true worker "job-0" "health.check" 1000 1000
    ∷ recurring_job fresh true worker "job-1" "state.refresh" 1000 1000
    ∷ []

first_bootstrap : (bootstrap fresh true clock none worker start).0 ≡ ok boot_rows
unfolding bootstrap schedule_all schedule_one recurring_job revived interval_types order_by enqueue
    find_by_dedup find get
first_bootstrap = refl

bootstrap_idempotent_example :
    (again : List (ScheduledJob Bool)) × ((bootstrap fresh true clock (some 7) worker booted).0
      ≡ ok again)
    × (length again ≡ length (interval_types worker))
    × (length (bootstrap fresh true clock (some 7) worker booted).1.jobs ≡ length booted.jobs)
bootstrap_idempotent_example =
    bootstrap_idempotent fresh true clock none (some 7) worker start boot_rows first_bootstrap
