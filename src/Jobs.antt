-- ===== src/Jobs.antt =====
-- src/ssa/storage/lifecycle_repository.py: ScheduledJobRepository. The table is the list of its
-- rows; a method returns its result, or what it raises, with the table that it leaves.
use Prim.Native.String
pub mod Keys
pub mod Lease
pub mod Claims
pub mod Due
pub mod Exclusion
pub mod Dedup
pub mod Invariant
pub mod Calls
pub mod Retries
pub mod Progress
pub mod Settled
mod Examples
use Prim.Native.Char.{code}
use zero_hdsc.Base.{
  ℕ, ◌+◌, ◌-◌, ◌≤◌, min, String, ◌≡◌, Bool, true, false, ◌&&◌, ◌||◌, Option, none, some, List, [],
  ◌∷◌, ◌++◌, map, ltb, leb, ◌==◌, if◌then◌else◌, str_eq, take, Error, unknown_row, integrity_error,
  Result, ok, err, or_raise, find, select, update_where, rowcount, order_by,
}
use zero_hdsc.Domain.Jobs.{
  ScheduledJob, JobStatus, pending, running, done, dead_letter, is_pending, is_running,
  is_dead_letter,
}

abbrev pub opt_leb : Option ℕ → ℕ → Bool
opt_leb none n = false
opt_leb (some m) n = leb m n

-- The ASCII letters A to Z and a to z are one to LIKE.
abbrev lower : ℕ → ℕ
lower c = if leb 65 c && leb c 90 then c + 32 else c

-- text LIKE 'prefix%', for a prefix with neither % nor _
unfoldable pub like_prefix : String → String → Bool
like_prefix String.[] text = true
like_prefix (String.◌∷◌ c cs) String.[] = false
like_prefix (String.◌∷◌ c cs) (String.◌∷◌ d ds) =
    lower (code c) == lower (code d) && like_prefix cs ds

abbrev pub missing_handler : String
missing_handler = "LookupError: no lifecycle handler registered"

unfoldable pub died_of_missing_handler : Option String → Bool
unfolding like_prefix
died_of_missing_handler none = false
died_of_missing_handler (some text) = like_prefix missing_handler text

abbrev pub Jobs {ℓ} : Type ℓ → Type ℓ
Jobs V = List (ScheduledJob V)

module _ {ℓ} {V : Type ℓ} where
  abbrev pub has_id : String → ScheduledJob V → Bool
  has_id id job = str_eq job.id id

  abbrev pub has_dedup : String → ScheduledJob V → Bool
  has_dedup key job = elim job.dedup_key [ none ↦ false | some k ↦ str_eq k key ]

  unfoldable pub get : Jobs V → String → Option (ScheduledJob V)
  get jobs id = find (has_id id) jobs

  unfoldable pub find_by_dedup : Jobs V → String → Option (ScheduledJob V)
  find_by_dedup jobs key = find (has_dedup key) jobs

  abbrev pub existing : Jobs V → Option String → Option (ScheduledJob V)
  existing jobs none = none
  existing jobs (some key) = find_by_dedup jobs key

  -- INSERT. The primary key is checked; the unique index on dedup_key cannot fail after the lookup
  -- that `enqueue` makes.
  unfoldable pub insert : ScheduledJob V → Jobs V → Result (ScheduledJob V) × Jobs V
  insert job jobs = elim (get jobs job.id) [
    | some _ ↦ (err (integrity_error "UNIQUE constraint failed: scheduled_jobs.id"), jobs)
    | none ↦ (ok job, jobs ++ job ∷ [])
  ]

  unfoldable pub enqueue : ScheduledJob V → Jobs V → Result (ScheduledJob V) × Jobs V
  unfolding insert
  enqueue job jobs = elim (existing jobs job.dedup_key) [
    | some stored ↦ (ok stored, jobs)
    | none ↦ insert job jobs
  ]

  unfoldable pub revive_missing_handler_dead_letter :
      String → ℕ → ℕ → Jobs V → Option (ScheduledJob V) × Jobs V
  revive_missing_handler_dead_letter id due now jobs =
      let jobs' =
        update_where
          (λ job.
            has_id id job && is_dead_letter job.status && died_of_missing_handler job.last_error)
          (λ job. record job {
            status = pending;
            due_at_ms = due;
            attempt_count = 0;
            last_error = none;
            leased_until_ms = none;
            completed_at_ms = none;
            updated_at_ms = now;
          })
          jobs in
      (get jobs' id, jobs')

  unfoldable pub expedite : String → ℕ → ℕ → Jobs V → Option (ScheduledJob V) × Jobs V
  expedite key due now jobs =
      let jobs' =
        update_where (λ job. has_dedup key job && is_pending job.status)
          (λ job. record job { due_at_ms = min job.due_at_ms due; updated_at_ms = now }) jobs in
      (find_by_dedup jobs' key, jobs')

  -- The condition on status and times that the SELECT and the UPDATE of `lease_due` share.
  unfoldable pub claimable : ℕ → ScheduledJob V → Bool
  claimable now job =
      (is_pending job.status && leb job.due_at_ms now)
      || (is_running job.status && opt_leb job.leased_until_ms now)

  unfoldable pub eligible : ℕ → ScheduledJob V → Bool
  eligible now job = claimable now job && ltb job.attempt_count job.max_attempts

  -- ORDER BY due_at_ms, created_at_ms
  abbrev pub before : ScheduledJob V → ScheduledJob V → Bool
  before a b =
      ltb a.due_at_ms b.due_at_ms
      || (a.due_at_ms == b.due_at_ms && ltb a.created_at_ms b.created_at_ms)

  unfoldable pub due_ids : ℕ → ℕ → Jobs V → List String
  due_ids now limit jobs =
      map (λ job. job.id) (take limit (order_by before (select (eligible now) jobs)))

  unfoldable pub leased_row : ℕ → ℕ → ScheduledJob V → ScheduledJob V
  leased_row now lease job = record job {
    status = running;
    leased_until_ms = some (now + lease);
    attempt_count = job.attempt_count + 1;
    updated_at_ms = now;
  }

  abbrev pub claims : ℕ → String → ScheduledJob V → Bool
  claims now id job = has_id id job && claimable now job

  -- One round of the loop: the UPDATE, and the row read back if it changed exactly one.
  unfoldable pub lease_one : ℕ → ℕ → String → Jobs V → Option (ScheduledJob V) × Jobs V
  lease_one now lease id jobs =
      let jobs' = update_where (claims now id) (leased_row now lease) jobs in
      (if rowcount (claims now id) jobs == 1 then get jobs' id else none, jobs')

  abbrev pub collect : Option (ScheduledJob V) → List (ScheduledJob V) → List (ScheduledJob V)
  collect none rest = rest
  collect (some job) rest = job ∷ rest

  unfoldable pub lease_all : ℕ → ℕ → List String → Jobs V → List (ScheduledJob V) × Jobs V
  lease_all now lease [] jobs = ([], jobs)
  lease_all now lease (id ∷ ids) jobs =
      let (got, jobs') = lease_one now lease id jobs in
      let (rest, jobs'') = lease_all now lease ids jobs' in (collect got rest, jobs'')

  unfoldable pub lease_due : ℕ → ℕ → ℕ → Jobs V → List (ScheduledJob V) × Jobs V
  unfolding lease_all lease_one due_ids
  lease_due now lease limit jobs = lease_all now lease (due_ids now limit jobs) jobs

  abbrev pub read_back : Jobs V → String → Result (ScheduledJob V) × Jobs V
  read_back jobs id = (or_raise (get jobs id) (unknown_row "job" id), jobs)

  unfoldable pub rescheduled_row : ℕ → ℕ → ScheduledJob V → ScheduledJob V
  rescheduled_row due now job = record job {
    status = pending;
    due_at_ms = due;
    leased_until_ms = none;
    attempt_count = 0;
    last_error = none;
    completed_at_ms = none;
    updated_at_ms = now;
  }

  unfoldable pub reschedule : String → ℕ → ℕ → Jobs V → Result (ScheduledJob V) × Jobs V
  unfolding rescheduled_row
  reschedule id due now jobs =
      read_back (update_where (has_id id) (rescheduled_row due now) jobs) id

  unfoldable pub completed_row : ℕ → ScheduledJob V → ScheduledJob V
  completed_row now job = record job {
    status = done;
    completed_at_ms = some now;
    leased_until_ms = none;
    updated_at_ms = now;
  }

  unfoldable pub complete : String → ℕ → Jobs V → Result (ScheduledJob V) × Jobs V
  unfolding completed_row
  complete id now jobs = read_back (update_where (has_id id) (completed_row now) jobs) id

  unfoldable pub failed_row : Bool → String → ℕ → ℕ → ScheduledJob V → ScheduledJob V
  failed_row terminal error now retry_at job = record job {
    status = if terminal then dead_letter else pending;
    last_error = some error;
    due_at_ms = retry_at;
    leased_until_ms = none;
    updated_at_ms = now;
  }

  unfoldable pub fail : String → String → ℕ → ℕ → Jobs V → Result (ScheduledJob V) × Jobs V
  unfolding failed_row
  fail id error now retry_at jobs = elim (get jobs id) [
    | none ↦ (err (unknown_row "job" id), jobs)
    | some job ↦
        let terminal = leb job.max_attempts job.attempt_count in
        read_back (update_where (has_id id) (failed_row terminal error now retry_at) jobs) id
  ]
