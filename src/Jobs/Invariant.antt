-- ===== src/Jobs/Invariant.antt =====
-- What holds of the job table between two calls of ScheduledJobRepository.
use mathlib.Core.Option
use mathlib.Core.Path.{subst}
use zero_hdsc.Base.{
  ℕ, ◌≤◌, min, String, ◌≡◌, refl, sym, ap, ◌∙◌, inl, inr, Bool, true, false, ◌&&◌, Option, none,
  some, List, [], ◌∷◌, arith, leb, Bool-cases, Option-cases, update_where, updated,
}
use zero_hdsc.Domain.Jobs.{ScheduledJob, is_pending, is_running}
use zero_hdsc.Jobs.{
  Jobs, has_id, has_dedup, get, existing, enqueue, expedite, revive_missing_handler_dead_letter,
  lease_due, due_ids, lease_all, lease_one, claims, leased_row, eligible, reschedule,
  rescheduled_row, complete, completed_row, fail, failed_row,
}
use zero_hdsc.Jobs.Keys.{IsKeyed, KeepsId, IsKeyed-update, IsKeyed-append, get-update, get-append}
use zero_hdsc.Jobs.Dedup.{
  IsDeduped, KeepsDedup, IsDeduped-update, IsDeduped-append, enqueue-existing, enqueue_new,
  enqueue_clash,
}
use zero_hdsc.Jobs.Exclusion.{Kept, lease_due-Kept, IsKeyed-lease_due}

abbrev pub is_some {ℓ} : {A : Type ℓ} → Option A → Bool
is_some none = false
is_some (some a) = true

module _ {ℓ} {V : Type ℓ} where
  -- The attempts never pass the maximum, which is positive, and exactly the running rows are under
  -- a lease.
  pub record RowIsSound (r : ScheduledJob V) : Type 0 where
    pub attempts : r.attempt_count ≤ r.max_attempts
    pub allowed : 1 ≤ r.max_attempts
    pub leased : is_some r.leased_until_ms ≡ is_running r.status

  -- Ids and dedup keys are unique, and every row is sound.
  pub record IsSound (jobs : Jobs V) : Type ℓ where
    pub keyed : IsKeyed jobs
    pub deduped : IsDeduped jobs
    pub rows : (id : String) (r : ScheduledJob V) → get jobs id ≡ some r → RowIsSound r

  rows-update :
      (p : ScheduledJob V → Bool) (f : ScheduledJob V → ScheduledJob V) (jobs : Jobs V)
      → KeepsId f
      → ((r : ScheduledJob V) → p r ≡ true → RowIsSound r → RowIsSound (f r))
      → ((id : String) (r : ScheduledJob V) → get jobs id ≡ some r → RowIsSound r)
      → (id : String) (r : ScheduledJob V) → get (update_where p f jobs) id ≡ some r
      → RowIsSound r
  rows-update p f jobs keep step rows id r e = elim (Option-cases (get jobs id)) [
    | inl z ↦ absurd (
        Option.none-ne-some r
          (ap (Option.map (updated p f)) (sym z) ∙ (sym (get-update p f jobs id keep) ∙ e)))
    | inr (x, z) ↦
        let same : updated p f x ≡ r =
          Option.some-injective (updated p f x) r
            (ap (Option.map (updated p f)) (sym z) ∙ (sym (get-update p f jobs id keep) ∙ e)) in
        elim (Bool-cases (p x)) [
          | inl t ↦ subst RowIsSound (rw t at same) (step x t (rows id x z))
          | inr t ↦ subst RowIsSound (rw t at same) (rows id x z)
        ]
  ]

  pub IsSound-update :
      (p : ScheduledJob V → Bool) (f : ScheduledJob V → ScheduledJob V) (jobs : Jobs V)
      → KeepsId f
      → KeepsDedup f
      → ((r : ScheduledJob V) → p r ≡ true → RowIsSound r → RowIsSound (f r))
      → IsSound jobs
      → IsSound (update_where p f jobs)
  IsSound-update p f jobs ids dedups step h = record {
    keyed = IsKeyed-update p f jobs ids h.keyed;
    deduped = IsDeduped-update p f jobs dedups h.deduped;
    rows = rows-update p f jobs ids step h.rows;
  }

  pub enqueue-IsSound :
      (job : ScheduledJob V) (jobs : Jobs V)
      → RowIsSound job
      → IsSound jobs
      → IsSound (enqueue job jobs).1
  enqueue-IsSound job jobs s h = elim (Option-cases (existing jobs job.dedup_key)) [
    | inr (r, z) ↦ rw (enqueue-existing job r jobs z) h
    | inl z ↦ elim (Option-cases (get jobs job.id)) [
      | inr (r, y) ↦ subst IsSound (sym (enqueue_clash job r jobs z y)) h
      | inl y ↦ rw (enqueue_new job jobs z y) (record {
        keyed = IsKeyed-append jobs job y h.keyed;
        deduped = IsDeduped-append jobs job z h.deduped;
        rows = λ id r e. elim (Bool-cases (has_id id job)) [
          | inl t ↦
              subst RowIsSound
                (Option.some-injective job r (rw t at (sym (get-append jobs job id y) ∙ e))) s
          | inr t ↦ h.rows id r (rw t at (sym (get-append jobs job id y) ∙ e))
        ];
      })
    ]
  ]

  pub expedite-IsSound :
      (key : String) (due now : ℕ) (jobs : Jobs V)
      → IsSound jobs
      → IsSound (expedite key due now jobs).1
  unfolding expedite
  expedite-IsSound key due now jobs h =
      IsSound-update (λ job. has_dedup key job && is_pending job.status)
        (λ job. record job { due_at_ms = min job.due_at_ms due; updated_at_ms = now }) jobs
        (λ r. refl) (λ r. refl)
        (λ r t s. record { attempts = s.attempts; allowed = s.allowed; leased = s.leased }) h

  pub revive-IsSound :
      (id : String) (due now : ℕ) (jobs : Jobs V)
      → IsSound jobs
      → IsSound (revive_missing_handler_dead_letter id due now jobs).1
  unfolding revive_missing_handler_dead_letter
  revive-IsSound id due now jobs h =
      IsSound-update _ _ jobs (λ r. refl) (λ r. refl)
        (λ r t s. record { attempts = omega arith; allowed = s.allowed; leased = refl }) h

  pub reschedule-IsSound :
      (id : String) (due now : ℕ) (jobs : Jobs V)
      → IsSound jobs
      → IsSound (reschedule id due now jobs).1
  unfolding reschedule
  reschedule-IsSound id due now jobs h =
      IsSound-update (has_id id) (rescheduled_row due now) jobs (λ r. refl) (λ r. refl)
        (λ r t s. record { attempts = omega arith; allowed = s.allowed; leased = refl }) h

  pub complete-IsSound :
      (id : String) (now : ℕ) (jobs : Jobs V) → IsSound jobs → IsSound (complete id now jobs).1
  unfolding complete
  complete-IsSound id now jobs h =
      IsSound-update (has_id id) (completed_row now) jobs (λ r. refl) (λ r. refl)
        (λ r t s. record { attempts = s.attempts; allowed = s.allowed; leased = refl }) h

  failed_row-leased :
      (terminal : Bool) (error : String) (now retry_at : ℕ) (r : ScheduledJob V)
      → is_some (failed_row terminal error now retry_at r).leased_until_ms
        ≡ is_running (failed_row terminal error now retry_at r).status
  unfolding failed_row
  failed_row-leased true error now retry_at r = refl
  failed_row-leased false error now retry_at r = refl

  failed_row-IsSound :
      (terminal : Bool) (error : String) (now retry_at : ℕ) (r : ScheduledJob V)
      → RowIsSound r
      → RowIsSound (failed_row terminal error now retry_at r)
  unfolding failed_row
  failed_row-IsSound terminal error now retry_at r s = record {
    attempts = s.attempts;
    allowed = s.allowed;
    leased = failed_row-leased terminal error now retry_at r;
  }

  pub fail-IsSound :
      (id error : String) (now retry_at : ℕ) (jobs : Jobs V)
      → IsSound jobs
      → IsSound (fail id error now retry_at jobs).1
  fail-IsSound id error now retry_at jobs h = elim (Option-cases (get jobs id)) [
    | inl z ↦ unfold fail in rw (z, fail) h
    | inr (job, z) ↦
        let t = leb job.max_attempts job.attempt_count in
        let kept : IsSound (update_where (has_id id) (failed_row t error now retry_at) jobs) =
          IsSound-update (has_id id) (failed_row t error now retry_at) jobs
            (unfold failed_row in λ r. refl) (unfold failed_row in λ r. refl)
            (λ r e s. failed_row-IsSound t error now retry_at r s) h in
        unfold fail in rw (z, fail) kept
  ]

  leased_row-IsSound :
      (now lease : ℕ) (r : ScheduledJob V)
      → eligible now r ≡ true
      → RowIsSound r
      → RowIsSound (leased_row now lease r)
  unfolding leased_row eligible
  leased_row-IsSound now lease r e s = record {
    attempts = ground arith;
    allowed = s.allowed;
    leased = refl;
  }

  IsDeduped-lease_all :
      (now lease : ℕ) (ids : List String) (jobs : Jobs V)
      → IsDeduped jobs
      → IsDeduped (lease_all now lease ids jobs).1
  unfolding lease_all lease_one leased_row
  IsDeduped-lease_all now lease [] jobs h = h
  IsDeduped-lease_all now lease (id ∷ ids) jobs h =
      IsDeduped-lease_all now lease ids (lease_one now lease id jobs).1
        (IsDeduped-update (claims now id) (leased_row now lease) jobs (λ r. refl) h)

  rows-Kept :
      (now lease : ℕ) (old new : Jobs V) (id : String) (r : ScheduledJob V)
      → Kept now lease old new id
      → ((x : ScheduledJob V) → get old id ≡ some x → RowIsSound x)
      → get new id ≡ some r
      → RowIsSound r
  rows-Kept now lease old new id r (inl e) rows h = rows r (sym e ∙ h)
  rows-Kept now lease old new id r (inr (x, was, due, e)) rows h =
      subst RowIsSound (Option.some-injective (leased_row now lease x) r (sym e ∙ h))
        (leased_row-IsSound now lease x due (rows x was))

  pub lease_due-IsSound :
      (now lease limit : ℕ) (jobs : Jobs V)
      → 1 ≤ lease
      → IsSound jobs
      → IsSound (lease_due now lease limit jobs).1
  lease_due-IsSound now lease limit jobs p h = record {
    keyed = IsKeyed-lease_due now lease limit jobs h.keyed;
    deduped =
        unfold lease_due in IsDeduped-lease_all now lease (due_ids now limit jobs) jobs h.deduped;
    rows = λ id r e.
        rows-Kept now lease jobs (lease_due now lease limit jobs).1 id r
          (lease_due-Kept now lease limit jobs id p h.keyed) (h.rows id) e;
  }
