-- ===== src/Jobs/Settled.antt =====
-- `reschedule`, `complete` and `fail` of ScheduledJobRepository end the run of a job.
use mathlib.Core.Option
use mathlib.Core.Path.{subst}
use zero_hdsc.Base.{
  min, ◌&&◌, List, [], ◌∷◌, String, ℕ, ◌≡◌, refl, sym, ap, ◌∙◌, ◌⊎◌, inl, inr, Bool, true, false,
  none, some, arith, unknown_row, err, Option-cases, Bool-cases, leb, update_where, updated, eq_iff,
}
use zero_hdsc.Domain.Jobs.{ScheduledJob, is_running, is_pending}
use zero_hdsc.Jobs.{
  Jobs, has_id, has_dedup, expedite, get, reschedule, rescheduled_row, complete, completed_row,
  fail, failed_row,
}
use zero_hdsc.Jobs.Keys.{KeepsId, get-update, get_id}
use zero_hdsc.Jobs.Retries.{fail-found}

module _ {ℓ} {V : Type ℓ} where
  -- The row is not running, and under no lease.
  pub record RowIsSettled (r : ScheduledJob V) : Type 0 where
    pub idle : is_running r.status ≡ false
    pub free : r.leased_until_ms ≡ none

  -- The row under the id, if there is one, is settled.
  abbrev pub IsSettled : Jobs V → String → Type ℓ
  IsSettled jobs k = (r : ScheduledJob V) → get jobs k ≡ some r → RowIsSettled r

  IsSettled-update :
      (id k : String) (f : ScheduledJob V → ScheduledJob V) (jobs : Jobs V)
      → KeepsId f
      → ((r : ScheduledJob V) → RowIsSettled (f r))
      → IsSettled jobs k ⊎ (k ≡ id)
      → IsSettled (update_where (has_id id) f jobs) k
  IsSettled-update id k f jobs keep settles h r e = elim (Option-cases (get jobs k)) [
    | inl z ↦ absurd (
        Option.none-ne-some r (
          ap (Option.map (updated (has_id id) f)) (sym z)
          ∙ (sym (get-update (has_id id) f jobs k keep) ∙ e)))
    | inr (x, z) ↦
        let same : updated (has_id id) f x ≡ r = Option.some-injective (updated (has_id id) f x) r (
          ap (Option.map (updated (has_id id) f)) (sym z)
          ∙ (sym (get-update (has_id id) f jobs k keep) ∙ e)) in
        elim (Bool-cases (has_id id x)) [
          | inl t ↦ subst RowIsSettled (rw t at same) (settles x)
          | inr t ↦ elim h [
            | inl old ↦ subst RowIsSettled (rw t at same) (old x z)
            | inr q ↦ absurd (differs x t (get_id jobs k x z ∙ q))
          ]
        ]
  ]
    where
      differs : (x : ScheduledJob V) → has_id id x ≡ false → x.id ≡ id → ⊥
      differs x t q = ground (arith, eq_iff x.id id)

  failed_row-settled :
      (t : Bool) (error : String) (now retry_at : ℕ) (r : ScheduledJob V)
      → RowIsSettled (failed_row t error now retry_at r)
  unfolding failed_row
  failed_row-settled true error now retry_at r = record { idle = refl; free = refl }
  failed_row-settled false error now retry_at r = record { idle = refl; free = refl }

  pub reschedule-IsSettled :
      (id k : String) (due now : ℕ) (jobs : Jobs V)
      → IsSettled jobs k ⊎ (k ≡ id)
      → IsSettled (reschedule id due now jobs).1 k
  unfolding reschedule
  reschedule-IsSettled id k due now jobs =
      IsSettled-update id k (rescheduled_row due now) jobs (λ r. refl)
        (λ r. record { idle = refl; free = refl })

  pub complete-IsSettled :
      (id k : String) (now : ℕ) (jobs : Jobs V)
      → IsSettled jobs k ⊎ (k ≡ id)
      → IsSettled (complete id now jobs).1 k
  unfolding complete
  complete-IsSettled id k now jobs =
      IsSettled-update id k (completed_row now) jobs (λ r. refl)
        (λ r. record { idle = refl; free = refl })

  fail-absent :
      (id error : String) (now retry_at : ℕ) (jobs : Jobs V)
      → get jobs id ≡ none
      → fail id error now retry_at jobs ≡ (err (unknown_row "job" id), jobs)
  unfolding fail
  fail-absent id error now retry_at jobs h = ground arith

  absent-IsSettled :
      (id k : String) (jobs : Jobs V)
      → get jobs id ≡ none
      → IsSettled jobs k ⊎ (k ≡ id)
      → IsSettled jobs k
  absent-IsSettled id k jobs z (inl h) r e = h r e
  absent-IsSettled id k jobs z (inr q) r e =
      absurd (Option.none-ne-some r (sym z ∙ (ap (get jobs) (sym q) ∙ e)))

  pub fail-IsSettled :
      (id error k : String) (now retry_at : ℕ) (jobs : Jobs V)
      → IsSettled jobs k ⊎ (k ≡ id)
      → IsSettled (fail id error now retry_at jobs).1 k
  fail-IsSettled id error k now retry_at jobs h = elim (Option-cases (get jobs id)) [
    | inl z ↦ rw (fail-absent id error now retry_at jobs z) (absent-IsSettled id k jobs z h)
    | inr (job, z) ↦ rw (fail-found id error now retry_at jobs job z) (
        IsSettled-update id k
          (failed_row (leb job.max_attempts job.attempt_count) error now retry_at) jobs
          (unfold failed_row in λ r. refl) (failed_row-settled _ error now retry_at) h)
  ]

  expedited_settled :
      (key : String) (due now : ℕ) (x : ScheduledJob V)
      → RowIsSettled x
      → RowIsSettled (
          updated
            (λ job. has_dedup key job && is_pending job.status)
            (λ job. record job { due_at_ms = min job.due_at_ms due; updated_at_ms = now })
            x)
  expedited_settled key due now x h = elim (Bool-cases (has_dedup key x && is_pending x.status)) [
    | inl t ↦ rw t (record { idle = h.idle; free = h.free })
    | inr t ↦ rw t h
  ]

  pub expedite-IsSettled :
      (key k : String) (due now : ℕ) (jobs : Jobs V)
      → IsSettled jobs k
      → IsSettled (expedite key due now jobs).1 k
  unfolding expedite
  expedite-IsSettled key k due now jobs h r e =
      let p = λ (job : ScheduledJob V). has_dedup key job && is_pending job.status in
      let f = λ (job : ScheduledJob V). record job {
        due_at_ms = min job.due_at_ms due;
        updated_at_ms = now;
      } in
      let found = sym (get-update p f jobs k (λ x. refl)) ∙ e in
      elim (Option-cases (get jobs k)) [
        | inl z ↦ absurd (Option.none-ne-some r (ap (Option.map (updated p f)) (sym z) ∙ found))
        | inr (x, z) ↦
            subst RowIsSettled
              (Option.some-injective (updated p f x) r
                (ap (Option.map (updated p f)) (sym z) ∙ found))
              (expedited_settled key due now x (h x z))
      ]

  -- Calls of `expedite`, one after the other, by their arguments.
  abbrev pub expedite_all : List (String × (ℕ × ℕ)) → Jobs V → Jobs V
  expedite_all [] jobs = jobs
  expedite_all ((key, (due, now)) ∷ calls) jobs = expedite_all calls (expedite key due now jobs).1

  pub expedite_all-IsSettled :
      (calls : List (String × (ℕ × ℕ))) (k : String) (jobs : Jobs V)
      → IsSettled jobs k
      → IsSettled (expedite_all calls jobs) k
  expedite_all-IsSettled [] k jobs h = h
  expedite_all-IsSettled ((key, (due, now)) ∷ calls) k jobs h =
      expedite_all-IsSettled calls k (expedite key due now jobs).1
        (expedite-IsSettled key k due now jobs h)
