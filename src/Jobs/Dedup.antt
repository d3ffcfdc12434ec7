-- ===== src/Jobs/Dedup.antt =====
-- The unique index on dedup_key of the job table, and the idempotence of `enqueue`.
use mathlib.Core.Option
use zero_hdsc.Base.{
  String, ◌≡◌, refl, ap, ◌∙◌, inl, inr, Bool, false, Option, none, some, [], ◌∷◌, ◌++◌, arith,
  if◌then◌else◌, Bool-cases, Option-cases, str_eq, eq_iff, eq_refl, ok, find, update_where, updated,
  find-update_where,
}
use zero_hdsc.Domain.Jobs.{ScheduledJob}
use zero_hdsc.Jobs.{Jobs, has_dedup, get, find_by_dedup, existing, enqueue}

module _ {ℓ} {V : Type ℓ} where
  -- No two rows share a dedup key.
  abbrev pub IsDeduped : Jobs V → Type ℓ
  IsDeduped [] = Unit
  IsDeduped (r ∷ rs) = (existing rs r.dedup_key ≡ none) × IsDeduped rs

  abbrev pub KeepsDedup : (ScheduledJob V → ScheduledJob V) → Type ℓ
  KeepsDedup f = (r : ScheduledJob V) → (f r).dedup_key ≡ r.dedup_key

  updated_dedup :
      (p : ScheduledJob V → Bool) (f : ScheduledJob V → ScheduledJob V) (r : ScheduledJob V)
      → KeepsDedup f
      → (updated p f r).dedup_key ≡ r.dedup_key
  updated_dedup p f r keep = elim (Bool-cases (p r)) [ inl t ↦ rw t (keep r) | inr t ↦ rw t ]

  pub find_by_dedup-update :
      (p : ScheduledJob V → Bool) (f : ScheduledJob V → ScheduledJob V) (jobs : Jobs V)
      (key : String)
      → KeepsDedup f
      → find_by_dedup (update_where p f jobs) key
        ≡ Option.map (updated p f) (find_by_dedup jobs key)
  unfolding find_by_dedup
  find_by_dedup-update p f jobs key keep = find-update_where (has_dedup key) p f jobs (λ r.
      ap (λ (d : Option String). elim d [ none ↦ false | some k ↦ str_eq k key ])
        (updated_dedup p f r keep))

  existing-update :
      (p : ScheduledJob V → Bool) (f : ScheduledJob V → ScheduledJob V) (jobs : Jobs V)
      (d : Option String)
      → KeepsDedup f
      → existing jobs d ≡ none
      → existing (update_where p f jobs) d ≡ none
  existing-update p f jobs none keep h = refl
  existing-update p f jobs (some key) keep h = find_by_dedup-update p f jobs key keep ∙ rw h

  pub IsDeduped-update :
      (p : ScheduledJob V → Bool) (f : ScheduledJob V → ScheduledJob V) (jobs : Jobs V)
      → KeepsDedup f
      → IsDeduped jobs
      → IsDeduped (update_where p f jobs)
  unfolding update_where
  IsDeduped-update p f [] keep h = tt
  IsDeduped-update p f (r ∷ rs) keep h = (
    rw (updated_dedup p f r keep) (existing-update p f rs r.dedup_key keep h.0),
    IsDeduped-update p f rs keep h.1,
  )

  -- A new row at the end is found where no row had its key.
  existing-append :
      (jobs : Jobs V) (job : ScheduledJob V) (key : String)
      → find_by_dedup jobs key ≡ none
      → find_by_dedup (jobs ++ job ∷ []) key ≡ (if has_dedup key job then some job else none)
  unfolding find_by_dedup find
  existing-append [] job key h = refl
  existing-append (r ∷ rs) job key h = ground (arith, existing-append rs job key)

  -- What two rows with one key would say of each other.
  other_key :
      (r job : ScheduledJob V) (rs : Jobs V)
      → existing rs r.dedup_key ≡ none
      → existing (r ∷ rs) job.dedup_key ≡ none
      → existing (rs ++ job ∷ []) r.dedup_key ≡ none
  other_key r job rs h e = elim (Option-cases r.dedup_key) [
    | inl z ↦ rw z
    | inr (k, z) ↦
        let h' : find_by_dedup rs k ≡ none = rw z at h in
        rw z (
          existing-append rs job k h' ∙ (elim (Option-cases job.dedup_key) [
            | inl y ↦ rw y
            | inr (j, y) ↦
                let e' : find_by_dedup (r ∷ rs) j ≡ none = rw y at e in
                rw y (unfold find_by_dedup find in ground (arith, eq_iff k j, eq_iff j k))
          ]))
  ]

  existing-tail :
      (r : ScheduledJob V) (rs : Jobs V) (d : Option String)
      → existing (r ∷ rs) d ≡ none
      → existing rs d ≡ none
  unfolding find_by_dedup find
  existing-tail r rs none h = refl
  existing-tail r rs (some key) h = ground arith

  pub IsDeduped-append :
      (jobs : Jobs V) (job : ScheduledJob V)
      → existing jobs job.dedup_key ≡ none
      → IsDeduped jobs
      → IsDeduped (jobs ++ job ∷ [])
  IsDeduped-append [] job e h = (
    elim (Option-cases job.dedup_key) [
      | inl z ↦ rw z
      | inr (k, z) ↦ unfold find_by_dedup find in rw z
    ],
    tt,
  )
  IsDeduped-append (r ∷ rs) job e h =
      (other_key r job rs h.0 e, IsDeduped-append rs job (existing-tail r rs job.dedup_key e) h.1)

  pub enqueue-existing :
      (job stored : ScheduledJob V) (jobs : Jobs V)
      → existing jobs job.dedup_key ≡ some stored
      → enqueue job jobs ≡ (ok stored, jobs)
  unfolding enqueue
  enqueue-existing job stored jobs h = ground arith

  pub enqueue_new :
      (job : ScheduledJob V) (jobs : Jobs V)
      → existing jobs job.dedup_key ≡ none
      → get jobs job.id ≡ none
      → enqueue job jobs ≡ (ok job, jobs ++ job ∷ [])
  unfolding enqueue
  enqueue_new job jobs h k = ground arith

  pub enqueue_clash :
      (job r : ScheduledJob V) (jobs : Jobs V)
      → existing jobs job.dedup_key ≡ none
      → get jobs job.id ≡ some r
      → (enqueue job jobs).1 ≡ jobs
  unfolding enqueue
  enqueue_clash job r jobs h k = ground arith

  -- What `enqueue` returns is what the table then stores under the dedup key.
  pub find_by_dedup-enqueue :
      (job stored : ScheduledJob V) (key : String) (jobs jobs' : Jobs V)
      → job.dedup_key ≡ some key
      → enqueue job jobs ≡ (ok stored, jobs')
      → find_by_dedup jobs' key ≡ some stored
  unfolding enqueue
  find_by_dedup-enqueue job stored key jobs jobs' d h =
      elim (Option-cases (find_by_dedup jobs key)) [
        | inl z ↦ elim (Option-cases (get jobs job.id)) [
          | inl y ↦ ground (arith, existing-append jobs job key, eq_refl key)
          | inr (r, y) ↦ ground arith
        ]
        | inr (r, z) ↦ ground arith
      ]

  -- After `enqueue` of a job with a dedup key, another `enqueue` under the same key returns the
  -- row that the first returned, and stores nothing.
  pub enqueue_idempotent :
      (job again stored : ScheduledJob V) (key : String) (jobs jobs' : Jobs V)
      → job.dedup_key ≡ some key
      → again.dedup_key ≡ some key
      → enqueue job jobs ≡ (ok stored, jobs')
      → enqueue again jobs' ≡ (ok stored, jobs')
  enqueue_idempotent job again stored key jobs jobs' d e h =
      let found : existing jobs' (some key) ≡ some stored =
        find_by_dedup-enqueue job stored key jobs jobs' d h in
      enqueue-existing again stored jobs' (ap (existing jobs') e ∙ found)
