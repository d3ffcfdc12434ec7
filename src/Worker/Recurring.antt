-- ===== src/Worker/Recurring.antt =====
-- src/ssa/runtime/lifecycle.py: `bootstrap` is idempotent.
use mathlib.Core.Option
use mathlib.Core.Path.{subst}
use zero_hdsc.Base.{
  String, ℕ, suc, ◌≡◌, refl, sym, ap, ◌∙◌, inl, inr, Option, some, List, [], ◌∷◌, arith, Error,
  Result, ok, err, Result-cases, Option-cases, Bool-cases, All, All-imp, length, find-append_some,
  length-update_where,
}
use zero_hdsc.Domain.Jobs.{ScheduledJob, is_dead_letter}
use zero_hdsc.Jobs.{
  Jobs, has_dedup, get, find_by_dedup, existing, enqueue, revive_missing_handler_dead_letter,
}
use zero_hdsc.Jobs.Dedup.{
  find_by_dedup-update, enqueue-existing, enqueue_new, enqueue_clash, find_by_dedup-enqueue,
}
use zero_hdsc.Worker.{State, Worker}
use zero_hdsc.Worker.Bootstrap.{
  dedup_of, recurring_job, revived, prepend, schedule_one, schedule_all, interval_types, bootstrap,
}

module _ {ℓ} {V : Type ℓ} where
  abbrev HasKey : Jobs V → String → Type ℓ
  HasKey jobs key = (r : ScheduledJob V) × (find_by_dedup jobs key ≡ some r)

  HasKey-enqueue :
      (job : ScheduledJob V) (jobs : Jobs V) (key : String)
      → HasKey jobs key
      → HasKey (enqueue job jobs).1 key
  HasKey-enqueue job jobs key h = elim (Option-cases (existing jobs job.dedup_key)) [
    | inr (r, z) ↦ rw (enqueue-existing job r jobs z) h
    | inl z ↦ elim (Option-cases (get jobs job.id)) [
      | inr (r, y) ↦ rw (enqueue_clash job r jobs z y) h
      | inl y ↦ rw (enqueue_new job jobs z y) (
        h.0,
        unfold find_by_dedup in
            find-append_some (has_dedup key) jobs job h.0 (unfold find_by_dedup in h.1),
      )
    ]
  ]

  HasKey-revived :
      (stored : ScheduledJob V) (due now : ℕ) (jobs : Jobs V) (key : String)
      → HasKey jobs key
      → HasKey (revived stored due now jobs).1 key
  unfolding revived revive_missing_handler_dead_letter
  HasKey-revived stored due now jobs key h = elim (Bool-cases (is_dead_letter stored.status)) [
    | inl t ↦ rw t (_, find_by_dedup-update _ _ jobs key (λ r. refl) ∙ ap (Option.map _) h.1)
    | inr t ↦ rw t h
  ]

  length-revived :
      (stored : ScheduledJob V) (due now : ℕ) (jobs : Jobs V)
      → length (revived stored due now jobs).1 ≡ length jobs
  unfolding revived revive_missing_handler_dead_letter
  length-revived stored due now jobs = elim (Bool-cases (is_dead_letter stored.status)) [
    | inl t ↦ rw t (length-update_where _ _ jobs)
    | inr t ↦ rw t
  ]

module _ {ℓ} {V W : Type ℓ} (fresh : ℕ → String) (recurring : V) (w : Worker V W)
    (due now : ℕ) where
  abbrev one : String → State V W → Result (ScheduledJob V) × State V W
  one = schedule_one fresh recurring w due now

  abbrev all : List String → State V W → Result (List (ScheduledJob V)) × State V W
  all = schedule_all fresh recurring w due now

  abbrev key_of : String → String
  key_of t = dedup_of w.conversation_id t

  abbrev job_of : String → State V W → ScheduledJob V
  job_of t s = recurring_job fresh recurring w (fresh s.ids) t due now

  HasKey-one : (t key : String) (s : State V W) → HasKey s.jobs key → HasKey (one t s).1.jobs key
  HasKey-one t key s h =
      let e = HasKey-enqueue (job_of t s) s.jobs key h in
      elim (Result-cases (enqueue (job_of t s) s.jobs).0) [
        | inr (x, z) ↦ unfold schedule_one in rw (z, schedule_one) e
        | inl (r, z) ↦
            unfold schedule_one in rw (z, schedule_one) (HasKey-revived r due now _ key e)
      ]

  enqueue-present :
      (t : String) (s : State V W) (r : ScheduledJob V)
      → find_by_dedup s.jobs (key_of t) ≡ some r
      → enqueue (job_of t s) s.jobs ≡ (ok r, s.jobs)
  unfolding recurring_job
  enqueue-present t s r h = enqueue-existing (job_of t s) r s.jobs h

  one-present :
      (t : String) (s : State V W)
      → HasKey s.jobs (key_of t)
      → (row : ScheduledJob V) × ((one t s).0 ≡ ok row) × (length (one t s).1.jobs ≡ length s.jobs)
  unfolding schedule_one
  one-present t s (r, h) = (
    (revived r due now s.jobs).0,
    ground (arith, enqueue-present t s r h),
    let e = length-revived r due now s.jobs in ground (arith, enqueue-present t s r h, e),
  )

  HasKey-enqueue_self :
      (t : String) (s : State V W) (r : ScheduledJob V)
      → (enqueue (job_of t s) s.jobs).0 ≡ ok r
      → HasKey (enqueue (job_of t s) s.jobs).1 (key_of t)
  HasKey-enqueue_self t s r z = (
    r,
    find_by_dedup-enqueue (job_of t s) r (key_of t) s.jobs (enqueue (job_of t s) s.jobs).1
        (unfold recurring_job in refl) (λ i. (z i, (enqueue (job_of t s) s.jobs).1)),
  )

  HasKey-one_self :
      (t : String) (s : State V W) (row : ScheduledJob V)
      → (one t s).0 ≡ ok row
      → HasKey (one t s).1.jobs (key_of t)
  HasKey-one_self t s row h = elim (Result-cases (enqueue (job_of t s) s.jobs).0) [
    | inr (x, z) ↦ unfold schedule_one in ground (arith, z, h)
    | inl (r, z) ↦
        let e = HasKey-enqueue_self t s r z in
        unfold schedule_one in rw (z, schedule_one) (HasKey-revived r due now _ (key_of t) e)
  ]

  all-raised :
      (t : String) (ts : List String) (s : State V W) (e : Error)
      → (one t s).0 ≡ err e
      → all (t ∷ ts) s ≡ (err e, (one t s).1)
  unfolding schedule_all
  all-raised t ts s e h = ground arith

  all-cons :
      (t : String) (ts : List String) (s : State V W) (row : ScheduledJob V)
      → (one t s).0 ≡ ok row
      → all (t ∷ ts) s ≡ (prepend row (all ts (one t s).1).0, (all ts (one t s).1).1)
  unfolding schedule_all
  all-cons t ts s row h = ground arith

  HasKey-all :
      (ts : List String) (key : String) (s : State V W)
      → HasKey s.jobs key
      → HasKey (all ts s).1.jobs key
  HasKey-all [] key s h = unfold schedule_all in h
  HasKey-all (t ∷ ts) key s h =
      let mid = HasKey-one t key s h in
      elim (Result-cases (one t s).0) [
        | inr (e, z) ↦ rw (all-raised t ts s e z) mid
        | inl (row, z) ↦ rw (all-cons t ts s row z) (HasKey-all ts key (one t s).1 mid)
      ]

  abbrev AllKeys : List String → State V W → Type ℓ
  AllKeys ts s = All (λ t. HasKey s.jobs (key_of t)) ts

  -- When the loop returns, every type has its row.
  AllKeys-all :
      (ts : List String) (s : State V W) (rows : List (ScheduledJob V))
      → (all ts s).0 ≡ ok rows
      → AllKeys ts (all ts s).1
  AllKeys-all [] s rows h = tt
  AllKeys-all (t ∷ ts) s rows h = elim (Result-cases (one t s).0) [
    | inr (e, z) ↦ let same = all-raised t ts s e z in ground (arith, same)
    | inl (row, z) ↦
        let same = all-cons t ts s row z in
        subst (λ (x : Result (List (ScheduledJob V)) × State V W). AllKeys (t ∷ ts) x.1) (sym same)
          (
            HasKey-all ts (key_of t) (one t s).1 (HasKey-one_self t s row z),
            elim (Result-cases (all ts (one t s).1).0) [
              | inl (rest, y) ↦ AllKeys-all ts (one t s).1 rest y
              | inr (e, y) ↦ ground (arith, same, y)
            ],
          )
  ]

  -- Where every type has its row, the loop returns and inserts nothing.
  all-present :
      (ts : List String) (s : State V W)
      → AllKeys ts s
      → (rows : List (ScheduledJob V)) × ((all ts s).0 ≡ ok rows)
        × (length rows ≡ length ts)
        × (length (all ts s).1.jobs ≡ length s.jobs)
  all-present [] s h = ([], unfold schedule_all in refl, refl, unfold schedule_all in refl)
  all-present (t ∷ ts) s h =
      let (row, z, kept) = one-present t s h.0 in
      let (rows, y, n, kept') = all-present ts (one t s).1 (
        All-imp (λ u. HasKey s.jobs (key_of u)) (λ u. HasKey (one t s).1.jobs (key_of u)) ts
          (λ u k. HasKey-one t (key_of u) s k) h.1) in
      let same = all-cons t ts s row z in
      (row ∷ rows, rw same (rw y), ap suc n, rw same (kept' ∙ kept))

module _ {ℓ} {V W : Type ℓ} (fresh : ℕ → String) (recurring : V) (times : ℕ → ℕ) where
  -- Once `bootstrap` has returned, another `bootstrap`, with any first due time, returns one row
  -- for each recurring job type and inserts none.
  pub bootstrap_idempotent :
      (due due' : Option ℕ) (w : Worker V W) (s : State V W) (rows : List (ScheduledJob V))
      → (bootstrap fresh recurring times due w s).0 ≡ ok rows
      → let s' = (bootstrap fresh recurring times due w s).1 in
        (again : List (ScheduledJob V)) × ((bootstrap fresh recurring times due' w s').0 ≡ ok again)
        × (length again ≡ length (interval_types w))
        × (length (bootstrap fresh recurring times due' w s').1.jobs ≡ length s'.jobs)
  unfolding bootstrap
  bootstrap_idempotent due due' w s rows h =
      let s' = (bootstrap fresh recurring times due w s).1 in
      all-present fresh recurring w _ (times s'.reads) (interval_types w) _
        (AllKeys-all fresh recurring w _ (times s.reads) (interval_types w) _ rows h)
