-- ===== src/Jobs/Keys.antt =====
-- The primary key of the job table: lookups by id after an UPDATE and an INSERT.
use mathlib.Core.Option
use mathlib.Core.Path.{subst}
use zero_hdsc.Base.{
  ℕ, String, ◌≡◌, refl, sym, ap, ◌∙◌, inl, inr, Bool, ◌&&◌, Option, none, some, [], ◌∷◌, ◌++◌,
  arith, if◌then◌else◌, Bool-cases, str_eq, eq_iff, eq_refl, All, All-imp, find, update_where,
  updated, rowcount, find-update_where,
}
use zero_hdsc.Domain.Jobs.{ScheduledJob}
use zero_hdsc.Jobs.{Jobs, has_id, get}

module _ {ℓ} {V : Type ℓ} where
  -- The update keeps the id column.
  abbrev pub KeepsId : (ScheduledJob V → ScheduledJob V) → Type ℓ
  KeepsId f = (r : ScheduledJob V) → (f r).id ≡ r.id

  -- No two rows share an id.
  abbrev pub IsKeyed : Jobs V → Type ℓ
  IsKeyed [] = Unit
  IsKeyed (r ∷ rs) = (get rs r.id ≡ none) × IsKeyed rs

  updated_id :
      (p : ScheduledJob V → Bool) (f : ScheduledJob V → ScheduledJob V) (r : ScheduledJob V)
      → KeepsId f
      → (updated p f r).id ≡ r.id
  updated_id p f r keep = elim (Bool-cases (p r)) [ inl t ↦ rw t (keep r) | inr t ↦ rw t ]

  pub get-update :
      (p : ScheduledJob V → Bool) (f : ScheduledJob V → ScheduledJob V) (jobs : Jobs V)
      (id : String)
      → KeepsId f
      → get (update_where p f jobs) id ≡ Option.map (updated p f) (get jobs id)
  unfolding get
  get-update p f jobs id keep =
      find-update_where (has_id id) p f jobs
        (λ r. ap (λ (i : String). str_eq i id) (updated_id p f r keep))

  pub get_id : (jobs : Jobs V) (id : String) (r : ScheduledJob V) → get jobs id ≡ some r → r.id ≡ id
  unfolding get find
  get_id [] id r h = cc
  get_id (x ∷ rs) id r h = ground (arith, eq_iff x.id id, get_id rs id r)

  pub IsKeyed-update :
      (p : ScheduledJob V → Bool) (f : ScheduledJob V → ScheduledJob V) (jobs : Jobs V)
      → KeepsId f
      → IsKeyed jobs
      → IsKeyed (update_where p f jobs)
  unfolding update_where
  IsKeyed-update p f [] keep h = tt
  IsKeyed-update p f (r ∷ rs) keep h = (
    rw (updated_id p f r keep) (rw (get-update p f rs r.id keep) (rw h.0)),
    IsKeyed-update p f rs keep h.1,
  )

  pub get-append :
      (jobs : Jobs V) (job : ScheduledJob V) (id : String)
      → get jobs job.id ≡ none
      → get (jobs ++ job ∷ []) id ≡ (if has_id id job then some job else get jobs id)
  unfolding get find
  get-append [] job id h = refl
  get-append (r ∷ rs) job id h =
      ground (arith, eq_iff r.id id, eq_iff job.id id, eq_iff r.id job.id, get-append rs job id)

  pub IsKeyed-append :
      (jobs : Jobs V) (job : ScheduledJob V)
      → get jobs job.id ≡ none
      → IsKeyed jobs
      → IsKeyed (jobs ++ job ∷ [])
  unfolding get find
  IsKeyed-append [] job h k = (refl, tt)
  IsKeyed-append (r ∷ rs) job h k = (
    ground (arith, eq_iff r.id job.id, eq_iff job.id r.id, get-append rs job r.id),
    IsKeyed-append rs job (ground arith) k.1,
  )

  get-cons :
      (x : ScheduledJob V) (rs : Jobs V) (r : ScheduledJob V)
      → get rs x.id ≡ none
      → get rs r.id ≡ some r
      → get (x ∷ rs) r.id ≡ some r
  get-cons x rs r h e = elim (Bool-cases (str_eq x.id r.id)) [
    | inl t ↦ absurd (Option.none-ne-some r (sym h ∙ ap (get rs) ((eq_iff x.id r.id).0 t) ∙ e))
    | inr t ↦ unfold get find in rw t e
  ]

  -- In a keyed table the lookup by a row's id finds that row.
  pub All-get : (jobs : Jobs V) → IsKeyed jobs → All (λ r. get jobs r.id ≡ some r) jobs
  All-get [] h = tt
  All-get (x ∷ rs) h = (
    unfold get find in rw (eq_refl x.id),
    All-imp (λ r. get rs r.id ≡ some r) (λ r. get (x ∷ rs) r.id ≡ some r) rs
        (λ r e. get-cons x rs r h.0 e) (All-get rs h.1),
  )

  abbrev hits : (ScheduledJob V → Bool) → Option (ScheduledJob V) → ℕ
  hits c none = 0
  hits c (some r) = if c r then 1 else 0

  rowcount_absent :
      (id : String) (c : ScheduledJob V → Bool) (jobs : Jobs V)
      → get jobs id ≡ none
      → rowcount (λ j. has_id id j && c j) jobs ≡ 0
  unfolding rowcount get find
  rowcount_absent id c [] h = refl
  rowcount_absent id c (r ∷ rs) h = ground (arith, rowcount_absent id c rs)

  rowcount_step :
      (id : String) (c : ScheduledJob V → Bool) (r : ScheduledJob V) (rs : Jobs V)
      → get rs r.id ≡ none
      → rowcount (λ j. has_id id j && c j) rs ≡ hits c (get rs id)
      → rowcount (λ j. has_id id j && c j) (r ∷ rs) ≡ hits c (get (r ∷ rs) id)
  rowcount_step id c r rs h ih = elim (Bool-cases (str_eq r.id id)) [
    | inl t ↦
        let z : rowcount (λ j. has_id id j && c j) rs ≡ 0 =
          rowcount_absent id c rs (subst (λ k. get rs k ≡ none) ((eq_iff r.id id).0 t) h) in
        unfold rowcount get find in ground arith
    | inr t ↦ unfold rowcount get find in ground arith
  ]

  -- An UPDATE by id changes one row at most: the one that the lookup finds.
  pub rowcount_keyed :
      (id : String) (c : ScheduledJob V → Bool) (jobs : Jobs V)
      → IsKeyed jobs
      → rowcount (λ j. has_id id j && c j) jobs ≡ hits c (get jobs id)
  rowcount_keyed id c [] h = unfold rowcount get find in refl
  rowcount_keyed id c (r ∷ rs) h = rowcount_step id c r rs h.0 (rowcount_keyed id c rs h.1)
