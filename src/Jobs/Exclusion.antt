-- ===== src/Jobs/Exclusion.antt =====
-- `lease_due` of ScheduledJobRepository: what it leaves alone, that a lease excludes other workers
-- until it runs out, and that a job with no attempts left is never leased again.
use mathlib.Core.Option
use mathlib.Core.Path.{subst}
use zero_hdsc.Base.{
  ℕ, ◌+◌, ◌≤◌, ◌<◌, String, ◌≡◌, ◌≢◌, refl, sym, ap, ◌∙◌, ◌⊎◌, inl, inr, true, false, some, List,
  [], ◌∷◌, arith, Bool-cases, Option-cases, eq_iff, All, All-imp,
}
use zero_hdsc.Domain.Jobs.{ScheduledJob}
use zero_hdsc.Jobs.{
  Jobs, get, claimable, eligible, claims, due_ids, leased_row, lease_one, lease_all, lease_due,
}
use zero_hdsc.Jobs.Keys.{IsKeyed, get_id}
use zero_hdsc.Jobs.Lease.{
  IsLeased, HasAttempts, IsKeyed-lease_all, get-lease_one, leased_not_claimable,
  unclaimed-lease_all,
}
use zero_hdsc.Jobs.Claims.{AllHasAttempts-lease_one}
use zero_hdsc.Jobs.Due.{due_ids-HasAttempts, lease_due-IsLeased}

module _ {ℓ} {V : Type ℓ} (now lease : ℕ) where
  -- The row under an id after the loop: as it was, or leased from a row with attempts left.
  abbrev pub Kept : Jobs V → Jobs V → String → Type ℓ
  Kept old new k =
      (get new k ≡ get old k)
      ⊎ ((r : ScheduledJob V) × (get old k ≡ some r)
          × (eligible now r ≡ true)
          × (get new k ≡ some (leased_row now lease r)))

  -- One round, by what it does to the row under `k`.
  lease_one-Kept :
      (id k : String) (jobs : Jobs V)
      → HasAttempts now lease jobs id
      → Kept jobs (lease_one now lease id jobs).1 k
  lease_one-Kept id k jobs a = elim (Option-cases (get jobs k)) [
    | inl z ↦ inl (get-lease_one now lease id k jobs ∙ rw z)
    | inr (r, z) ↦ elim (Bool-cases (claims now id r)) [
      | inl t ↦ inr (
        r,
        z,
        a r
            (subst (λ i. get jobs i ≡ some r)
              (sym (get_id jobs k r z) ∙ (eq_iff r.id id).0 (ground arith)) z)
            (ground arith),
        get-lease_one now lease id k jobs ∙ rw (z, t),
      )
      | inr f ↦ inl (get-lease_one now lease id k jobs ∙ rw (z, f))
    ]
  ]

  Kept-trans :
      (old mid new : Jobs V) (k : String)
      → Kept old mid k
      → Kept mid new k
      → ((r : ScheduledJob V)
          → get mid k ≡ some (leased_row now lease r)
          → get new k ≡ some (leased_row now lease r))
      → Kept old new k
  Kept-trans old mid new k (inr (r, e, d, l)) h stays = inr (r, e, d, stays r l)
  Kept-trans old mid new k (inl e) (inl f) stays = inl (f ∙ e)
  Kept-trans old mid new k (inl e) (inr (r, g, d, l)) stays = inr (r, sym e ∙ g, d, l)

  lease_all-Kept :
      (ids : List String) (jobs : Jobs V) (k : String)
      → 1 ≤ lease
      → All (HasAttempts now lease jobs) ids
      → Kept jobs (lease_all now lease ids jobs).1 k
  unfolding lease_all
  lease_all-Kept [] jobs k p h = inl refl
  lease_all-Kept (id ∷ ids) jobs k p h =
      let mid = (lease_one now lease id jobs).1 in
      Kept-trans jobs mid (lease_all now lease ids mid).1 k (lease_one-Kept id k jobs h.0)
        (lease_all-Kept ids mid k p (AllHasAttempts-lease_one now lease p id ids jobs h.1))
        (λ r e.
          unclaimed-lease_all now lease ids k mid (leased_row now lease r) e
            (leased_not_claimable now lease r p))

  -- Every row of the table is left as it was, or was due with attempts left and is leased.
  pub lease_due-Kept :
      (limit : ℕ) (jobs : Jobs V) (k : String)
      → 1 ≤ lease
      → IsKeyed jobs
      → Kept jobs (lease_due now lease limit jobs).1 k
  unfolding lease_due
  lease_due-Kept limit jobs k p keyed =
      lease_all-Kept (due_ids now limit jobs) jobs k p
        (due_ids-HasAttempts now lease limit jobs keyed)

  pub IsKeyed-lease_due :
      (limit : ℕ) (jobs : Jobs V) → IsKeyed jobs → IsKeyed (lease_due now lease limit jobs).1
  unfolding lease_due
  IsKeyed-lease_due limit jobs = IsKeyed-lease_all now lease (due_ids now limit jobs) jobs

module _ {ℓ} {V : Type ℓ} (now later lease : ℕ) where
  claimable-leased :
      (r : ScheduledJob V) → later < now + lease → claimable later (leased_row now lease r) ≡ false
  unfolding claimable leased_row
  claimable-leased r h = ground arith

  excluded :
      (old mid new : Jobs V) (a b : ScheduledJob V)
      → later < now + lease
      → IsLeased now lease old mid a
      → IsLeased later lease mid new b
      → a.id ≢ b.id
  unfolding eligible
  excluded old mid new a b h x y e =
      let same : a ≡ y.row =
        Option.some-injective a y.row (sym x.stored ∙ (ap (get mid) e ∙ y.was)) in
      let free : claimable later a ≡ true =
        subst (λ (r : ScheduledJob V). claimable later r ≡ true) (sym same)
          (ground (arith, y.due)) in
      let held : claimable later a ≡ false =
        subst (λ (r : ScheduledJob V). claimable later r ≡ false) (sym x.leased)
          (claimable-leased x.row h) in
      cc

  -- A second worker, on the table that the first has left, is handed no job that the first holds,
  -- as long as the first's lease has not run out.
  pub lease_due_exclusion :
      (limit limit' : ℕ) (jobs : Jobs V)
      → 1 ≤ lease
      → later < now + lease
      → IsKeyed jobs
      → let (mine, mid) = lease_due now lease limit jobs in
        All (λ a. All (λ b. a.id ≢ b.id) (lease_due later lease limit' mid).0) mine
  lease_due_exclusion limit limit' jobs p h k =
      let mid = (lease_due now lease limit jobs).1 in
      let new = (lease_due later lease limit' mid).1 in
      let second =
        lease_due-IsLeased later lease limit' mid p (IsKeyed-lease_due now lease limit jobs k) in
      All-imp (IsLeased now lease jobs mid)
        (λ a. All (λ b. a.id ≢ b.id) (lease_due later lease limit' mid).0)
        (lease_due now lease limit jobs).0
        (λ a x.
          All-imp (IsLeased later lease mid new) (λ b. a.id ≢ b.id)
            (lease_due later lease limit' mid).0 (λ b y. excluded jobs mid new a b h x y) second)
        (lease_due-IsLeased now lease limit jobs p k)
