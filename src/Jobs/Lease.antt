-- ===== src/Jobs/Lease.antt =====
-- One round of the loop of `lease_due` of ScheduledJobRepository, and what it leaves alone.
use mathlib.Core.Option
use zero_hdsc.Base.{
  ℕ, ◌≤◌, String, ◌≡◌, refl, ◌∙◌, ◌⊎◌, inl, inr, true, false, none, some, List, [], ◌∷◌, arith,
  Bool-cases, Option-cases, eq_refl, updated,
}
use zero_hdsc.Domain.Jobs.{ScheduledJob}
use zero_hdsc.Jobs.{Jobs, get, claimable, eligible, claims, leased_row, lease_one, lease_all}
use zero_hdsc.Jobs.Keys.{IsKeyed, IsKeyed-update, get-update, get_id, rowcount_keyed}

module _ {ℓ} {V : Type ℓ} (now lease : ℕ) where
  -- The job was leased from the table `old`, where its row was due and had attempts left, and its
  -- new row, with the lease and one attempt more, is what `new` stores.
  pub record IsLeased (old new : Jobs V) (job : ScheduledJob V) : Type ℓ where
    pub row : ScheduledJob V
    pub was : get old job.id ≡ some row
    pub due : eligible now row ≡ true
    pub leased : job ≡ leased_row now lease row
    pub stored : get new job.id ≡ some job

  pub get-lease_one :
      (id k : String) (jobs : Jobs V)
      → get (lease_one now lease id jobs).1 k
        ≡ Option.map (updated (claims now id) (leased_row now lease)) (get jobs k)
  unfolding lease_one leased_row
  get-lease_one id k jobs = get-update (claims now id) (leased_row now lease) jobs k (λ r. refl)

  pub IsKeyed-lease_one :
      (id : String) (jobs : Jobs V) → IsKeyed jobs → IsKeyed (lease_one now lease id jobs).1
  unfolding lease_one leased_row
  IsKeyed-lease_one id jobs = IsKeyed-update (claims now id) (leased_row now lease) jobs (λ r. refl)

  pub IsKeyed-lease_all :
      (ids : List String) (jobs : Jobs V) → IsKeyed jobs → IsKeyed (lease_all now lease ids jobs).1
  unfolding lease_all
  IsKeyed-lease_all [] jobs h = h
  IsKeyed-lease_all (id ∷ ids) jobs h =
      IsKeyed-lease_all ids (lease_one now lease id jobs).1 (IsKeyed-lease_one id jobs h)

  -- A row under a lease that has not run out is not claimed.
  pub leased_not_claimable :
      (r : ScheduledJob V) → 1 ≤ lease → claimable now (leased_row now lease r) ≡ false
  unfolding claimable leased_row
  leased_not_claimable r h = ground arith

  pub unclaimed-lease_one :
      (id k : String) (jobs : Jobs V) (r : ScheduledJob V)
      → get jobs k ≡ some r
      → claimable now r ≡ false
      → get (lease_one now lease id jobs).1 k ≡ some r
  unclaimed-lease_one id k jobs r e c = rw (get-lease_one id k jobs) (ground arith)

  -- The rounds of the loop leave a row alone that cannot be claimed.
  pub unclaimed-lease_all :
      (ids : List String) (k : String) (jobs : Jobs V) (r : ScheduledJob V)
      → get jobs k ≡ some r
      → claimable now r ≡ false
      → get (lease_all now lease ids jobs).1 k ≡ some r
  unfolding lease_all
  unclaimed-lease_all [] k jobs r e c = e
  unclaimed-lease_all (id ∷ ids) k jobs r e c =
      unclaimed-lease_all ids k (lease_one now lease id jobs).1 r
        (unclaimed-lease_one id k jobs r e c) c

  -- If the row of the id can be claimed, then it has attempts left.
  abbrev pub HasAttempts : Jobs V → String → Type ℓ
  HasAttempts jobs k =
      (r : ScheduledJob V) → get jobs k ≡ some r → claimable now r ≡ true → eligible now r ≡ true

  -- A claimable row after a round is the row that stood there before.
  claimable-before :
      (id k : String) (jobs : Jobs V) (r : ScheduledJob V)
      → 1 ≤ lease
      → get (lease_one now lease id jobs).1 k ≡ some r
      → claimable now r ≡ true
      → get jobs k ≡ some r
  claimable-before id k jobs r h e c = elim (Option-cases (get jobs k)) [
    | inl z ↦ ground (arith, get-lease_one id k jobs)
    | inr (x, z) ↦ ground (arith, get-lease_one id k jobs, leased_not_claimable x h)
  ]

  pub HasAttempts-lease_one :
      (id : String) (jobs : Jobs V) (k : String)
      → 1 ≤ lease
      → HasAttempts jobs k
      → HasAttempts (lease_one now lease id jobs).1 k
  HasAttempts-lease_one id jobs k h a r e c = a r (claimable-before id k jobs r h e c) c

  pub IsLeased-earlier :
      (id : String) (jobs new : Jobs V) (job : ScheduledJob V)
      → 1 ≤ lease
      → IsLeased (lease_one now lease id jobs).1 new job
      → IsLeased jobs new job
  unfolding eligible
  IsLeased-earlier id jobs new job h l = record {
    row = l.row;
    was = claimable-before id job.id jobs l.row h l.was (ground (arith, l.due));
    due = l.due;
    leased = l.leased;
    stored = l.stored;
  }

  -- What one round hands back.
  pub lease_one-cases :
      (id : String) (jobs : Jobs V)
      → IsKeyed jobs
      → ((lease_one now lease id jobs).0 ≡ none)
        ⊎ ((r : ScheduledJob V) × (get jobs id ≡ some r)
            × (claimable now r ≡ true)
            × ((lease_one now lease id jobs).0 ≡ some (leased_row now lease r)))
  lease_one-cases id jobs h = elim (Option-cases (get jobs id)) [
    | inl z ↦ inl (unfold lease_one in rw (rowcount_keyed id (claimable now) jobs h) (rw z))
    | inr (r, z) ↦ elim (Bool-cases (claimable now r)) [
      | inl t ↦ inr (
        r,
        z,
        t,
        unfold lease_one in
            rw (rowcount_keyed id (claimable now) jobs h) (
              rw (z, t)
                (get-lease_one id id jobs ∙ (rw (z, t, get_id jobs id r z) (rw (eq_refl id))))),
      )
      | inr f ↦ inl (unfold lease_one in rw (rowcount_keyed id (claimable now) jobs h) (rw (z, f)))
    ]
  ]
