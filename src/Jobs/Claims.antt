-- ===== src/Jobs/Claims.antt =====
-- The loop of `lease_due` of ScheduledJobRepository: every job that it returns was leased.
use mathlib.Core.Path.{subst}
use zero_hdsc.Base.{
  ℕ, ◌≤◌, String, ◌≡◌, refl, sym, ◌∙◌, inl, inr, true, some, List, [], ◌∷◌, eq_refl, All, All-imp,
}
use zero_hdsc.Domain.Jobs.{ScheduledJob}
use zero_hdsc.Jobs.{Jobs, get, claimable, leased_row, lease_one, lease_all}
use zero_hdsc.Jobs.Keys.{IsKeyed, get_id}
use zero_hdsc.Jobs.Lease.{
  IsLeased, HasAttempts, HasAttempts-lease_one, IsKeyed-lease_one, IsLeased-earlier,
  lease_one-cases, get-lease_one, leased_not_claimable, unclaimed-lease_all,
}

module _ {ℓ} {V : Type ℓ} (now lease : ℕ) (positive : 1 ≤ lease) where
  pub AllHasAttempts-lease_one :
      (id : String) (ids : List String) (jobs : Jobs V)
      → All (HasAttempts now lease jobs) ids
      → All (HasAttempts now lease (lease_one now lease id jobs).1) ids
  AllHasAttempts-lease_one id ids jobs h =
      All-imp (HasAttempts now lease jobs) (HasAttempts now lease (lease_one now lease id jobs).1)
        ids (λ k a. HasAttempts-lease_one now lease id jobs k positive a) h

  -- The job of the first round, if the row could be claimed.
  IsLeased-first :
      (id : String) (ids : List String) (jobs : Jobs V) (r : ScheduledJob V)
      → HasAttempts now lease jobs id
      → get jobs id ≡ some r
      → claimable now r ≡ true
      → get (lease_one now lease id jobs).1 id ≡ some (leased_row now lease r)
      → IsLeased now lease jobs
          (lease_all now lease ids (lease_one now lease id jobs).1).1
          (leased_row now lease r)
  IsLeased-first id ids jobs r a e c s =
      let final = (lease_all now lease ids (lease_one now lease id jobs).1).1 in
      let same : id ≡ r.id = sym (get_id jobs id r e) in
      record {
        row = r;
        was = unfold leased_row in subst (λ k. get jobs k ≡ some r) same e;
        due = a r e c;
        leased = refl;
        stored =
            let t : get final id ≡ some (leased_row now lease r) =
              unclaimed-lease_all now lease ids id (lease_one now lease id jobs).1
                (leased_row now lease r) s (leased_not_claimable now lease r positive) in
            let u : get final r.id ≡ some (leased_row now lease r) =
              subst (λ k. get final k ≡ some (leased_row now lease r)) same t in
            unfold leased_row in u;
      }

  get-lease_one_claimed :
      (id : String) (jobs : Jobs V) (r : ScheduledJob V)
      → get jobs id ≡ some r
      → claimable now r ≡ true
      → get (lease_one now lease id jobs).1 id ≡ some (leased_row now lease r)
  get-lease_one_claimed id jobs r z t =
      get-lease_one now lease id id jobs ∙ rw (z, t, get_id jobs id r z) (rw (eq_refl id))

  abbrev after : String → Jobs V → Jobs V
  after id jobs = (lease_one now lease id jobs).1

  abbrev final : List String → Jobs V → Jobs V
  final ids jobs = (lease_all now lease ids jobs).1

  IsLeased-cons :
      (id : String) (ids : List String) (jobs : Jobs V)
      → IsKeyed jobs
      → HasAttempts now lease jobs id
      → All
          (IsLeased now lease (after id jobs) (final ids (after id jobs)))
          (lease_all now lease ids (after id jobs)).0
      → All
          (IsLeased now lease jobs (final (id ∷ ids) jobs))
          (lease_all now lease (id ∷ ids) jobs).0
  unfolding lease_all
  IsLeased-cons id ids jobs k a h =
      let last : Jobs V = final ids (after id jobs) in
      let rest : All (IsLeased now lease jobs last) (lease_all now lease ids (after id jobs)).0 =
        All-imp (IsLeased now lease (after id jobs) last) (IsLeased now lease jobs last)
          (lease_all now lease ids (after id jobs)).0
          (λ job l. IsLeased-earlier now lease id jobs last job positive l) h in
      elim (lease_one-cases now lease id jobs k) [
        | inl z ↦ rw z rest
        | inr (r, e, c, z) ↦
            rw z (IsLeased-first id ids jobs r a e c (get-lease_one_claimed id jobs r e c), rest)
      ]

  pub lease_all-IsLeased :
      (ids : List String) (jobs : Jobs V)
      → IsKeyed jobs
      → All (HasAttempts now lease jobs) ids
      → All (IsLeased now lease jobs (final ids jobs)) (lease_all now lease ids jobs).0
  lease_all-IsLeased [] jobs k h = unfold lease_all in tt
  lease_all-IsLeased (id ∷ ids) jobs k h = IsLeased-cons id ids jobs k h.0 (
      lease_all-IsLeased ids (after id jobs) (IsKeyed-lease_one now lease id jobs k)
        (AllHasAttempts-lease_one id ids jobs h.1))
