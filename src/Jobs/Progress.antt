-- ===== src/Jobs/Progress.antt =====
-- Progress of `lease_due` of ScheduledJobRepository: no due job is left out.
use mathlib.Core.Option
use zero_hdsc.Base.{
  ℕ, ◌≤◌, String, Bool, true, ◌||◌, some, List, [], ◌∷◌, ◌≡◌, refl, ap, ◌∙◌, arith, eq_iff, str_eq,
  is_in, map, take_all, length-order_by, length-select, length, find, select, order_by, insert_by,
  Bool-cases, inl, inr,
}
use zero_hdsc.Domain.Jobs.{ScheduledJob}
use zero_hdsc.Jobs.{
  Jobs, has_id, get, before, claimable, eligible, due_ids, leased_row, lease_one, lease_all,
  lease_due,
}
use zero_hdsc.Jobs.Keys.{get_id}
use zero_hdsc.Jobs.Lease.{get-lease_one, unclaimed-lease_all, leased_not_claimable}

module _ {ℓ} {V : Type ℓ} where
  abbrev ids : Jobs V → List String
  ids rows = map (λ job. job.id) rows

  is_in-insert_by :
      (less : ScheduledJob V → ScheduledJob V → Bool) (id : String) (x : ScheduledJob V)
      (ys : Jobs V)
      → is_in id (ids (insert_by less x ys)) ≡ (str_eq id x.id || is_in id (ids ys))
  unfolding insert_by is_in
  is_in-insert_by less id x [] = refl
  is_in-insert_by less id x (y ∷ ys) = ground (arith, is_in-insert_by less id x ys)

  is_in-order_by :
      (less : ScheduledJob V → ScheduledJob V → Bool) (id : String) (xs : Jobs V)
      → is_in id (ids (order_by less xs)) ≡ is_in id (ids xs)
  unfolding order_by is_in
  is_in-order_by less id [] = refl
  is_in-order_by less id (x ∷ xs) =
      is_in-insert_by less id x (order_by less xs)
      ∙ ap (λ b. str_eq id x.id || b) (is_in-order_by less id xs)

  is_in-select :
      (p : ScheduledJob V → Bool) (id : String) (r : ScheduledJob V) (xs : Jobs V)
      → get xs id ≡ some r
      → p r ≡ true
      → is_in id (ids (select p xs)) ≡ true
  unfolding get find select is_in
  is_in-select p id r [] h k = cc
  is_in-select p id r (x ∷ xs) h k = elim (Bool-cases (has_id id x)) [
    | inl e ↦
        let same : x ≡ r = Option.some-injective x r (ground (arith, e, h)) in
        let passes : p x ≡ true = rw same k in
        rw passes (ground (arith, e, eq_iff x.id id, eq_iff id x.id))
    | inr e ↦ ground (arith, e, is_in-select p id r xs (ground (arith, e, h)) k)
  ]

  -- Where the limit takes every row, the ids of the due jobs are those that the loop goes through.
  is_in-due_ids :
      (now limit : ℕ) (id : String) (r : ScheduledJob V) (jobs : Jobs V)
      → get jobs id ≡ some r
      → eligible now r ≡ true
      → length jobs ≤ limit
      → is_in id (due_ids now limit jobs) ≡ true
  unfolding due_ids
  is_in-due_ids now limit id r jobs h k l =
      let rows = select (eligible now) jobs in
      let few : length (order_by before rows) ≤ limit =
        omega (arith, length-order_by before rows, length-select (eligible now) jobs) in
      rw (take_all limit (order_by before rows) few)
        (is_in-order_by before id rows ∙ is_in-select (eligible now) id r jobs h k)

module _ {ℓ} {V : Type ℓ} (now lease : ℕ) (positive : 1 ≤ lease) where
  claimable-eligible : (r : ScheduledJob V) → eligible now r ≡ true → claimable now r ≡ true
  unfolding eligible
  claimable-eligible r h = ground (arith, h)

  -- A round of the loop for another id leaves the row; the round for its id leases it.
  lease_all-leases :
      (ids : List String) (id : String) (r : ScheduledJob V) (jobs : Jobs V)
      → get jobs id ≡ some r
      → claimable now r ≡ true
      → is_in id ids ≡ true
      → get (lease_all now lease ids jobs).1 id ≡ some (leased_row now lease r)
  unfolding lease_all is_in
  lease_all-leases [] id r jobs h c k = cc
  lease_all-leases (x ∷ xs) id r jobs h c k = elim (Bool-cases (str_eq id x)) [
    | inl e ↦
        unclaimed-lease_all now lease xs id (lease_one now lease x jobs).1 (leased_row now lease r)
          (get-lease_one now lease x id jobs
            ∙ ground (arith, h, c, e, get_id jobs id r h, eq_iff r.id x, eq_iff id x))
          (leased_not_claimable now lease r positive)
    | inr e ↦
        lease_all-leases xs id r (lease_one now lease x jobs).1
          (get-lease_one now lease x id jobs
            ∙ ground (arith, h, e, get_id jobs id r h, eq_iff r.id x, eq_iff id x))
          c (ground (arith, e, k))
  ]

  -- No due job is left out: a job of the table that is due and has attempts left is leased by a call
  -- of `lease_due` with a positive lease whose limit is not below the number of jobs, whatever the
  -- other jobs are.
  pub lease_due-leases :
      (limit : ℕ) (id : String) (r : ScheduledJob V) (jobs : Jobs V)
      → get jobs id ≡ some r
      → eligible now r ≡ true
      → length jobs ≤ limit
      → get (lease_due now lease limit jobs).1 id ≡ some (leased_row now lease r)
  unfolding lease_due
  lease_due-leases limit id r jobs h k l =
      lease_all-leases (due_ids now limit jobs) id r jobs h (claimable-eligible r k)
        (is_in-due_ids now limit id r jobs h k l)
