-- ===== src/Outbox/Holds.antt =====
-- src/ssa/storage/lifecycle_repository.py: the row of a claimed message, which no claim takes before
-- its lease ends.
use zero_hdsc.Base.{
  ℕ, suc, ◌≤◌, ◌<◌, String, ◌≡◌, refl, Bool, true, false, ◌&&◌, [], ◌∷◌, arith, if◌then◌else◌,
  str_eq, update_where, rowcount, Bool-cases, inl, inr,
}
use zero_hdsc.Rows.Outbox.{MessageRow}
use zero_hdsc.Outbox.{Outbox, has_id, claimable, claimed_row}

-- No row with the id meets the WHERE of a claim at the time.
abbrev pub IsHeld : ℕ → Outbox → String → Type 0
IsHeld now rows id = rowcount (λ r. str_eq r.id id && claimable now r) rows ≡ 0

-- The ids are unique.
abbrev pub IsKeyed : Outbox → Type 0
IsKeyed rows = (id : String) → rowcount (has_id id) rows ≤ 1

abbrev pub mine : ℕ → String → MessageRow → Bool
mine now id r = str_eq r.id id && claimable now r

no_row-IsHeld :
    (later : ℕ) (id : String) (rows : Outbox) → rowcount (has_id id) rows ≡ 0 → IsHeld later rows id
unfolding rowcount
no_row-IsHeld later id [] h = refl
no_row-IsHeld later id (r ∷ rows) h = ground (arith, no_row-IsHeld later id rows)

not_held : (b : Bool) (count : ℕ) → count ≡ 0 → (if b && false then suc count else count) ≡ 0
not_held true count h = h
not_held false count h = h

module _ (now until later : ℕ) (before : later < until) where
  claimed_row-not_claimable : (r : MessageRow) → claimable later (claimed_row until r) ≡ false
  claimed_row-not_claimable r = ground arith

  IsHeld-rest :
      (id : String) (r : MessageRow) (rows : Outbox)
      → IsHeld later (r ∷ rows) id
      → IsHeld later rows id
  unfolding rowcount
  IsHeld-rest id r rows h = ground (arith, h)

  not_mine :
      (id : String) (r : MessageRow) (rows : Outbox)
      → IsHeld later (r ∷ rows) id
      → mine later id r ≡ false
  unfolding rowcount
  not_mine id r rows h = ground (arith, h)

  pub IsHeld-claim :
      (id other : String) (rows : Outbox)
      → IsHeld later rows id
      → IsHeld later (update_where (mine now other) (claimed_row until) rows) id
  unfolding rowcount update_where
  IsHeld-claim id other [] h = refl
  IsHeld-claim id other (r ∷ rows) h = elim (Bool-cases (mine now other r)) [
    | inl e ↦
        rw (e, claimed_row-not_claimable r)
          (not_held (str_eq r.id id)
            (rowcount (mine later id) (update_where (mine now other) (claimed_row until) rows))
            (IsHeld-claim id other rows (IsHeld-rest id r rows h)))
    | inr e ↦ rw (e, not_mine id r rows h) (IsHeld-claim id other rows (IsHeld-rest id r rows h))
  ]

  pub IsKeyed-claim :
      (id other : String) (rows : Outbox)
      → rowcount (has_id id) (update_where (mine now other) (claimed_row until) rows)
        ≡ rowcount (has_id id) rows
  unfolding rowcount update_where
  IsKeyed-claim id other [] = refl
  IsKeyed-claim id other (r ∷ rows) = elim (Bool-cases (mine now other r)) [
    | inl e ↦ rw (e, IsKeyed-claim id other rows) refl
    | inr e ↦ rw (e, IsKeyed-claim id other rows) refl
  ]

  pub claim-IsHeld :
      (id : String) (rows : Outbox)
      → rowcount (has_id id) rows ≤ 1
      → rowcount (mine now id) rows ≡ 1
      → IsHeld later (update_where (mine now id) (claimed_row until) rows) id
  unfolding rowcount update_where
  claim-IsHeld id [] k h = refl
  claim-IsHeld id (r ∷ rows) k h = elim (Bool-cases (has_id id r)) [
    | inl e ↦
        let none_left : rowcount (has_id id) rows ≡ 0 = ground (arith, e, k) in
        let rest = IsHeld-claim id id rows (no_row-IsHeld later id rows none_left) in
        let nothing = no_row-IsHeld now id rows none_left in
        let claims : claimable now r ≡ true = ground (arith, h, e, nothing) in
        rw (e, claims, claimed_row-not_claimable r)
          (not_held (str_eq r.id id)
            (rowcount (mine later id) (update_where (mine now id) (claimed_row until) rows)) rest)
    | inr e ↦ rw (e, e) (claim-IsHeld id rows (ground (arith, e, k)) (ground (arith, e, h)))
  ]
