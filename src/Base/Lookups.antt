-- ===== src/Base/Lookups.antt =====
-- What a lookup finds in a table: a row that meets its condition, also where a row came in at the
-- end.
use mathlib.Core.Path.{◌≡◌, refl, subst}
use mathlib.Core.Logic.{◌⊎◌, inl, inr}
use mathlib.Core.Bool.{Bool, true, false}
use mathlib.Core.Option.{none, some, some-injective}
use mathlib.Core.List.{List, [], ◌∷◌, ◌++◌}
use native.Mathlib.Omega.{arith}
use zero_hdsc.Base.Tests.{Bool-cases, Option-cases}
use zero_hdsc.Base.Results.{Error, Result, integrity_error, ok, err, and_then}
use zero_hdsc.Base.Tables.{find, rowcount, insert_row, insert_by, order_by, first}
use zero_hdsc.Base.Lists.{All}

module _ {ℓ} {R : Type ℓ} (q : R → Bool) where
  pub find-append_new :
      (rows : List R) (row : R)
      → find q rows ≡ none
      → q row ≡ true
      → find q (rows ++ row ∷ []) ≡ some row
  unfolding find
  find-append_new [] row h k = rw k refl
  find-append_new (r ∷ rows) row h k = ground (arith, find-append_new rows row)

  pub rowcount-append_new :
      (rows : List R) (row : R)
      → find q rows ≡ none
      → q row ≡ true
      → rowcount q (rows ++ row ∷ []) ≡ 1
  unfolding find rowcount
  rowcount-append_new [] row h k = rw k refl
  rowcount-append_new (r ∷ rows) row h k = ground (arith, rowcount-append_new rows row)

  pub find-eq_true : (rows : List R) (row : R) → find q rows ≡ some row → q row ≡ true
  unfolding find
  find-eq_true [] row h = cc
  find-eq_true (r ∷ rows) row h = elim (Bool-cases (q r)) [
    | inl e ↦
        let same : some r ≡ some row = ground (arith, e, h) in
        subst (λ x. q x ≡ true) (some-injective r row same) e
    | inr e ↦ find-eq_true rows row (ground (arith, e, h))
  ]

  pub find-append_other :
      (rows : List R) (row : R)
      → find q rows ≡ none
      → q row ≡ false
      → find q (rows ++ row ∷ []) ≡ none
  unfolding find
  find-append_other [] row h k = rw k refl
  find-append_other (r ∷ rows) row h k = ground (arith, find-append_other rows row)

-- An INSERT puts the row at the end, or it raises and leaves the table as it was.
pub insert_row-cases {ℓ} :
    {R : Type ℓ} (clash : R → Bool) (foreign : Bool) (row : R) (rows : List R)
    → (insert_row clash foreign row rows ≡ (ok tt, rows ++ row ∷ []))
      ⊎ ((e : Error) × (insert_row clash foreign row rows ≡ (err e, rows)))
unfolding insert_row
insert_row-cases clash foreign row rows = elim (Option-cases (find clash rows)) [
  | inl e ↦ elim (Bool-cases foreign) [
    | inl f ↦ inl (rw (e, insert_row) (rw f refl))
    | inr f ↦ inr (integrity_error "FOREIGN KEY constraint failed", rw (e, insert_row) (rw f refl))
  ]
  | inr (r, e) ↦ inr (integrity_error "UNIQUE constraint failed", rw (e, insert_row) refl)
]

module _ {ℓ} {R : Type ℓ} (before : R → R → Bool) where
  pub first-insert_by :
      (x y : R) (ys : List R)
      → first ys ≡ some y
      → before y x ≡ true
      → first (insert_by before x ys) ≡ some y
  unfolding insert_by
  first-insert_by x y [] h k = cc
  first-insert_by x y (z ∷ ys) h k =
      let same : z ≡ y = some-injective z y h in
      let t : before z x ≡ true = rw same k in rw t (rw same refl)

  -- A row that stands before all others comes first, also where it is inserted last.
  pub first-order_by :
      (rows : List R) (x : R)
      → All (λ y. before x y ≡ true) rows
      → first (order_by before (rows ++ x ∷ [])) ≡ some x
  unfolding order_by insert_by
  first-order_by [] x h = refl
  first-order_by (y ∷ rows) x h =
      first-insert_by y x (order_by before (rows ++ x ∷ [])) (first-order_by rows x h.1) h.0

-- The two statements of a chain that raises nothing.
pub and_then-ok {ℓ κ μ} :
    {A : Type ℓ} {B : Type κ} {S : Type μ} (x : Result A × S) (f : A → S → Result B × S) (b : B)
    → (and_then x f).0 ≡ ok b
    → (a : A) × ((x.0 ≡ ok a) × ((and_then x f ≡ f a x.1) × ((f a x.1).0 ≡ ok b)))
and_then-ok (err e, s) f b h = cc
and_then-ok (ok a, s) f b h = (a, (refl, (refl, h)))
