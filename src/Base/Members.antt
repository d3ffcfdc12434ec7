-- ===== src/Base/Members.antt =====
-- The lengths of what a SELECT, an ORDER BY and a LIMIT give, and the rows that stand in them.
use mathlib.Core.Path.{◌≡◌, refl, ap, ◌∙◌}
use mathlib.Core.Logic.{inl, inr}
use mathlib.Core.Bool.{Bool, true}
use mathlib.Core.List.{List, [], ◌∷◌}
use Prim.Native.Nat.{ℕ, zero, suc, ◌≤◌}
use native.Mathlib.Omega.{arith}
use zero_hdsc.Base.Tests.{Bool-cases}
use zero_hdsc.Base.Lists.{All, All-imp, length, take}
use zero_hdsc.Base.Tables.{select, order_by, insert_by}

pub take_all {ℓ} : {A : Type ℓ} (n : ℕ) (xs : List A) → length xs ≤ n → take n xs ≡ xs
take_all zero [] h = refl
take_all zero (x ∷ xs) h = let no : ⊥ = omega arith in elim no [ ]
take_all (suc n) [] h = refl
take_all (suc n) (x ∷ xs) h = ap (◌∷◌ x) (take_all n xs (omega arith))

module _ {ℓ} {R : Type ℓ} where
  length-insert_by :
      (less : R → R → Bool) (x : R) (ys : List R) → length (insert_by less x ys) ≡ suc (length ys)
  unfolding insert_by
  length-insert_by less x [] = refl
  length-insert_by less x (y ∷ ys) = ground (arith, length-insert_by less x ys)

  pub length-order_by : (less : R → R → Bool) (xs : List R) → length (order_by less xs) ≡ length xs
  unfolding order_by
  length-order_by less [] = refl
  length-order_by less (x ∷ xs) =
      length-insert_by less x (order_by less xs) ∙ ap suc (length-order_by less xs)

  pub length-select : (p : R → Bool) (xs : List R) → length (select p xs) ≤ length xs
  unfolding select
  length-select p [] = omega arith
  length-select p (x ∷ xs) = ground (arith, length-select p xs)

-- The element stands in the list.
pub data Has {ℓ} {A : Type ℓ} (x : A) : List A → Type ℓ where
  first_has : (xs : List A) → Has x (x ∷ xs)
  later_has : (y : A) (xs : List A) → Has x xs → Has x (y ∷ xs)

module _ {ℓ} {A : Type ℓ} (x : A) where
  pub Has-select : (p : A → Bool) {xs : List A} → p x ≡ true → Has x xs → Has x (select p xs)
  unfolding select
  Has-select p t (first_has xs) = rw t (first_has (select p xs))
  Has-select p t (later_has y xs h) = elim (Bool-cases (p y)) [
    | inl e ↦ rw e (later_has y (select p xs) (Has-select p t h))
    | inr e ↦ rw e (Has-select p t h)
  ]

  Has-insert_by-new : (less : A → A → Bool) (xs : List A) → Has x (insert_by less x xs)
  unfolding insert_by
  Has-insert_by-new less [] = first_has []
  Has-insert_by-new less (y ∷ xs) = elim (Bool-cases (less y x)) [
    | inl e ↦ rw e (later_has y (insert_by less x xs) (Has-insert_by-new less xs))
    | inr e ↦ rw e (first_has (y ∷ xs))
  ]

  Has-insert_by :
      (less : A → A → Bool) (z : A) {xs : List A} → Has x xs → Has x (insert_by less z xs)
  unfolding insert_by
  Has-insert_by less z (first_has xs) = elim (Bool-cases (less x z)) [
    | inl e ↦ rw e (first_has (insert_by less z xs))
    | inr e ↦ rw e (later_has z (x ∷ xs) (first_has xs))
  ]
  Has-insert_by less z (later_has y xs h) = elim (Bool-cases (less y z)) [
    | inl e ↦ rw e (later_has y (insert_by less z xs) (Has-insert_by less z h))
    | inr e ↦ rw e (later_has z (y ∷ xs) (later_has y xs h))
  ]

  pub Has-order_by : (less : A → A → Bool) {xs : List A} → Has x xs → Has x (order_by less xs)
  unfolding order_by
  Has-order_by less (first_has xs) = Has-insert_by-new less (order_by less xs)
  Has-order_by less (later_has y xs h) = Has-insert_by less y (Has-order_by less h)

pub All-Has {ℓ} : {A : Type ℓ} (xs : List A) → All (λ x. Has x xs) xs
All-Has [] = tt
All-Has (x ∷ xs) = (
  first_has xs,
  All-imp (λ y. Has y xs) (λ y. Has y (x ∷ xs)) xs (λ y h. later_has x xs h) (All-Has xs),
)
