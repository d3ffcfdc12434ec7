-- ===== src/Base/Keeping.antt =====
-- Tables whose rows a statement keeps under their ids: what a lookup by id finds, it still finds
-- after an INSERT or an UPDATE, as a row that is related to the old one.
use mathlib.Core.Path.{◌≡◌, refl, ap, ◌∙◌}
use mathlib.Core.Logic.{inl, inr}
use mathlib.Core.Bool.{Bool, false}
use mathlib.Core.Option.{Option, none, some}
use mathlib.Core.Option
use mathlib.Core.List.{List, [], ◌∷◌, ◌++◌}
use Prim.Native.Nat.{ℕ}
use Prim.Native.String.{String}
use text.Mathlib.Text.{◌==◌ as str_eq}
use zero_hdsc.Base.Tests.{◌==◌, Bool-cases}
use zero_hdsc.Base.Results.{Error}
use zero_hdsc.Base.Lists.{All, All-append}
use zero_hdsc.Base.Tables.{
  find, update_where, updated, hit_one, rowcount, find-append_some, find-update_where, insert_row,
  returning,
}
use zero_hdsc.Base.Lookups.{insert_row-cases}

updated_if {ℓ κ} :
    {R : Type ℓ} (P : R → Type κ) (p : R → Bool) (f : R → R) (r : R)
    → P r
    → P (f r)
    → P (updated p f r)
updated_if P p f r same changed = elim (Bool-cases (p r)) [
  | inl e ↦ rw e changed
  | inr e ↦ rw e same
]

-- The table after an UPDATE that a method checks.
pub hit_one-table {ℓ κ} :
    {R : Type ℓ} {A : Type κ} (count : ℕ) (a : A) (e : Error) (rows : List R)
    → (hit_one count a e rows).1 ≡ rows
hit_one-table count a e rows = elim (Bool-cases (count == 1)) [
  | inl t ↦ rw t refl
  | inr t ↦ rw t refl
]

pub All-update_where {ℓ κ} :
    {R : Type ℓ} (P : R → Type κ) (p : R → Bool) (f : R → R)
    → ((r : R) → P r → P (f r))
    → (rows : List R) → All P rows
    → All P (update_where p f rows)
unfolding update_where
All-update_where P p f keep [] h = tt
All-update_where P p f keep (r ∷ rows) h =
    (updated_if P p f r h.0 (keep r h.0), All-update_where P p f keep rows h.1)

module _ {ℓ κ} {R : Type ℓ} (key : R → String) (K : R → R → Type κ) where
  unfoldable pub Keeps : List R → List R → Type (ℓ ⊔ κ)
  Keeps rows rows' =
      (id : String) (r : R)
      → find (λ x. str_eq (key x) id) rows ≡ some r
      → (r' : R) × (find (λ x. str_eq (key x) id) rows' ≡ some r') × K r r'

  pub Keeps-refl : ((r : R) → K r r) → (rows : List R) → Keeps rows rows
  unfolding Keeps
  Keeps-refl same rows id r h = (r, h, same r)

  pub Keeps-append : ((r : R) → K r r) → (rows : List R) (x : R) → Keeps rows (rows ++ x ∷ [])
  unfolding Keeps
  Keeps-append same rows x id r h =
      (r, find-append_some (λ y. str_eq (key y) id) rows x r h, same r)

  -- After an INSERT, whether or not it raises.
  pub Keeps-insert_row {μ} :
      {A : Type μ}
      → ((r : R) → K r r)
      → (clash : R → Bool) (foreign : Bool) (a : A) (x : R) (rows : List R)
      → Keeps rows (returning a (insert_row clash foreign x rows)).1
  Keeps-insert_row same clash foreign a x rows = elim (insert_row-cases clash foreign x rows) [
    | inl e ↦ rw e (Keeps-append same rows x)
    | inr (problem, e) ↦ rw e (Keeps-refl same rows)
  ]

  -- After an UPDATE that keeps the ids.
  pub Keeps-update_where :
      ((r : R) → K r r)
      → (p : R → Bool) (f : R → R) → ((r : R) → key (f r) ≡ key r)
      → ((r : R) → K r (f r))
      → (rows : List R) → Keeps rows (update_where p f rows)
  unfolding Keeps
  Keeps-update_where same p f keyed kept rows id r h = (
    updated p f r,
    find-update_where (λ x. str_eq (key x) id) p f rows
          (λ x. ap (λ k. str_eq k id) (updated_if (λ y. key y ≡ key x) p f x refl (keyed x)))
        ∙ ap (Option.map (updated p f)) h,
    updated_if (K r) p f r (same r) (kept r),
  )

  -- After an UPDATE that a method checks by its row count.
  pub Keeps-hit_one {μ} :
      {A : Type μ}
      → ((r : R) → K r r)
      → (p : R → Bool) (f : R → R) → ((r : R) → key (f r) ≡ key r)
      → ((r : R) → K r (f r))
      → (count : ℕ) (a : A) (e : Error) (rows : List R)
      → Keeps rows (hit_one count a e (update_where p f rows)).1
  Keeps-hit_one same p f keyed kept count a e rows =
      rw (hit_one-table count a e (update_where p f rows))
        (Keeps-update_where same p f keyed kept rows)

module _ {ℓ κ μ} {R : Type ℓ} {A : Type κ} (P : R → Type μ) where
  -- What holds of the rows holds after an INSERT of a row of which it holds.
  pub All-insert_row :
      (clash : R → Bool) (foreign : Bool) (a : A) (x : R) (rows : List R)
      → P x
      → All P rows
      → All P (returning a (insert_row clash foreign x rows)).1
  All-insert_row clash foreign a x rows h k = elim (insert_row-cases clash foreign x rows) [
    | inl e ↦ rw e (All-append P rows (x ∷ []) k (h, tt))
    | inr (problem, e) ↦ rw e k
  ]

  -- What an UPDATE keeps of each row holds after it.
  pub All-hit_one :
      (p : R → Bool) (f : R → R)
      → ((r : R) → P r → P (f r))
      → (count : ℕ) (a : A) (e : Error) (rows : List R) → All P rows
      → All P (hit_one count a e (update_where p f rows)).1
  All-hit_one p f keep count a e rows h =
      rw (hit_one-table count a e (update_where p f rows)) (All-update_where P p f keep rows h)

module _ {ℓ} {R : Type ℓ} (p q : R → Bool) (f g : R → R) where
  -- An UPDATE whose condition no row meets after another UPDATE: it hits no row and changes none.
  pub rowcount-updated :
      (rows : List R)
      → ((r : R) → q (updated p f r) ≡ false)
      → rowcount q (update_where p f rows) ≡ 0
  unfolding rowcount update_where
  rowcount-updated [] h = refl
  rowcount-updated (r ∷ rows) h = rw (h r) (rowcount-updated rows h)

  pub update_where-updated :
      (rows : List R)
      → ((r : R) → q (updated p f r) ≡ false)
      → update_where q g (update_where p f rows) ≡ update_where p f rows
  unfolding update_where
  update_where-updated [] h = refl
  update_where-updated (r ∷ rows) h =
      rw (h r) (ap (◌∷◌ (updated p f r)) (update_where-updated rows h))
