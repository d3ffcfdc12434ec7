-- ===== src/Base/Tables.antt =====
-- The SQL statements that the repositories send, over a table as the list of its rows in rowid
-- order: SELECT with WHERE, ORDER BY, LIMIT and fetchone, UPDATE with WHERE and its row count, and
-- INSERT. Where ORDER BY leaves two rows tied, they stay in rowid order.
use Prim.Native.Nat.{ℕ, suc}
use mathlib.Core.Path.{◌≡◌, refl, ap}
use mathlib.Core.Bool.{Bool, true, false, not, ◌&&◌, ◌||◌}
use mathlib.Core.Option.{Option, none, some}
use mathlib.Core.Option
use mathlib.Core.List.{List, [], ◌∷◌, ◌++◌}
use native.Mathlib.Omega.{arith}
use Prim.Native.String.{String}
use zero_hdsc.Base.Tests.{leb, if◌then◌else◌, ◌==◌}
use zero_hdsc.Base.Results.{Error, integrity_error, Result, ok, err, ◌>>=◌}
use zero_hdsc.Base.Lists.{All, All-if, length}

module _ {ℓ} {R : Type ℓ} where
  -- SELECT ... WHERE p, read by fetchone
  unfoldable pub find : (R → Bool) → List R → Option R
  find p [] = none
  find p (r ∷ rs) = if p r then some r else find p rs

  -- SELECT ... WHERE p, read by fetchall
  unfoldable pub select : (R → Bool) → List R → List R
  select p [] = []
  select p (r ∷ rs) = let rest = select p rs in if p r then r ∷ rest else rest

  -- One row of an UPDATE.
  abbrev pub updated : (R → Bool) → (R → R) → R → R
  updated p f r = if p r then f r else r

  -- UPDATE ... SET f WHERE p
  unfoldable pub update_where : (R → Bool) → (R → R) → List R → List R
  update_where p f [] = []
  update_where p f (r ∷ rs) = updated p f r ∷ update_where p f rs

  -- The rows that WHERE p selects, counted: `cursor.rowcount` of an UPDATE
  unfoldable pub rowcount : (R → Bool) → List R → ℕ
  rowcount p [] = 0
  rowcount p (r ∷ rs) = let rest = rowcount p rs in if p r then suc rest else rest

  -- ORDER BY, where `before x y` says that x stands strictly before y
  unfoldable pub insert_by : (R → R → Bool) → R → List R → List R
  insert_by before x [] = x ∷ []
  insert_by before x (y ∷ ys) =
      let rest = insert_by before x ys in if before y x then y ∷ rest else x ∷ y ∷ ys

  unfoldable pub order_by : (R → R → Bool) → List R → List R
  unfolding insert_by
  order_by before [] = []
  order_by before (x ∷ xs) = insert_by before x (order_by before xs)

module _ {ℓ} {R : Type ℓ} where
  -- An UPDATE that keeps the column of a lookup acts on the row that the lookup finds.
  pub find-update_where :
      (q p : R → Bool) (f : R → R) (rs : List R)
      → ((r : R) → q (updated p f r) ≡ q r)
      → find q (update_where p f rs) ≡ Option.map (updated p f) (find q rs)
  unfolding find update_where
  find-update_where q p f [] keep = refl
  find-update_where q p f (r ∷ rs) keep = ground (arith, keep r, find-update_where q p f rs keep)

  -- A SELECT keeps what holds of the rows, and adds its condition.
  pub All-select {κ} :
      (P : R → Type κ) (p : R → Bool) (rs : List R)
      → All P rs
      → All (λ r. (p r ≡ true) × P r) (select p rs)
  unfolding select
  All-select P p [] h = tt
  All-select P p (r ∷ rs) h =
      let ih = All-select P p rs h.1 in
      All-if (λ x. (p x ≡ true) × P x) (p r) (r ∷ select p rs) (select p rs) (λ t. ((t, h.0), ih))
        (λ _. ih)

  All-insert_by {κ} :
      (P : R → Type κ) (before : R → R → Bool) (x : R) (rs : List R)
      → P x
      → All P rs
      → All P (insert_by before x rs)
  unfolding insert_by
  All-insert_by P before x [] hx h = (hx, tt)
  All-insert_by P before x (y ∷ ys) hx h =
      let ih = All-insert_by P before x ys hx h.1 in
      All-if P (before y x) (y ∷ insert_by before x ys) (x ∷ y ∷ ys) (λ _. (h.0, ih)) (λ _. (hx, h))

  pub All-order_by {κ} :
      (P : R → Type κ) (before : R → R → Bool) (rs : List R) → All P rs → All P (order_by before rs)
  unfolding order_by
  All-order_by P before [] h = tt
  All-order_by P before (x ∷ xs) h =
      All-insert_by P before x (order_by before xs) h.0 (All-order_by P before xs h.1)

  -- What a lookup finds it still finds when a row comes in at the end.
  pub find-append_some :
      (q : R → Bool) (rs : List R) (x r : R) → find q rs ≡ some r → find q (rs ++ x ∷ []) ≡ some r
  unfolding find
  find-append_some q [] x r h = cc
  find-append_some q (y ∷ rs) x r h = ground (arith, find-append_some q rs x r)

  -- An UPDATE keeps the number of rows.
  pub length-update_where :
      (p : R → Bool) (f : R → R) (rs : List R) → length (update_where p f rs) ≡ length rs
  unfolding update_where
  length-update_where p f [] = refl
  length-update_where p f (r ∷ rs) = ap suc (length-update_where p f rs)

-- INSERT, where `clash` says that a row has a key of the new one, and `foreign` that the rows which
-- the new one refers to exist.
unfoldable pub insert_row {ℓ} :
    {R : Type ℓ} → (R → Bool) → Bool → R → List R → Result {0} Unit × List R
insert_row clash foreign row rows = elim (find clash rows) [
  | some _ ↦ (err (integrity_error "UNIQUE constraint failed"), rows)
  | none ↦
      if foreign
      then (ok tt, rows ++ row ∷ [])
      else (err (integrity_error "FOREIGN KEY constraint failed"), rows)
]

-- What a method returns after its statement: the value, unless the statement raised.
abbrev pub returning {ℓ κ} :
    {R : Type ℓ} {A : Type κ} → A → Result {0} Unit × List R → Result A × List R
returning a (ok _, rows) = (ok a, rows)
returning a (err e, rows) = (err e, rows)

-- REFERENCES table(id): NULL refers to nothing. `known table id` says that the row exists.
abbrev pub refers : (String → String → Bool) → String → Option String → Bool
refers known table none = true
refers known table (some id) = known table id

-- fetchone, with the mapping of the row
abbrev pub fetch_one {ℓ κ} :
    {R : Type ℓ} {A : Type κ} → (R → Result A) → Option R → Result (Option A)
fetch_one read none = ok none
fetch_one read (some row) = read row >>= λ a. ok (some a)

-- fetchall, with the mapping of the rows
unfoldable pub fetch_all {ℓ κ} :
    {R : Type ℓ} {A : Type κ} → (R → Result A) → List R → Result (List A)
fetch_all read [] = ok []
fetch_all read (row ∷ rows) = read row >>= λ a. fetch_all read rows >>= λ rest. ok (a ∷ rest)

-- The row that one UPDATE with a key must hit: `if cursor.rowcount != 1: raise KeyError`.
abbrev pub hit_one {ℓ κ} : {R : Type ℓ} {A : Type κ} → ℕ → A → Error → List R → Result A × List R
hit_one count a e rows = if count == 1 then (ok a, rows) else (err e, rows)

-- LIMIT 1 and fetchone
abbrev pub first {ℓ} : {A : Type ℓ} → List A → Option A
first [] = none
first (a ∷ rest) = some a

-- ORDER BY a DESC, then by `next`, with `less` for `<` on floating-point numbers
abbrev pub descending {ℓ} : {F : Type ℓ} → (F → F → Bool) → F → F → Bool → Bool
descending less a b next = less b a || (not (less a b) && next)

-- due <= now, which is not so where due is NULL
abbrev pub is_due : Option ℕ → ℕ → Bool
is_due none now = false
is_due (some due) now = leb due now
