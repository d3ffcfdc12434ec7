-- ===== src/Usage/Budget.antt =====
-- src/ssa/storage/lifecycle_repository.py: the budget that `try_consume` keeps.
use zero_hdsc.Base.{
  ℕ, ◌+◌, ◌≤◌, String, ◌≡◌, refl, false, some, List, [], ◌∷◌, ◌++◌, arith, ltb, leb, ◌==◌,
  if◌then◌else◌, eq_refl, ok, find, update_where, rowcount, Option-cases, ap, find-append_new,
  rowcount-append_new, find-eq_true, find-update_where, ◌∙◌, Bool-cases, inl, inr,
}
use mathlib.Core.Path.{subst}
use mathlib.Core.Option.{some-injective}
use zero_hdsc.Usage.{UsageRow, is_of, used, fits, charged, try_consume}

module _ (day : String) (now limit amount : ℕ) where
  rowcount_none :
      (rows : List UsageRow)
      → rowcount (is_of day) rows ≡ 0
      → rowcount (fits day amount limit) rows ≡ 0
  unfolding rowcount
  rowcount_none [] h = refl
  rowcount_none (r ∷ rows) h = ground (arith, rowcount_none rows)

  rowcount-fits :
      (rows : List UsageRow) (row : UsageRow)
      → find (is_of day) rows ≡ some row
      → rowcount (is_of day) rows ≤ 1
      → rowcount (fits day amount limit) rows
        ≡ (if leb (row.llm_calls + amount) limit then 1 else 0)
  unfolding find rowcount
  rowcount-fits [] row h k = cc
  rowcount-fits (r ∷ rows) row h k = elim (Bool-cases (is_of day r)) [
    | inl e ↦
        let same : some r ≡ some row = ground (arith, e, h) in
        let nothing : rowcount (is_of day) rows ≡ 0 = ground (arith, e, k) in
        subst
          (λ x.
            rowcount (fits day amount limit) (r ∷ rows)
            ≡ (if leb (x.llm_calls + amount) limit then 1 else 0))
          (some-injective r row same) (rw (e, rowcount_none rows nothing) refl)
    | inr e ↦
        let ih = rowcount-fits rows row (ground (arith, e, h)) (ground (arith, e, k)) in rw e ih
  ]

  find-charged :
      (rows : List UsageRow) (row : UsageRow)
      → find (is_of day) rows ≡ some row
      → find (is_of day) (update_where (fits day amount limit) (charged amount now) rows)
        ≡ some (if leb (row.llm_calls + amount) limit then charged amount now row else row)
  find-charged rows row h =
      let e = find-eq_true (is_of day) rows row h in
      find-update_where (is_of day) (fits day amount limit) (charged amount now) rows
        (λ r. ground arith)
      ∙ rw h (rw e refl)

  consume_found :
      (rows : List UsageRow) (row : UsageRow)
      → find (is_of day) rows ≡ some row
      → rowcount (is_of day) rows ≤ 1
      → ((rowcount (fits day amount limit) rows == 1) ≡ leb (row.llm_calls + amount) limit)
        × (used (update_where (fits day amount limit) (charged amount now) rows) day ≡ (
            if leb (row.llm_calls + amount) limit then row.llm_calls + amount else row.llm_calls))
  unfolding used
  consume_found rows row h k =
      (rw (rowcount-fits rows row h k) (ground arith), rw (find-charged rows row h) (ground arith))

ltb_one : (amount : ℕ) → 1 ≤ amount → ltb amount 1 ≡ false
ltb_one amount h = ground arith

-- Where a day has at most one row, a call with a positive amount answers whether the calls used so
-- far and the amount stay within the limit, and the calls used afterwards are the sum if it does,
-- and as before if not.
pub try_consume_budget :
    (day : String) (now limit amount : ℕ) (rows : List UsageRow)
    → 1 ≤ amount
    → rowcount (is_of day) rows ≤ 1
    → ((try_consume day now limit amount rows).0 ≡ ok (leb (used rows day + amount) limit))
      × (used (try_consume day now limit amount rows).1 day
          ≡ (if leb (used rows day + amount) limit then used rows day + amount else used rows day))
unfolding try_consume used
try_consume_budget day now limit amount rows h k = elim (Option-cases (find (is_of day) rows)) [
  | inl e ↦
      let row : UsageRow = record { usage_day = day; llm_calls = 0; updated_at_ms = now } in
      let found = find-append_new (is_of day) rows row e (eq_refl day) in
      let one : rowcount (is_of day) (rows ++ row ∷ []) ≤ 1 =
        rw (rowcount-append_new (is_of day) rows row e (eq_refl day)) (omega arith) in
      let r = consume_found day now limit amount (rows ++ row ∷ []) row found one in
      rw (e, ltb_one amount h) (ap ok r.0, r.1)
  | inr (row, e) ↦
      let r = consume_found day now limit amount rows row e k in
      rw (e, ltb_one amount h) (ap ok r.0, r.1)
]
