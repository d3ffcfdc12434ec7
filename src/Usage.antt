-- ===== src/Usage.antt =====
-- src/ssa/storage/lifecycle_repository.py: BackgroundUsageRepository, over the table
-- `background_usage` with one row for a day.
pub mod Budget
mod Examples
use zero_hdsc.Base.{
  ℕ, ◌+◌, String, Bool, ◌&&◌, Option, none, some, List, [], ◌∷◌, ◌++◌, ltb, leb, ◌==◌,
  if◌then◌else◌, str_eq, Result, ok, err, value_error, find, update_where, rowcount,
}

pub record UsageRow : Type 0 where
  pub usage_day : String
  pub llm_calls : ℕ
  pub updated_at_ms : ℕ

abbrev pub is_of : String → UsageRow → Bool
is_of day r = str_eq r.usage_day day

abbrev calls : Option UsageRow → ℕ
calls none = 0
calls (some r) = r.llm_calls

unfoldable pub used : List UsageRow → String → ℕ
used rows day = calls (find (is_of day) rows)

-- INSERT OR IGNORE
abbrev pub ensured : Option UsageRow → String → ℕ → List UsageRow → List UsageRow
ensured none day now rows =
    rows ++ record { usage_day = day; llm_calls = 0; updated_at_ms = now } ∷ []
ensured (some r) day now rows = rows

abbrev pub fits : String → ℕ → ℕ → UsageRow → Bool
fits day amount limit r = is_of day r && leb (r.llm_calls + amount) limit

abbrev pub charged : ℕ → ℕ → UsageRow → UsageRow
charged amount now r = record r { llm_calls = r.llm_calls + amount; updated_at_ms = now }

unfoldable pub try_consume : String → ℕ → ℕ → ℕ → List UsageRow → Result Bool × List UsageRow
try_consume day now limit amount rows =
    let rows' = ensured (find (is_of day) rows) day now rows in
    if ltb amount 1 then (err (value_error "amount must be positive"), rows) else (
      ok (rowcount (fits day amount limit) rows' == 1),
      update_where (fits day amount limit) (charged amount now) rows',
    )
