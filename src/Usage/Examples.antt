-- ===== src/Usage/Examples.antt =====
-- A run of `try_consume` on a day with a row.
use zero_hdsc.Base.{◌≡◌, List, [], ◌∷◌, ◌+◌, rowcount, ok, leb, if◌then◌else◌, arith}
use zero_hdsc.Usage.{UsageRow, used, try_consume}
use zero_hdsc.Usage.Budget.{try_consume_budget}

abbrev two_days : List UsageRow
two_days =
    record { usage_day = "2026-01-01"; llm_calls = 7; updated_at_ms = 1 }
    ∷ record { usage_day = "2026-01-02"; llm_calls = 3; updated_at_ms = 2 }
    ∷ []

try_consume_budget_example :
    ((try_consume "2026-01-02" 5 4 2 two_days).0 ≡ ok (leb (used two_days "2026-01-02" + 2) 4))
    × (used (try_consume "2026-01-02" 5 4 2 two_days).1 "2026-01-02" ≡ (
        if leb (used two_days "2026-01-02" + 2) 4
        then used two_days "2026-01-02" + 2
        else used two_days "2026-01-02"))
unfolding rowcount
try_consume_budget_example =
    try_consume_budget "2026-01-02" 5 4 2 two_days (omega arith) (omega arith)
