-- ===== src/Rows/Runs/ReadBack.antt =====
-- src/ssa/storage/learning_repository.py: what is read back from a row of reflection runs.
use zero_hdsc.Base.{refl, ◌≡◌, ok}
use zero_hdsc.Domain.Runs.{
  ReflectionRun, trigger_kind_of-trigger_kind_value, run_status_of-run_status_value,
}
use zero_hdsc.Rows.Json.{Json, Reads, ReadsTexts, or_default-dumps, or_default-dump_texts}
use zero_hdsc.Rows.Runs.{run_row, row_to_run}

-- A reflection run whose JSON columns are not empty and are read back by json.loads is read back from its row as it was.
pub row_to_run-run_row {ℓ} :
    {F V : Type ℓ} (json : Json V) (run : ReflectionRun F V)
    → Reads json run.score_components
    → ReadsTexts json run.source_event_ids
    → ReadsTexts json run.source_trace_ids
    → row_to_run json (run_row json run) ≡ ok run
unfolding row_to_run run_row
row_to_run-run_row json run h1 h2 h3 =
    rw
      (
        trigger_kind_of-trigger_kind_value run.trigger_kind,
        or_default-dumps json run.score_components "{}" h1.0,
        h1.1,
        run_status_of-run_status_value run.status,
        or_default-dump_texts json run.source_event_ids "[]" h2.0,
        h2.1,
        or_default-dump_texts json run.source_trace_ids "[]" h3.0,
        h3.1,
      )
      refl
