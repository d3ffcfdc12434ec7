-- ===== src/Rows/Initiatives/ReadBack.antt =====
-- src/ssa/storage/lifecycle_repository.py: what is read back from a row of initiatives.
use zero_hdsc.Base.{refl, ◌≡◌, ok}
use zero_hdsc.Domain.Initiatives.{Initiative, initiative_status_of-initiative_status_value}
use zero_hdsc.Rows.Json.{Json, Reads, ReadsTexts, or_default-dumps, or_default-dump_texts}
use zero_hdsc.Rows.Initiatives.{initiative_row, row_to_initiative}

-- An initiative whose JSON columns are not empty and are read back by json.loads is read back from its row as it was.
pub row_to_initiative-initiative_row {ℓ} :
    {F V : Type ℓ} (json : Json V) (initiative : Initiative F V)
    → ReadsTexts json initiative.source_event_ids
    → ReadsTexts json initiative.source_trace_ids
    → Reads json initiative.decision
    → row_to_initiative json (initiative_row json initiative) ≡ ok initiative
unfolding row_to_initiative initiative_row
row_to_initiative-initiative_row json initiative h1 h2 h3 =
    rw
      (
        initiative_status_of-initiative_status_value initiative.status,
        or_default-dump_texts json initiative.source_event_ids "[]" h1.0,
        h1.1,
        or_default-dump_texts json initiative.source_trace_ids "[]" h2.0,
        h2.1,
        or_default-dumps json initiative.decision "{}" h3.0,
        h3.1,
      )
      refl
