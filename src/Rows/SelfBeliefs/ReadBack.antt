-- ===== src/Rows/SelfBeliefs/ReadBack.antt =====
-- src/ssa/storage/self_belief_repository.py: what is read back from a row of self-beliefs.
use zero_hdsc.Base.{refl, ◌≡◌, false, str_eq, ◌==◌, ok}
use zero_hdsc.Domain.SelfBeliefs.{SelfBelief, belief_status_of-belief_status_value}
use zero_hdsc.Rows.Json.{Json, ReadsTexts, or_default}
use zero_hdsc.Rows.SelfBeliefs.{belief_row, row_to_belief}

-- A self-belief whose lineage and reason are not empty, whose time of candidacy is not 0, and whose
-- evidence is read back by json.loads, is read back from its row as it was.
pub row_to_belief-belief_row {ℓ} :
    {F V : Type ℓ} (json : Json V) (belief : SelfBelief F)
    → str_eq belief.lineage_id "" ≡ false
    → str_eq belief.change_reason "" ≡ false
    → (belief.candidate_since_ms == 0) ≡ false
    → ReadsTexts json belief.evidence_event_ids
    → ReadsTexts json belief.counterevidence_event_ids
    → row_to_belief json (belief_row json belief) ≡ ok belief
unfolding row_to_belief belief_row or_default
row_to_belief-belief_row json belief lineage reason since e c =
    rw (belief_status_of-belief_status_value belief.status, e.1, c.1, lineage, reason, since) refl
