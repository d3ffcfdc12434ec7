-- ===== src/Rows/SelfBeliefs.antt =====
-- src/ssa/storage/self_belief_repository.py: the rows of self-beliefs. JSON columns hold texts; a text
-- that names no member of an enumeration raises a ValueError.
pub mod ReadBack
use zero_hdsc.Base.{
  ℕ, String, Option, none, some, List, if◌then◌else◌, ◌==◌, Result, ok, or_raise, value_error,
  ◌>>=◌,
}
use zero_hdsc.Domain.SelfBeliefs.{
  SelfBelief, SelfBeliefEvidenceRelation, SelfBeliefStatus, belief_status_of, belief_status_value,
  relation_of, relation_value,
}
use zero_hdsc.Rows.Json.{Json, or_default}

pub record SelfBeliefRow {ℓ} (F : Type ℓ) : Type ℓ where
  pub id : String
  pub lineage_id : Option String
  pub claim : String
  pub confidence : F
  pub status : String
  pub version : ℕ
  pub evidence_json : String
  pub counterevidence_json : String
  pub previous_id : Option String
  pub cause_event_id : Option String
  pub change_reason : String
  pub model : Option String
  pub prompt_version : Option String
  pub candidate_since_ms : Option ℕ
  pub activated_at_ms : Option ℕ
  pub created_at_ms : ℕ
  pub updated_at_ms : ℕ

-- data.get("lineage_id") or belief_id
abbrev pub or_id : Option String → String → String
or_id none id = id
or_id (some lineage) id = or_default lineage id

-- data.get("candidate_since_ms") or data["created_at_ms"]
abbrev pub or_created : Option ℕ → ℕ → ℕ
or_created none created = created
or_created (some since) created = if since == 0 then created else since

module _ {ℓ} {F V : Type ℓ} (json : Json V) where
  -- The parameters of the INSERT.
  unfoldable pub belief_row : SelfBelief F → SelfBeliefRow F
  belief_row belief = record {
    id = belief.id;
    lineage_id = some belief.lineage_id;
    claim = belief.claim;
    confidence = belief.confidence;
    status = belief_status_value belief.status;
    version = belief.version;
    evidence_json = json.dump_texts belief.evidence_event_ids;
    counterevidence_json = json.dump_texts belief.counterevidence_event_ids;
    previous_id = belief.previous_id;
    cause_event_id = belief.cause_event_id;
    change_reason = belief.change_reason;
    model = belief.model;
    prompt_version = belief.prompt_version;
    candidate_since_ms = some belief.candidate_since_ms;
    activated_at_ms = belief.activated_at_ms;
    created_at_ms = belief.created_at_ms;
    updated_at_ms = belief.updated_at_ms;
  }

  unfoldable pub row_to_belief : SelfBeliefRow F → Result (SelfBelief F)
  row_to_belief row = do
    status ← or_raise (belief_status_of row.status) (value_error "")
    evidence_event_ids ← json.load_texts row.evidence_json
    counterevidence_event_ids ← json.load_texts row.counterevidence_json
    ok record {
      id = row.id;
      lineage_id = or_id row.lineage_id row.id;
      claim = row.claim;
      confidence = row.confidence;
      status = status;
      version = row.version;
      evidence_event_ids = evidence_event_ids;
      counterevidence_event_ids = counterevidence_event_ids;
      previous_id = row.previous_id;
      cause_event_id = row.cause_event_id;
      change_reason = or_default row.change_reason "legacy migration";
      model = row.model;
      prompt_version = row.prompt_version;
      candidate_since_ms = or_created row.candidate_since_ms row.created_at_ms;
      activated_at_ms = row.activated_at_ms;
      created_at_ms = row.created_at_ms;
      updated_at_ms = row.updated_at_ms;
    }
