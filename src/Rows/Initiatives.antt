-- ===== src/Rows/Initiatives.antt =====
-- src/ssa/storage/lifecycle_repository.py: the rows of initiatives. JSON columns hold texts; a text
-- that names no member of an enumeration raises a ValueError.
pub mod ReadBack
use zero_hdsc.Base.{ℕ, String, Option, List, Result, ok, or_raise, value_error, ◌>>=◌}
use zero_hdsc.Domain.Initiatives.{
  Initiative, InitiativeStatus, initiative_status_of, initiative_status_value,
}
use zero_hdsc.Rows.Json.{Json, or_default}

pub record InitiativeRow {ℓ} (F : Type ℓ) : Type ℓ where
  pub id : String
  pub conversation_id : String
  pub motive : String
  pub intent : String
  pub content_draft : String
  pub urgency : F
  pub decision_score : F
  pub status : String
  pub earliest_send_at_ms : ℕ
  pub expires_at_ms : Option ℕ
  pub correlation_id : Option String
  pub goal_id : Option String
  pub source_event_ids_json : String
  pub source_trace_ids_json : String
  pub decision_json : String
  pub channel : String
  pub dedup_key : Option String
  pub sent_event_id : Option String
  pub created_at_ms : ℕ
  pub updated_at_ms : ℕ

module _ {ℓ} {F V : Type ℓ} (json : Json V) where
  -- The parameters of the INSERT.
  unfoldable pub initiative_row : Initiative F V → InitiativeRow F
  initiative_row initiative = record {
    id = initiative.id;
    conversation_id = initiative.conversation_id;
    motive = initiative.motive;
    intent = initiative.intent;
    content_draft = initiative.content_draft;
    urgency = initiative.urgency;
    decision_score = initiative.decision_score;
    status = initiative_status_value initiative.status;
    earliest_send_at_ms = initiative.earliest_send_at_ms;
    expires_at_ms = initiative.expires_at_ms;
    correlation_id = initiative.correlation_id;
    goal_id = initiative.goal_id;
    source_event_ids_json = json.dump_texts initiative.source_event_ids;
    source_trace_ids_json = json.dump_texts initiative.source_trace_ids;
    decision_json = json.dumps initiative.decision;
    channel = initiative.channel;
    dedup_key = initiative.dedup_key;
    sent_event_id = initiative.sent_event_id;
    created_at_ms = initiative.created_at_ms;
    updated_at_ms = initiative.updated_at_ms;
  }

  unfoldable pub row_to_initiative : InitiativeRow F → Result (Initiative F V)
  row_to_initiative row = do
    status ← or_raise (initiative_status_of row.status) (value_error "")
    source_event_ids ← json.load_texts (or_default row.source_event_ids_json "[]")
    source_trace_ids ← json.load_texts (or_default row.source_trace_ids_json "[]")
    decision ← json.loads (or_default row.decision_json "{}")
    ok record {
      id = row.id;
      conversation_id = row.conversation_id;
      motive = row.motive;
      intent = row.intent;
      content_draft = row.content_draft;
      urgency = row.urgency;
      decision_score = row.decision_score;
      status = status;
      earliest_send_at_ms = row.earliest_send_at_ms;
      expires_at_ms = row.expires_at_ms;
      correlation_id = row.correlation_id;
      goal_id = row.goal_id;
      source_event_ids = source_event_ids;
      source_trace_ids = source_trace_ids;
      decision = decision;
      channel = row.channel;
      dedup_key = row.dedup_key;
      sent_event_id = row.sent_event_id;
      created_at_ms = row.created_at_ms;
      updated_at_ms = row.updated_at_ms;
    }
