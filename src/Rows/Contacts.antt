-- ===== src/Rows/Contacts.antt =====
-- src/ssa/storage/lifecycle_repository.py: the rows of contact episodes. JSON columns hold texts; a text
-- that names no member of an enumeration raises a ValueError.
pub mod ReadBack
use zero_hdsc.Base.{ℕ, String, Option, List, Result, ok, or_raise, value_error, ◌>>=◌}
use zero_hdsc.Domain.Contacts.{
  ContactEpisode, ContactPhase, ContactStatus, contact_phase_of, contact_phase_value,
  contact_status_of, contact_status_value,
}
use zero_hdsc.Rows.Json.{Json, or_default}

pub record ContactEpisodeRow : Type 0 where
  pub id : String
  pub conversation_id : String
  pub correlation_id : String
  pub motive : String
  pub topic : String
  pub phase : String
  pub status : String
  pub message_count : ℕ
  pub max_messages : ℕ
  pub hypothesis_json : String
  pub source_initiative_id : Option String
  pub last_sent_at_ms : Option ℕ
  pub next_action_at_ms : Option ℕ
  pub resolved_by_event_id : Option String
  pub created_at_ms : ℕ
  pub updated_at_ms : ℕ

module _ {ℓ} {V : Type ℓ} (json : Json V) where
  -- The parameters of the INSERT.
  unfoldable pub contact_row : ContactEpisode V → ContactEpisodeRow
  contact_row contact = record {
    id = contact.id;
    conversation_id = contact.conversation_id;
    correlation_id = contact.correlation_id;
    motive = contact.motive;
    topic = contact.topic;
    phase = contact_phase_value contact.phase;
    status = contact_status_value contact.status;
    message_count = contact.message_count;
    max_messages = contact.max_messages;
    hypothesis_json = json.dumps contact.hypotheses;
    source_initiative_id = contact.source_initiative_id;
    last_sent_at_ms = contact.last_sent_at_ms;
    next_action_at_ms = contact.next_action_at_ms;
    resolved_by_event_id = contact.resolved_by_event_id;
    created_at_ms = contact.created_at_ms;
    updated_at_ms = contact.updated_at_ms;
  }

  unfoldable pub row_to_contact : ContactEpisodeRow → Result (ContactEpisode V)
  row_to_contact row = do
    phase ← or_raise (contact_phase_of row.phase) (value_error "")
    status ← or_raise (contact_status_of row.status) (value_error "")
    hypotheses ← json.loads (or_default row.hypothesis_json "{}")
    ok record {
      id = row.id;
      conversation_id = row.conversation_id;
      correlation_id = row.correlation_id;
      motive = row.motive;
      topic = row.topic;
      phase = phase;
      status = status;
      message_count = row.message_count;
      max_messages = row.max_messages;
      hypotheses = hypotheses;
      source_initiative_id = row.source_initiative_id;
      last_sent_at_ms = row.last_sent_at_ms;
      next_action_at_ms = row.next_action_at_ms;
      resolved_by_event_id = row.resolved_by_event_id;
      created_at_ms = row.created_at_ms;
      updated_at_ms = row.updated_at_ms;
    }
