-- ===== src/Rows/Events.antt =====
-- src/ssa/storage/event_repository.py: the rows of events. JSON columns hold texts; a text
-- that names no member of an enumeration raises a ValueError.
pub mod ReadBack
use zero_hdsc.Base.{ℕ, String, Option, List, Result, ok, or_raise, value_error, ◌>>=◌}
use zero_hdsc.Domain.Events.{
  Event, Actor, SourceKind, actor_of, actor_value, source_kind_of, source_kind_value,
}
use zero_hdsc.Rows.Json.{Json, or_default}

pub record EventRow : Type 0 where
  pub id : String
  pub correlation_id : String
  pub conversation_id : String
  pub actor : String
  pub event_type : String
  pub source_kind : String
  pub content : String
  pub parent_event_id : Option String
  pub channel : Option String
  pub channel_message_id : Option String
  pub content_hash : String
  pub metadata_json : String
  pub created_at_ms : ℕ

module _ {ℓ} {V : Type ℓ} (json : Json V) where
  -- The parameters of the INSERT.
  unfoldable pub event_row : Event V → EventRow
  event_row event = record {
    id = event.id;
    correlation_id = event.correlation_id;
    conversation_id = event.conversation_id;
    actor = actor_value event.actor;
    event_type = event.event_type;
    source_kind = source_kind_value event.source_kind;
    content = event.content;
    parent_event_id = event.parent_event_id;
    channel = event.channel;
    channel_message_id = event.channel_message_id;
    content_hash = event.content_hash;
    metadata_json = json.dumps event.metadata;
    created_at_ms = event.created_at_ms;
  }

  unfoldable pub row_to_event : EventRow → Result (Event V)
  row_to_event row = do
    actor ← or_raise (actor_of row.actor) (value_error "")
    source_kind ← or_raise (source_kind_of row.source_kind) (value_error "")
    metadata ← json.loads (or_default row.metadata_json "{}")
    ok record {
      id = row.id;
      correlation_id = row.correlation_id;
      conversation_id = row.conversation_id;
      actor = actor;
      event_type = row.event_type;
      source_kind = source_kind;
      content = row.content;
      parent_event_id = row.parent_event_id;
      channel = row.channel;
      channel_message_id = row.channel_message_id;
      content_hash = row.content_hash;
      metadata = metadata;
      created_at_ms = row.created_at_ms;
    }
