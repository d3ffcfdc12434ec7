-- ===== src/Rows/Emotions.antt =====
-- src/ssa/storage/lifecycle_repository.py: the rows of emotion episodes. JSON columns hold texts; a text
-- that names no member of an enumeration raises a ValueError.
pub mod ReadBack
use zero_hdsc.Base.{ℕ, String, Option, List, Result, ok, or_raise, value_error, ◌>>=◌}
use zero_hdsc.Domain.Emotions.{
  EmotionEpisode, EmotionStatus, EmotionType, emotion_status_of, emotion_status_value,
  emotion_type_of, emotion_type_value,
}
use zero_hdsc.Rows.Json.{Json, or_default}

pub record EmotionEpisodeRow {ℓ} (F : Type ℓ) : Type ℓ where
  pub id : String
  pub conversation_id : String
  pub emotion_type : String
  pub target : String
  pub action_tendency : String
  pub intensity : F
  pub inhibition : F
  pub half_life_minutes : F
  pub correlation_id : Option String
  pub source_event_ids_json : String
  pub source_trace_ids_json : String
  pub resolution_condition : Option String
  pub status : String
  pub created_at_ms : ℕ
  pub updated_at_ms : ℕ
  pub resolved_at_ms : Option ℕ

module _ {ℓ} {F V : Type ℓ} (json : Json V) where
  -- The parameters of the INSERT.
  unfoldable pub emotion_row : EmotionEpisode F → EmotionEpisodeRow F
  emotion_row emotion = record {
    id = emotion.id;
    conversation_id = emotion.conversation_id;
    emotion_type = emotion_type_value emotion.emotion_type;
    target = emotion.target;
    action_tendency = emotion.action_tendency;
    intensity = emotion.intensity;
    inhibition = emotion.inhibition;
    half_life_minutes = emotion.half_life_minutes;
    correlation_id = emotion.correlation_id;
    source_event_ids_json = json.dump_texts emotion.source_event_ids;
    source_trace_ids_json = json.dump_texts emotion.source_trace_ids;
    resolution_condition = emotion.resolution_condition;
    status = emotion_status_value emotion.status;
    created_at_ms = emotion.created_at_ms;
    updated_at_ms = emotion.updated_at_ms;
    resolved_at_ms = emotion.resolved_at_ms;
  }

  unfoldable pub row_to_emotion : EmotionEpisodeRow F → Result (EmotionEpisode F)
  row_to_emotion row = do
    emotion_type ← or_raise (emotion_type_of row.emotion_type) (value_error "")
    source_event_ids ← json.load_texts (or_default row.source_event_ids_json "[]")
    source_trace_ids ← json.load_texts (or_default row.source_trace_ids_json "[]")
    status ← or_raise (emotion_status_of row.status) (value_error "")
    ok record {
      id = row.id;
      conversation_id = row.conversation_id;
      emotion_type = emotion_type;
      target = row.target;
      action_tendency = row.action_tendency;
      intensity = row.intensity;
      inhibition = row.inhibition;
      half_life_minutes = row.half_life_minutes;
      correlation_id = row.correlation_id;
      source_event_ids = source_event_ids;
      source_trace_ids = source_trace_ids;
      resolution_condition = row.resolution_condition;
      status = status;
      created_at_ms = row.created_at_ms;
      updated_at_ms = row.updated_at_ms;
      resolved_at_ms = row.resolved_at_ms;
    }
