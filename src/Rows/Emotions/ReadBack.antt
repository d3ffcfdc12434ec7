-- ===== src/Rows/Emotions/ReadBack.antt =====
-- src/ssa/storage/lifecycle_repository.py: what is read back from a row of emotion episodes.
use zero_hdsc.Base.{refl, ◌≡◌, ok}
use zero_hdsc.Domain.Emotions.{
  EmotionEpisode, emotion_type_of-emotion_type_value, emotion_status_of-emotion_status_value,
}
use zero_hdsc.Rows.Json.{Json, ReadsTexts, or_default-dump_texts}
use zero_hdsc.Rows.Emotions.{emotion_row, row_to_emotion}

-- An emotion episode whose JSON columns are not empty and are read back by json.loads is read back from its row as it was.
pub row_to_emotion-emotion_row {ℓ} :
    {F V : Type ℓ} (json : Json V) (emotion : EmotionEpisode F)
    → ReadsTexts json emotion.source_event_ids
    → ReadsTexts json emotion.source_trace_ids
    → row_to_emotion json (emotion_row json emotion) ≡ ok emotion
unfolding row_to_emotion emotion_row
row_to_emotion-emotion_row json emotion h1 h2 =
    rw
      (
        emotion_type_of-emotion_type_value emotion.emotion_type,
        or_default-dump_texts json emotion.source_event_ids "[]" h1.0,
        h1.1,
        or_default-dump_texts json emotion.source_trace_ids "[]" h2.0,
        h2.1,
        emotion_status_of-emotion_status_value emotion.status,
      )
      refl
