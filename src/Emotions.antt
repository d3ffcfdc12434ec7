-- ===== src/Emotions.antt =====
-- src/ssa/storage/lifecycle_repository.py: EmotionEpisodeRepository, over the table
-- `emotion_episodes`. Floating-point arithmetic is a parameter.
use zero_hdsc.Base.{
  ℕ, ◌-◌, String, Bool, true, false, ◌&&◌, ◌||◌, some, List, [], ◌∷◌, ltb, if◌then◌else◌, str_eq,
  Result, ok, err, value_error, select, update_where, rowcount, order_by, insert_row, returning,
  fetch_all, descending,
}
use zero_hdsc.Domain.Emotions.{EmotionEpisode}
use zero_hdsc.Rows.Json.{Json}
use zero_hdsc.Rows.Emotions.{EmotionEpisodeRow, emotion_row, row_to_emotion}

-- Python's floats: <, and the operations of `expire_decayed`.
pub record Floats {ℓ} (F : Type ℓ) : Type ℓ where
  pub less : F → F → Bool
  pub from_int : ℕ → F
  pub half : F
  pub times : F → F → F
  pub over : F → F → F
  pub power : F → F → F

-- x in xs
unfoldable pub is_in : String → List String → Bool
is_in x [] = false
is_in x (y ∷ ys) = str_eq x y || is_in x ys

module _ {ℓ} {F : Type ℓ} where
  abbrev pub is_active : String → EmotionEpisodeRow F → Bool
  is_active conversation r = str_eq r.conversation_id conversation && str_eq r.status "active"

  abbrev pub closed_row : String → ℕ → EmotionEpisodeRow F → EmotionEpisodeRow F
  closed_row status now r = record r {
    status = status;
    resolved_at_ms = some now;
    updated_at_ms = now;
  }

  unfoldable pub resolve_all :
      String → ℕ → List (EmotionEpisodeRow F) → ℕ × List (EmotionEpisodeRow F)
  resolve_all conversation now rows = (
    rowcount (is_active conversation) rows,
    update_where (is_active conversation) (closed_row "resolved" now) rows,
  )

module _ {ℓ} {F V : Type ℓ} (json : Json V) where
  unfoldable pub insert :
      EmotionEpisode F
      → List (EmotionEpisodeRow F)
      → Result (EmotionEpisode F) × List (EmotionEpisodeRow F)
  insert episode rows =
      returning episode
        (insert_row (λ r. str_eq r.id episode.id) true (emotion_row json episode) rows)

module _ {ℓ} {F V : Type ℓ} (json : Json V) (floats : Floats F) where
  unfoldable pub active : List (EmotionEpisodeRow F) → String → Result (List (EmotionEpisode F))
  active rows conversation = fetch_all (row_to_emotion json) (
      order_by
        (λ a b.
          descending floats.less a.intensity b.intensity (ltb b.updated_at_ms a.updated_at_ms))
        (select (is_active conversation) rows))

  -- `max(0.0, ...)` of the age is the subtraction that stops at 0.
  abbrev pub effective : ℕ → EmotionEpisode F → F
  effective now episode =
      let age =
        floats.over (floats.from_int (now - episode.updated_at_ms)) (floats.from_int 60000) in
      floats.times episode.intensity
        (floats.power floats.half (floats.over age episode.half_life_minutes))

  unfoldable pub expired_ids : ℕ → F → List (EmotionEpisode F) → List String
  expired_ids now threshold [] = []
  expired_ids now threshold (episode ∷ rest) =
      let ids = expired_ids now threshold rest in
      if floats.less (effective now episode) threshold then episode.id ∷ ids else ids

  abbrev pub is_decayed : List String → EmotionEpisodeRow F → Bool
  is_decayed ids r = is_in r.id ids && str_eq r.status "active"

  abbrev pub expire :
      ℕ → List (EmotionEpisodeRow F) → List String → Result {0} ℕ × List (EmotionEpisodeRow F)
  expire now rows [] = (ok 0, rows)
  expire now rows (id ∷ ids) = (
    ok (rowcount (is_decayed (id ∷ ids)) rows),
    update_where (is_decayed (id ∷ ids)) (closed_row "expired" now) rows,
  )

  abbrev pub expire_among :
      ℕ
      → F
      → List (EmotionEpisodeRow F)
      → Result (List (EmotionEpisode F))
      → Result {0} ℕ × List (EmotionEpisodeRow F)
  unfolding expired_ids
  expire_among now threshold rows (err e) = (err e, rows)
  expire_among now threshold rows (ok episodes) =
      expire now rows (expired_ids now threshold episodes)

  unfoldable pub expire_decayed :
      String → ℕ → F → List (EmotionEpisodeRow F) → Result {0} ℕ × List (EmotionEpisodeRow F)
  unfolding active
  expire_decayed conversation now threshold rows =
      if floats.less (floats.from_int 0) threshold && floats.less threshold (floats.from_int 1)
      then expire_among now threshold rows (active rows conversation)
      else (err (value_error "threshold must be in (0, 1)"), rows)
