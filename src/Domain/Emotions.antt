-- ===== src/Domain/Emotions.antt =====
-- src/ssa/domain/lifecycle.py: emotion episodes, with the enumerations and the texts of their
-- members. The floating-point numbers are of a type `F`, the values of JSON objects of a type `V`.
use zero_hdsc.Base.{ℕ, String, ◌≡◌, refl, Option, none, some, List, if◌then◌else◌, str_eq}

pub data EmotionType : Type 0 where
  attachment curiosity concern anticipation frustration contentment ambivalence : EmotionType

-- EmotionType.value
unfoldable pub emotion_type_value : EmotionType → String
emotion_type_value EmotionType.attachment = "attachment"
emotion_type_value EmotionType.curiosity = "curiosity"
emotion_type_value EmotionType.concern = "concern"
emotion_type_value EmotionType.anticipation = "anticipation"
emotion_type_value EmotionType.frustration = "frustration"
emotion_type_value EmotionType.contentment = "contentment"
emotion_type_value EmotionType.ambivalence = "ambivalence"

-- EmotionType(text); `none` is a ValueError
unfoldable pub emotion_type_of : String → Option EmotionType
emotion_type_of text =
    if str_eq text "attachment"
    then some EmotionType.attachment
    else if str_eq text "curiosity"
    then some EmotionType.curiosity
    else if str_eq text "concern"
    then some EmotionType.concern
    else if str_eq text "anticipation"
    then some EmotionType.anticipation
    else if str_eq text "frustration"
    then some EmotionType.frustration
    else if str_eq text "contentment"
    then some EmotionType.contentment
    else if str_eq text "ambivalence"
    then some EmotionType.ambivalence
    else none

pub emotion_type_of-emotion_type_value :
    (member : EmotionType) → emotion_type_of (emotion_type_value member) ≡ some member
unfolding emotion_type_of emotion_type_value
emotion_type_of-emotion_type_value EmotionType.attachment = refl
emotion_type_of-emotion_type_value EmotionType.curiosity = refl
emotion_type_of-emotion_type_value EmotionType.concern = refl
emotion_type_of-emotion_type_value EmotionType.anticipation = refl
emotion_type_of-emotion_type_value EmotionType.frustration = refl
emotion_type_of-emotion_type_value EmotionType.contentment = refl
emotion_type_of-emotion_type_value EmotionType.ambivalence = refl

pub data EmotionStatus : Type 0 where
  active resolved expired : EmotionStatus

-- EmotionStatus.value
unfoldable pub emotion_status_value : EmotionStatus → String
emotion_status_value EmotionStatus.active = "active"
emotion_status_value EmotionStatus.resolved = "resolved"
emotion_status_value EmotionStatus.expired = "expired"

-- EmotionStatus(text); `none` is a ValueError
unfoldable pub emotion_status_of : String → Option EmotionStatus
emotion_status_of text =
    if str_eq text "active"
    then some EmotionStatus.active
    else if str_eq text "resolved"
    then some EmotionStatus.resolved
    else if str_eq text "expired"
    then some EmotionStatus.expired
    else none

pub emotion_status_of-emotion_status_value :
    (member : EmotionStatus) → emotion_status_of (emotion_status_value member) ≡ some member
unfolding emotion_status_of emotion_status_value
emotion_status_of-emotion_status_value EmotionStatus.active = refl
emotion_status_of-emotion_status_value EmotionStatus.resolved = refl
emotion_status_of-emotion_status_value EmotionStatus.expired = refl

pub record EmotionEpisode {ℓ} (F : Type ℓ) : Type ℓ where
  pub id : String
  pub conversation_id : String
  pub emotion_type : EmotionType
  pub target : String
  pub action_tendency : String
  pub intensity : F
  pub inhibition : F
  pub half_life_minutes : F
  pub correlation_id : Option String
  pub source_event_ids : List String
  pub source_trace_ids : List String
  pub resolution_condition : Option String
  pub status : EmotionStatus
  pub created_at_ms : ℕ
  pub updated_at_ms : ℕ
  pub resolved_at_ms : Option ℕ
