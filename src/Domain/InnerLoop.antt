-- ===== src/Domain/InnerLoop.antt =====
-- src/ssa/domain/lifecycle.py: the state of the inner loop, with the enumerations and the texts of their
-- members. The floating-point numbers are of a type `F`, the values of JSON objects of a type `V`.
use zero_hdsc.Base.{ℕ, String, ◌≡◌, refl, Option, none, some, if◌then◌else◌, str_eq}

pub data InnerLifeMode : Type 0 where
  engaged waiting offline quiet_rest : InnerLifeMode

-- InnerLifeMode.value
unfoldable pub mode_value : InnerLifeMode → String
mode_value InnerLifeMode.engaged = "engaged"
mode_value InnerLifeMode.waiting = "waiting"
mode_value InnerLifeMode.offline = "offline"
mode_value InnerLifeMode.quiet_rest = "quiet_rest"

-- InnerLifeMode(text); `none` is a ValueError
unfoldable pub mode_of : String → Option InnerLifeMode
mode_of text =
    if str_eq text "engaged"
    then some InnerLifeMode.engaged
    else if str_eq text "waiting"
    then some InnerLifeMode.waiting
    else if str_eq text "offline"
    then some InnerLifeMode.offline
    else if str_eq text "quiet_rest"
    then some InnerLifeMode.quiet_rest
    else none

pub mode_of-mode_value : (member : InnerLifeMode) → mode_of (mode_value member) ≡ some member
unfolding mode_of mode_value
mode_of-mode_value InnerLifeMode.engaged = refl
mode_of-mode_value InnerLifeMode.waiting = refl
mode_of-mode_value InnerLifeMode.offline = refl
mode_of-mode_value InnerLifeMode.quiet_rest = refl

pub record InnerLoopState {ℓ} (F : Type ℓ) : Type ℓ where
  pub conversation_id : String
  pub version : ℕ
  pub mode : InnerLifeMode
  pub reply_expectation : F
  pub concern : F
  pub curiosity : F
  pub connection_pressure : F
  pub uncertainty : F
  pub offline_readiness : F
  pub wait_started_at_ms : Option ℕ
  pub wait_deadline_at_ms : Option ℕ
  pub last_user_event_id : Option String
  pub last_agent_event_id : Option String
  pub last_heartbeat_at_ms : ℕ
  pub transition_reason : String
  pub updated_at_ms : ℕ
