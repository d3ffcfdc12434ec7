-- ===== src/Rows/InnerLoop.antt =====
-- src/ssa/storage/lifecycle_repository.py: the rows of the state of the inner loop. JSON columns hold texts; a text
-- that names no member of an enumeration raises a ValueError.
pub mod ReadBack
use zero_hdsc.Base.{ℕ, String, Option, List, Result, ok, or_raise, value_error, ◌>>=◌}
use zero_hdsc.Domain.InnerLoop.{InnerLoopState, InnerLifeMode, mode_of, mode_value}
use zero_hdsc.Rows.Json.{Json, or_default}

pub record StateRow {ℓ} (F : Type ℓ) : Type ℓ where
  pub conversation_id : String
  pub version : ℕ
  pub mode : String
  pub reply_expectation : F
  pub concern : F
  pub curiosity : F
  pub connection_pressure : F
  pub uncertainty : F
  pub offline_readiness : F
  pub wait_started_at_ms : Option ℕ
  pub wait_deadline_at_ms : Option ℕ
  pub last_user_event_id : Option String
  pub last_agent_event_id : Option String
  pub last_heartbeat_at_ms : ℕ
  pub transition_reason : String
  pub updated_at_ms : ℕ

module _ {ℓ} {F : Type ℓ} where
  -- The parameters of the INSERT.
  unfoldable pub state_row : InnerLoopState F → StateRow F
  state_row state = record {
    conversation_id = state.conversation_id;
    version = state.version;
    mode = mode_value state.mode;
    reply_expectation = state.reply_expectation;
    concern = state.concern;
    curiosity = state.curiosity;
    connection_pressure = state.connection_pressure;
    uncertainty = state.uncertainty;
    offline_readiness = state.offline_readiness;
    wait_started_at_ms = state.wait_started_at_ms;
    wait_deadline_at_ms = state.wait_deadline_at_ms;
    last_user_event_id = state.last_user_event_id;
    last_agent_event_id = state.last_agent_event_id;
    last_heartbeat_at_ms = state.last_heartbeat_at_ms;
    transition_reason = state.transition_reason;
    updated_at_ms = state.updated_at_ms;
  }

  unfoldable pub row_to_state : StateRow F → Result (InnerLoopState F)
  row_to_state row = do
    mode ← or_raise (mode_of row.mode) (value_error "")
    ok record {
      conversation_id = row.conversation_id;
      version = row.version;
      mode = mode;
      reply_expectation = row.reply_expectation;
      concern = row.concern;
      curiosity = row.curiosity;
      connection_pressure = row.connection_pressure;
      uncertainty = row.uncertainty;
      offline_readiness = row.offline_readiness;
      wait_started_at_ms = row.wait_started_at_ms;
      wait_deadline_at_ms = row.wait_deadline_at_ms;
      last_user_event_id = row.last_user_event_id;
      last_agent_event_id = row.last_agent_event_id;
      last_heartbeat_at_ms = row.last_heartbeat_at_ms;
      transition_reason = row.transition_reason;
      updated_at_ms = row.updated_at_ms;
    }
