-- ===== src/InnerLoop/Examples.antt =====
-- A run of `upsert` over a table with a row of the conversation.
use zero_hdsc.Base.{ℕ, ◌≡◌, refl, String, Bool, err, integrity_error, [], ◌∷◌, some, none, str_eq}
use zero_hdsc.Domain.InnerLoop.{InnerLoopState, InnerLifeMode}
use zero_hdsc.Rows.InnerLoop.{state_row}
use zero_hdsc.InnerLoop.{upsert}
use zero_hdsc.InnerLoop.Lookup.{Upserts, get-upsert}

abbrev engaged_state : InnerLoopState ℕ
engaged_state = record {
  conversation_id = "cli";
  version = 1;
  mode = InnerLifeMode.engaged;
  reply_expectation = 1;
  concern = 0;
  curiosity = 1;
  connection_pressure = 0;
  uncertainty = 0;
  offline_readiness = 0;
  wait_started_at_ms = none;
  wait_deadline_at_ms = none;
  last_user_event_id = some "event-1";
  last_agent_event_id = none;
  last_heartbeat_at_ms = 10;
  transition_reason = "user";
  updated_at_ms = 10;
}

abbrev waiting_state : InnerLoopState ℕ
waiting_state = record engaged_state {
  version = 2;
  mode = InnerLifeMode.waiting;
  wait_started_at_ms = some 20;
  wait_deadline_at_ms = some 90;
}

abbrev known : String → Bool
known id = str_eq id "event-1"

get-upsert_example :
    Upserts known waiting_state
      (state_row engaged_state ∷ [])
      "cli"
      (upsert known waiting_state (state_row engaged_state ∷ []))
get-upsert_example = get-upsert known waiting_state (state_row engaged_state ∷ []) "cli"

-- A state that names an event which is not there is refused.
refused :
    upsert known (record waiting_state { last_agent_event_id = some "event-2" }) []
    ≡ (err (integrity_error "FOREIGN KEY constraint failed"), [])
unfolding upsert
refused = refl
