-- ===== src/Rows/Goals.antt =====
-- src/ssa/storage/lifecycle_repository.py: the rows of goals and their steps. JSON columns hold texts; a text
-- that names no member of an enumeration raises a ValueError.
pub mod ReadBack
use zero_hdsc.Base.{ℕ, String, Option, List, Result, ok, or_raise, value_error, ◌>>=◌}
use zero_hdsc.Domain.Goals.{
  Goal, GoalStep, GoalOwner, GoalStatus, goal_status_of, goal_status_value, owner_of, owner_value,
}
use zero_hdsc.Rows.Json.{Json, or_default}

pub record GoalRow {ℓ} (F : Type ℓ) : Type ℓ where
  pub id : String
  pub conversation_id : String
  pub owner : String
  pub title : String
  pub motive : String
  pub success_criteria : String
  pub priority : F
  pub progress : F
  pub status : String
  pub due_at_ms : Option ℕ
  pub next_action_at_ms : Option ℕ
  pub correlation_id : Option String
  pub blocked_reason : Option String
  pub created_at_ms : ℕ
  pub updated_at_ms : ℕ

module _ {ℓ} {F V : Type ℓ} (json : Json V) where
  -- The parameters of the INSERT.
  unfoldable pub goal_row : Goal F → GoalRow F
  goal_row goal = record {
    id = goal.id;
    conversation_id = goal.conversation_id;
    owner = owner_value goal.owner;
    title = goal.title;
    motive = goal.motive;
    success_criteria = json.dump_texts goal.success_criteria;
    priority = goal.priority;
    progress = goal.progress;
    status = goal_status_value goal.status;
    due_at_ms = goal.due_at_ms;
    next_action_at_ms = goal.next_action_at_ms;
    correlation_id = goal.correlation_id;
    blocked_reason = goal.blocked_reason;
    created_at_ms = goal.created_at_ms;
    updated_at_ms = goal.updated_at_ms;
  }

  unfoldable pub row_to_goal : GoalRow F → Result (Goal F)
  row_to_goal row = do
    owner ← or_raise (owner_of row.owner) (value_error "")
    success_criteria ← json.load_texts row.success_criteria
    status ← or_raise (goal_status_of row.status) (value_error "")
    ok record {
      id = row.id;
      conversation_id = row.conversation_id;
      owner = owner;
      title = row.title;
      motive = row.motive;
      success_criteria = success_criteria;
      priority = row.priority;
      progress = row.progress;
      status = status;
      due_at_ms = row.due_at_ms;
      next_action_at_ms = row.next_action_at_ms;
      correlation_id = row.correlation_id;
      blocked_reason = row.blocked_reason;
      created_at_ms = row.created_at_ms;
      updated_at_ms = row.updated_at_ms;
    }

pub record GoalStepRow : Type 0 where
  pub id : String
  pub goal_id : String
  pub action : String
  pub result : Option String
  pub source_event_id : Option String
  pub metadata_json : String
  pub created_at_ms : ℕ

module _ {ℓ} {V : Type ℓ} (json : Json V) where
  -- The parameters of the INSERT.
  unfoldable pub step_row : GoalStep V → GoalStepRow
  step_row step = record {
    id = step.id;
    goal_id = step.goal_id;
    action = step.action;
    result = step.result;
    source_event_id = step.source_event_id;
    metadata_json = json.dumps step.metadata;
    created_at_ms = step.created_at_ms;
  }

  unfoldable pub row_to_step : GoalStepRow → Result (GoalStep V)
  row_to_step row = do
    metadata ← json.loads (or_default row.metadata_json "{}")
    ok record {
      id = row.id;
      goal_id = row.goal_id;
      action = row.action;
      result = row.result;
      source_event_id = row.source_event_id;
      metadata = metadata;
      created_at_ms = row.created_at_ms;
    }
