-- ===== src/Rows/Goals/ReadBack.antt =====
-- src/ssa/storage/lifecycle_repository.py: what is read back from a row of goals and their steps.
use zero_hdsc.Base.{refl, ◌≡◌, ok}
use zero_hdsc.Domain.Goals.{Goal, GoalStep, owner_of-owner_value, goal_status_of-goal_status_value}
use zero_hdsc.Rows.Json.{Json, Reads, ReadsTexts, or_default-dumps}
use zero_hdsc.Rows.Goals.{goal_row, row_to_goal, step_row, row_to_step}

-- A goal whose JSON columns are not empty and are read back by json.loads is read back from its row as it was.
pub row_to_goal-goal_row {ℓ} :
    {F V : Type ℓ} (json : Json V) (goal : Goal F)
    → ReadsTexts json goal.success_criteria
    → row_to_goal json (goal_row json goal) ≡ ok goal
unfolding row_to_goal goal_row
row_to_goal-goal_row json goal h1 =
    rw (owner_of-owner_value goal.owner, h1.1, goal_status_of-goal_status_value goal.status) refl

-- A step whose JSON columns are not empty and are read back by json.loads is read back from its row as it was.
pub row_to_step-step_row {ℓ} :
    {V : Type ℓ} (json : Json V) (step : GoalStep V)
    → Reads json step.metadata
    → row_to_step json (step_row json step) ≡ ok step
unfolding row_to_step step_row
row_to_step-step_row json step h1 = rw (or_default-dumps json step.metadata "{}" h1.0, h1.1) refl
