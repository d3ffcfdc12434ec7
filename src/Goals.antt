-- ===== src/Goals.antt =====
-- src/ssa/storage/lifecycle_repository.py: GoalRepository, over the tables `goals` and `goal_steps`.
-- `less` is `<` on floating-point numbers, and `known` the foreign keys.
use zero_hdsc.Base.{
  descending, is_due, ℕ, String, Bool, true, false, ◌&&◌, ◌||◌, Option, none, some, List, ltb,
  str_eq, Result, unknown_row, find, select, update_where, rowcount, order_by, insert_row,
  returning, refers, fetch_one, fetch_all, hit_one,
}
use zero_hdsc.Domain.Goals.{Goal, GoalStep, GoalOwner, owner_value}
use zero_hdsc.Rows.Json.{Json}
use zero_hdsc.Rows.Goals.{GoalRow, GoalStepRow, goal_row, row_to_goal, step_row, row_to_step}

-- ORDER BY of an INTEGER column that may be NULL: NULL stands first.
abbrev pub null_first : Option ℕ → Option ℕ → Bool
null_first none none = false
null_first none (some b) = true
null_first (some a) none = false
null_first (some a) (some b) = ltb a b

abbrev is_open : String → Bool
is_open status = str_eq status "proposed" || (str_eq status "active" || str_eq status "blocked")

module _ {ℓ} {F V : Type ℓ} (json : Json V) where
  unfoldable pub insert : Goal F → List (GoalRow F) → Result (Goal F) × List (GoalRow F)
  insert goal rows =
      returning goal (insert_row (λ r. str_eq r.id goal.id) true (goal_row json goal) rows)

  unfoldable pub get : List (GoalRow F) → String → Result (Option (Goal F))
  get rows id = fetch_one (row_to_goal json) (find (λ r. str_eq r.id id) rows)

  module _ (less : F → F → Bool) where
    unfoldable pub list_active :
        List (GoalRow F) → String → Option GoalOwner → Result (List (Goal F))
    list_active rows conversation owner = fetch_all (row_to_goal json) (
        order_by
          (λ a b. descending less a.priority b.priority (ltb a.created_at_ms b.created_at_ms))
          (select
            (λ r.
              (str_eq r.conversation_id conversation && str_eq r.status "active")
              && elim owner [ none ↦ true | some o ↦ str_eq r.owner (owner_value o) ])
            rows))

    unfoldable pub list_open : List (GoalRow F) → String → Option GoalOwner → Result (List (Goal F))
    list_open rows conversation owner = fetch_all (row_to_goal json) (
        order_by
          (λ a b. descending less a.priority b.priority (ltb a.created_at_ms b.created_at_ms))
          (select
            (λ r.
              (str_eq r.conversation_id conversation && is_open r.status)
              && elim owner [ none ↦ true | some o ↦ str_eq r.owner (owner_value o) ])
            rows))

    unfoldable pub list_due : List (GoalRow F) → String → ℕ → Result (List (Goal F))
    list_due rows conversation now = fetch_all (row_to_goal json) (
        order_by
          (λ a b.
            descending less a.priority b.priority
              (null_first a.next_action_at_ms b.next_action_at_ms))
          (select
            (λ r.
              (str_eq r.conversation_id conversation
                && (str_eq r.status "active" || str_eq r.status "blocked"))
              && is_due r.next_action_at_ms now)
            rows))

  -- The columns that `update` leaves are id, conversation_id and created_at_ms.
  abbrev pub updated_row : Goal F → GoalRow F → GoalRow F
  updated_row goal r = record (goal_row json goal) {
    id = r.id;
    conversation_id = r.conversation_id;
    created_at_ms = r.created_at_ms;
  }

  unfoldable pub update : Goal F → List (GoalRow F) → Result (Goal F) × List (GoalRow F)
  update goal rows =
      let mine =
        λ (r : GoalRow F). str_eq r.id goal.id && str_eq r.conversation_id goal.conversation_id in
      hit_one (rowcount mine rows) goal (unknown_row "goal" goal.id)
        (update_where mine (updated_row goal) rows)

module _ {ℓ} {V : Type ℓ} (json : Json V) where
  unfoldable pub add_step :
      (String → String → Bool)
      → GoalStep V
      → List GoalStepRow
      → Result (GoalStep V) × List GoalStepRow
  add_step known step rows = returning step (
      insert_row (λ r. str_eq r.id step.id)
        (known "goals" step.goal_id && refers known "events" step.source_event_id)
        (step_row json step) rows)

  unfoldable pub steps : List GoalStepRow → String → Result (List (GoalStep V))
  steps rows goal = fetch_all (row_to_step json) (
      order_by (λ a b. ltb a.created_at_ms b.created_at_ms)
        (select (λ r. str_eq r.goal_id goal) rows))
