-- ===== src/Domain/Goals.antt =====
-- src/ssa/domain/lifecycle.py: goals and their steps, with the enumerations and the texts of their
-- members. The floating-point numbers are of a type `F`, the values of JSON objects of a type `V`.
use zero_hdsc.Base.{ℕ, String, ◌≡◌, refl, Option, none, some, List, if◌then◌else◌, str_eq}

pub data GoalOwner : Type 0 where
  self shared user : GoalOwner

-- GoalOwner.value
unfoldable pub owner_value : GoalOwner → String
owner_value GoalOwner.self = "self"
owner_value GoalOwner.shared = "shared"
owner_value GoalOwner.user = "user"

-- GoalOwner(text); `none` is a ValueError
unfoldable pub owner_of : String → Option GoalOwner
owner_of text =
    if str_eq text "self"
    then some GoalOwner.self
    else if str_eq text "shared"
    then some GoalOwner.shared
    else if str_eq text "user"
    then some GoalOwner.user
    else none

pub owner_of-owner_value : (member : GoalOwner) → owner_of (owner_value member) ≡ some member
unfolding owner_of owner_value
owner_of-owner_value GoalOwner.self = refl
owner_of-owner_value GoalOwner.shared = refl
owner_of-owner_value GoalOwner.user = refl

pub data GoalStatus : Type 0 where
  proposed active blocked done archived : GoalStatus

-- GoalStatus.value
unfoldable pub goal_status_value : GoalStatus → String
goal_status_value GoalStatus.proposed = "proposed"
goal_status_value GoalStatus.active = "active"
goal_status_value GoalStatus.blocked = "blocked"
goal_status_value GoalStatus.done = "done"
goal_status_value GoalStatus.archived = "archived"

-- GoalStatus(text); `none` is a ValueError
unfoldable pub goal_status_of : String → Option GoalStatus
goal_status_of text =
    if str_eq text "proposed"
    then some GoalStatus.proposed
    else if str_eq text "active"
    then some GoalStatus.active
    else if str_eq text "blocked"
    then some GoalStatus.blocked
    else if str_eq text "done"
    then some GoalStatus.done
    else if str_eq text "archived"
    then some GoalStatus.archived
    else none

pub goal_status_of-goal_status_value :
    (member : GoalStatus) → goal_status_of (goal_status_value member) ≡ some member
unfolding goal_status_of goal_status_value
goal_status_of-goal_status_value GoalStatus.proposed = refl
goal_status_of-goal_status_value GoalStatus.active = refl
goal_status_of-goal_status_value GoalStatus.blocked = refl
goal_status_of-goal_status_value GoalStatus.done = refl
goal_status_of-goal_status_value GoalStatus.archived = refl

pub record Goal {ℓ} (F : Type ℓ) : Type ℓ where
  pub id : String
  pub conversation_id : String
  pub owner : GoalOwner
  pub title : String
  pub motive : String
  pub success_criteria : List String
  pub priority : F
  pub progress : F
  pub status : GoalStatus
  pub due_at_ms : Option ℕ
  pub next_action_at_ms : Option ℕ
  pub correlation_id : Option String
  pub blocked_reason : Option String
  pub created_at_ms : ℕ
  pub updated_at_ms : ℕ

pub record GoalStep {ℓ} (V : Type ℓ) : Type ℓ where
  pub id : String
  pub goal_id : String
  pub action : String
  pub result : Option String
  pub source_event_id : Option String
  pub metadata : V
  pub created_at_ms : ℕ
