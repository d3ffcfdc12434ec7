-- ===== src/Domain/Jobs.antt =====
-- src/ssa/domain/lifecycle.py: scheduled jobs. The values of a payload are of a type `V`: the code
-- reads them through Python's `bool` and `str` only.
use zero_hdsc.Base.{ℕ, String, Bool, true, false, Option, List}

pub data JobStatus : Type 0 where
  pending running done dead_letter : JobStatus

abbrev pub is_pending : JobStatus → Bool
is_pending pending = true
is_pending _ = false

abbrev pub is_running : JobStatus → Bool
is_running running = true
is_running _ = false

abbrev pub is_dead_letter : JobStatus → Bool
is_dead_letter dead_letter = true
is_dead_letter _ = false

abbrev pub Payload {ℓ} : Type ℓ → Type ℓ
Payload V = List (String × V)

pub record ScheduledJob {ℓ} (V : Type ℓ) : Type ℓ where
  pub id : String
  pub conversation_id : String
  pub job_type : String
  pub dedup_key : Option String
  pub payload : Payload V
  pub due_at_ms : ℕ
  pub attempt_count : ℕ
  pub max_attempts : ℕ
  pub status : JobStatus
  pub last_error : Option String
  pub leased_until_ms : Option ℕ
  pub completed_at_ms : Option ℕ
  pub created_at_ms : ℕ
  pub updated_at_ms : ℕ
