-- ===== src/Domain/Observations.antt =====
-- src/ssa/domain/lifecycle.py: observations of the world, with the enumerations and the texts of their
-- members. The floating-point numbers are of a type `F`, the values of JSON objects of a type `V`.
use zero_hdsc.Base.{ℕ, String, Option}

pub record WorldObservation {ℓ} (F V : Type ℓ) : Type ℓ where
  pub id : String
  pub conversation_id : String
  pub observation_type : String
  pub source : String
  pub summary : String
  pub payload : V
  pub salience : F
  pub dedup_key : String
  pub observed_at_ms : ℕ
  pub event_id : Option String
