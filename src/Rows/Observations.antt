-- ===== src/Rows/Observations.antt =====
-- src/ssa/storage/lifecycle_repository.py: the rows of observations of the world. JSON columns hold texts; a text
-- that names no member of an enumeration raises a ValueError.
pub mod ReadBack
use zero_hdsc.Base.{ℕ, String, Option, List, Result, ok, or_raise, value_error, ◌>>=◌}
use zero_hdsc.Domain.Observations.{WorldObservation}
use zero_hdsc.Rows.Json.{Json, or_default}

pub record WorldObservationRow {ℓ} (F : Type ℓ) : Type ℓ where
  pub id : String
  pub conversation_id : String
  pub observation_type : String
  pub source : String
  pub summary : String
  pub payload_json : String
  pub salience : F
  pub dedup_key : String
  pub observed_at_ms : ℕ
  pub event_id : Option String

module _ {ℓ} {F V : Type ℓ} (json : Json V) where
  -- The parameters of the INSERT.
  unfoldable pub observation_row : WorldObservation F V → WorldObservationRow F
  observation_row observation = record {
    id = observation.id;
    conversation_id = observation.conversation_id;
    observation_type = observation.observation_type;
    source = observation.source;
    summary = observation.summary;
    payload_json = json.dumps observation.payload;
    salience = observation.salience;
    dedup_key = observation.dedup_key;
    observed_at_ms = observation.observed_at_ms;
    event_id = observation.event_id;
  }

  unfoldable pub row_to_observation : WorldObservationRow F → Result (WorldObservation F V)
  row_to_observation row = do
    payload ← json.loads (or_default row.payload_json "{}")
    ok record {
      id = row.id;
      conversation_id = row.conversation_id;
      observation_type = row.observation_type;
      source = row.source;
      summary = row.summary;
      payload = payload;
      salience = row.salience;
      dedup_key = row.dedup_key;
      observed_at_ms = row.observed_at_ms;
      event_id = row.event_id;
    }
