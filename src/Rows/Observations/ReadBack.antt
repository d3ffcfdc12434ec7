-- ===== src/Rows/Observations/ReadBack.antt =====
-- src/ssa/storage/lifecycle_repository.py: what is read back from a row of observations of the world.
use zero_hdsc.Base.{refl, ◌≡◌, ok}
use zero_hdsc.Domain.Observations.{WorldObservation}
use zero_hdsc.Rows.Json.{Json, Reads, or_default-dumps}
use zero_hdsc.Rows.Observations.{observation_row, row_to_observation}

-- An observation whose JSON columns are not empty and are read back by json.loads is read back from its row as it was.
pub row_to_observation-observation_row {ℓ} :
    {F V : Type ℓ} (json : Json V) (observation : WorldObservation F V)
    → Reads json observation.payload
    → row_to_observation json (observation_row json observation) ≡ ok observation
unfolding row_to_observation observation_row
row_to_observation-observation_row json observation h1 =
    rw (or_default-dumps json observation.payload "{}" h1.0, h1.1) refl
