-- ===== src/Observations.antt =====
-- src/ssa/storage/lifecycle_repository.py: WorldObservationRepository, over the table
-- `world_observations`. `known` is the foreign keys.
use zero_hdsc.Base.{
  ℕ, String, Bool, Option, none, some, List, ltb, str_eq, take, Result, ok, err, find, select,
  order_by, insert_row, returning, refers, fetch_one, fetch_all,
}
use zero_hdsc.Domain.Observations.{WorldObservation}
use zero_hdsc.Rows.Json.{Json}
use zero_hdsc.Rows.Observations.{WorldObservationRow, observation_row, row_to_observation}

module _ {ℓ} {F V : Type ℓ} (json : Json V) where
  unfoldable pub find_by_dedup :
      List (WorldObservationRow F) → String → Result (Option (WorldObservation F V))
  find_by_dedup rows key =
      fetch_one (row_to_observation json) (find (λ r. str_eq r.dedup_key key) rows)

  abbrev pub insert_with :
      Result (Option (WorldObservation F V))
      → Result (WorldObservation F V) × List (WorldObservationRow F)
      → List (WorldObservationRow F)
      → Result (WorldObservation F V) × List (WorldObservationRow F)
  insert_with (err e) inserted rows = (err e, rows)
  insert_with (ok none) inserted rows = inserted
  insert_with (ok (some observation)) inserted rows = (ok observation, rows)

  -- The unique dedup_key cannot fail after the lookup.
  unfoldable pub insert :
      (String → String → Bool)
      → WorldObservation F V
      → List (WorldObservationRow F)
      → Result (WorldObservation F V) × List (WorldObservationRow F)
  insert known observation rows =
      insert_with (find_by_dedup rows observation.dedup_key)
        (returning observation (
          insert_row (λ r. str_eq r.id observation.id) (refers known "events" observation.event_id)
            (observation_row json observation) rows))
        rows

  unfoldable pub recent :
      List (WorldObservationRow F) → String → ℕ → Result (List (WorldObservation F V))
  recent rows conversation limit = fetch_all (row_to_observation json) (
      take limit (
        order_by (λ a b. ltb b.observed_at_ms a.observed_at_ms)
          (select (λ r. str_eq r.conversation_id conversation) rows)))
