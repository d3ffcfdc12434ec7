-- ===== src/SelfBeliefs/Queries.antt =====
-- The queries of SqliteSelfBeliefRepository in src/ssa/storage/self_belief_repository.py: versions,
-- current beliefs and evidence. str.strip and str.casefold are parameters.
use zero_hdsc.Base.{
  is_some, is_in, ℕ, String, Bool, true, false, not, ◌&&◌, ◌||◌, Option, none, some, List, [], ◌∷◌,
  map, ltb, ◌==◌, if◌then◌else◌, str_eq, str_less, take, Result, ok, err, value_error, find, select,
  order_by,
}
use zero_hdsc.Domain.SelfBeliefs.{
  SelfBelief, SelfBeliefStatus, SelfBeliefEvidence, belief_status_value, relation_value,
}
use zero_hdsc.SelfBeliefs.{is_newer}

module _ {ℓ} {F : Type ℓ} where
  unfoldable pub get_by_version : List (SelfBelief F) → String → ℕ → Option (SelfBelief F)
  get_by_version rows lineage version =
      find (λ b. str_eq b.lineage_id lineage && b.version == version) rows

  -- The rows whose version is the greatest of their lineage.
  abbrev pub is_current : List (SelfBelief F) → SelfBelief F → Bool
  is_current rows b = not (is_some (find (is_newer b.lineage_id b.version) rows))

  -- A filter of no status lets every row pass.
  abbrev pub passes : List SelfBeliefStatus → SelfBelief F → Bool
  passes [] b = true
  passes (s ∷ statuses) b =
      is_in (belief_status_value b.status) (map belief_status_value (s ∷ statuses))

  abbrev pub limited : Option ℕ → List (SelfBelief F) → List (SelfBelief F)
  limited none rows = rows
  limited (some limit) rows = take limit rows

  abbrev pub latest_first : SelfBelief F → SelfBelief F → Bool
  latest_first a b =
      ltb b.updated_at_ms a.updated_at_ms
      || (a.updated_at_ms == b.updated_at_ms && str_less a.id b.id)

  unfoldable pub list_current :
      List (SelfBelief F) → List SelfBeliefStatus → Option ℕ → Result (List (SelfBelief F))
  list_current rows statuses limit =
      if elim limit [ none ↦ false | some n ↦ ltb n 1 ]
      then err (value_error "limit must be positive")
      else ok (
          limited limit
            (order_by latest_first (select (λ b. is_current rows b && passes statuses b) rows)))

  unfoldable pub find_current_by_claim :
      (String → String) → (String → String) → List (SelfBelief F) → String → Option (SelfBelief F)
  find_current_by_claim strip casefold rows claim =
      find (λ b. str_eq (casefold b.claim) (casefold (strip claim)))
        (order_by latest_first (select (λ b. is_current rows b && passes [] b) rows))

abbrev evidence_before : SelfBeliefEvidence → SelfBeliefEvidence → Bool
evidence_before a b =
    str_less (relation_value a.relation) (relation_value b.relation)
    || (str_eq (relation_value a.relation) (relation_value b.relation)
        && str_less a.event_id b.event_id)

unfoldable pub evidence_for_version : List SelfBeliefEvidence → String → List SelfBeliefEvidence
evidence_for_version rows id =
    order_by evidence_before (select (λ e. str_eq e.belief_version_id id) rows)
