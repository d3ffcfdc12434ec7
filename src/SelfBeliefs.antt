-- ===== src/SelfBeliefs.antt =====
-- src/ssa/storage/self_belief_repository.py: SqliteSelfBeliefRepository, over the tables
-- `self_beliefs` and `self_belief_evidence`. `known` tells the events of the ledger, `less` is `<`
-- on floating-point numbers and `most` is 0.6.
pub mod Queries
mod Transitions
pub mod Lineage
pub mod Appending
pub mod Calls
pub mod Examples
use zero_hdsc.Base.{
  is_some, is_in, ℕ, ◌+◌, String, Bool, true, false, not, ◌&&◌, ◌||◌, Option, none, some, List, [],
  ◌∷◌, ◌++◌, map, ltb, leb, ◌==◌, if◌then◌else◌, str_eq, str_less, length, take, Error, Result, ok,
  err, require, ◌>>=◌, ◌>>◌, and_then, savepoint, after_check, value_error, belief_version,
  belief_conflict, lineage_exists, find, select, order_by, insert_row, first, refers,
}
use zero_hdsc.Domain.SelfBeliefs.{
  SelfBelief, SelfBeliefStatus, SelfBeliefEvidence, SelfBeliefEvidenceRelation, supports,
  contradicts, belief_status_value, relation_value, validate_transition,
}

pub record Store {ℓ} (F : Type ℓ) : Type ℓ where
  pub beliefs : List (SelfBelief F)
  pub evidence : List SelfBeliefEvidence

-- set(xs).issubset(ys)
unfoldable pub is_subset : List String → List String → Bool
unfolding is_in
is_subset [] ys = true
is_subset (x ∷ xs) ys = is_in x ys && is_subset xs ys

abbrev pub same_status : SelfBeliefStatus → SelfBeliefStatus → Bool
same_status a b = str_eq (belief_status_value a) (belief_status_value b)

module _ {ℓ} {F : Type ℓ} where
  abbrev pub has_id : String → SelfBelief F → Bool
  has_id id b = str_eq b.id id

  abbrev pub of_lineage : String → SelfBelief F → Bool
  of_lineage lineage b = str_eq b.lineage_id lineage

  -- A version of the lineage above the given one.
  abbrev pub is_newer : String → ℕ → SelfBelief F → Bool
  is_newer lineage version b = str_eq b.lineage_id lineage && ltb version b.version

  -- ORDER BY version DESC, and ORDER BY version
  abbrev pub newest_first : SelfBelief F → SelfBelief F → Bool
  newest_first a b = ltb b.version a.version

  abbrev pub oldest_first : SelfBelief F → SelfBelief F → Bool
  oldest_first a b = ltb a.version b.version

  unfoldable pub get : List (SelfBelief F) → String → Option (SelfBelief F)
  get rows id = find (has_id id) rows

  unfoldable pub latest : List (SelfBelief F) → String → Option (SelfBelief F)
  latest rows lineage = first (order_by newest_first (select (of_lineage lineage) rows))

  unfoldable pub history : List (SelfBelief F) → String → List (SelfBelief F)
  history rows lineage = order_by oldest_first (select (of_lineage lineage) rows)

module _ {ℓ} {F : Type ℓ} where
  unfoldable pub validate_audit_fields : SelfBelief F → Result (Unit {0})
  validate_audit_fields b = do
    require (is_some b.cause_event_id)
        (value_error "new self-belief versions require a cause event")
    require (is_some b.model && is_some b.prompt_version)
        (value_error "new self-belief versions require model and prompt metadata")

  unfoldable pub validate_initial : (F → F → Bool) → F → SelfBelief F → Result (Unit {0})
  validate_initial less most b = do
    require (b.version == 1) (value_error "an initial self belief must have version 1")
    require (str_eq b.id b.lineage_id)
        (value_error "the initial version ID must equal its lineage ID")
    require (not (is_some b.previous_id))
        (value_error "an initial self belief must not have a predecessor")
    require (same_status b.status SelfBeliefStatus.candidate)
        (value_error "a self belief must start as candidate")
    require (not (less most b.confidence))
        (value_error "initial self-belief confidence must not exceed 0.6")
    require (not (ltb (length b.evidence_event_ids) 2))
        (value_error "a self belief needs at least two independent events")
    validate_audit_fields b

  -- challenged -> revised
  abbrev pub is_revision : SelfBelief F → SelfBelief F → Bool
  is_revision previous b =
      same_status previous.status SelfBeliefStatus.challenged
      && same_status b.status SelfBeliefStatus.revised

  -- The claim changes exactly when a challenged belief is revised.
  abbrev pub validate_claim : SelfBelief F → SelfBelief F → Result (Unit {0})
  validate_claim previous b =
      if not (str_eq b.claim previous.claim)
      then require (is_revision previous b)
          (value_error "a claim can change only when challenged belief is revised")
      else require (not (is_revision previous b))
          (value_error "a revised belief must change its claim")

  unfoldable pub validate_successor : SelfBelief F → SelfBelief F → Result (Unit {0})
  validate_successor previous b = do
    require (str_eq b.lineage_id previous.lineage_id)
        (value_error "a successor must remain in the same lineage")
    require (elim b.previous_id [ none ↦ false | some id ↦ str_eq id previous.id ])
        (value_error "a successor must reference the current version ID")
    require (leb previous.updated_at_ms b.updated_at_ms)
        (value_error "a successor timestamp must not move backwards")
    validate_transition previous.status b.status
    require (is_subset previous.evidence_event_ids b.evidence_event_ids)
        (value_error "supporting evidence is append-only")
    require (is_subset previous.counterevidence_event_ids b.counterevidence_event_ids)
        (value_error "counterevidence is append-only")
    validate_claim previous b
    validate_audit_fields b

  abbrev pub evidence_rows : SelfBelief F → List SelfBeliefEvidence
  evidence_rows b =
      map
        (λ id. record {
          belief_version_id = b.id;
          event_id = id;
          relation = supports;
          recorded_at_ms = b.updated_at_ms;
        })
        b.evidence_event_ids
      ++ map
          (λ id. record {
            belief_version_id = b.id;
            event_id = id;
            relation = contradicts;
            recorded_at_ms = b.updated_at_ms;
          })
          b.counterevidence_event_ids

abbrev pub same_evidence : SelfBeliefEvidence → SelfBeliefEvidence → Bool
same_evidence new old =
    str_eq old.belief_version_id new.belief_version_id
    && (str_eq old.event_id new.event_id
        && str_eq (relation_value old.relation) (relation_value new.relation))

-- executemany: one INSERT after the other. The version itself has just been inserted.
unfoldable pub insert_all :
    (String → Bool)
    → List SelfBeliefEvidence
    → List SelfBeliefEvidence
    → Result (Unit {0}) × List SelfBeliefEvidence
insert_all known [] rows = (ok tt, rows)
insert_all known (e ∷ es) rows =
    and_then (insert_row (same_evidence e) (known e.event_id) e rows)
      (λ _ rows'. insert_all known es rows')

module _ {ℓ} {F : Type ℓ} where
  -- PRIMARY KEY (id) and UNIQUE (lineage_id, version)
  abbrev pub clashes : SelfBelief F → SelfBelief F → Bool
  clashes new old =
      str_eq old.id new.id || (str_eq old.lineage_id new.lineage_id && old.version == new.version)

  -- The row of INSERT ... SELECT: `id` is the primary key, so that there is at most one.
  abbrev pub is_head : SelfBelief F → String → ℕ → List (SelfBelief F) → SelfBelief F → Bool
  is_head previous lineage expected rows b =
      has_id previous.id b
      && (of_lineage lineage b
          && (b.version == expected && not (is_some (find (is_newer b.lineage_id b.version) rows))))

  abbrev pub version_of : Option (SelfBelief F) → ℕ
  version_of none = 0
  version_of (some b) = b.version

module _ {ℓ} {F : Type ℓ} (known : String → Bool) where
  -- A predecessor that the version names is a row of the table, or the version itself.
  abbrev pub references_exist : SelfBelief F → List (SelfBelief F) → Bool
  references_exist b rows =
      refers (λ _ id. str_eq id b.id || is_some (get rows id)) "self_beliefs" b.previous_id
      && refers (λ _ id. known id) "events" b.cause_event_id

  -- The INSERT of a version, and those of its evidence.
  unfoldable pub insert_version : SelfBelief F → Store F → Result (SelfBelief F) × Store F
  insert_version b s =
      let (inserted, beliefs) = insert_row (clashes b) (references_exist b s.beliefs) b s.beliefs in
      and_then (inserted, record s { beliefs = beliefs })
        (λ _ s'.
          let (linked, evidence) = insert_all known (evidence_rows b) s'.evidence in
          and_then (linked, record s' { evidence = evidence }) (λ _ s''. (ok b, s'')))

  -- INSERT ... WHERE NOT EXISTS a version of the lineage
  abbrev pub insert_new :
      Option (SelfBelief F) → SelfBelief F → Store F → Result (SelfBelief F) × Store F
  insert_new (some _) b s = (err (lineage_exists b.lineage_id), s)
  insert_new none b s = insert_version b s

  unfoldable pub insert_initial :
      (F → F → Bool) → F → SelfBelief F → Store F → Result (SelfBelief F) × Store F
  insert_initial less most b s =
      after_check (validate_initial less most b) s
        (savepoint s (insert_new (find (of_lineage b.lineage_id) s.beliefs) b s))

  abbrev pub insert_after :
      Option (SelfBelief F) → ℕ → SelfBelief F → Store F → Result (SelfBelief F) × Store F
  insert_after none expected b s =
      (err (belief_conflict expected (version_of (latest s.beliefs b.lineage_id))), s)
  insert_after (some _) expected b s = insert_version b s

  abbrev pub append_after :
      Option (SelfBelief F) → ℕ → SelfBelief F → Store F → Result (SelfBelief F) × Store F
  append_after none expected b s = (err (belief_conflict expected 0), s)
  append_after (some previous) expected b s =
      if previous.version == expected
      then after_check (validate_successor previous b) s (
          savepoint s (
            insert_after (find (is_head previous b.lineage_id expected s.beliefs) s.beliefs)
              expected b s))
      else (err (belief_conflict expected previous.version), s)

  unfoldable pub append_if_version : ℕ → SelfBelief F → Store F → Result (SelfBelief F) × Store F
  append_if_version expected b s =
      if b.version == expected + 1
      then append_after (latest s.beliefs b.lineage_id) expected b s
      else (err (belief_version (expected + 1) b.version), s)
