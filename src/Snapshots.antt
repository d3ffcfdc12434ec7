-- ===== src/Snapshots.antt =====
-- src/ssa/storage/state_repository.py and src/ssa/storage/relationship_repository.py: StateRepository
-- and RelationshipRepository, over the tables `state_snapshots` and `relationship_snapshots`. The
-- state is of a type `S`; its JSON is that of pydantic, a parameter.
pub mod Calls
pub mod Statement
pub mod Log
mod Examples
use zero_hdsc.Base.{
  ℕ, zero, suc, ◌+◌, max, String, Bool, true, false, not, ◌&&◌, ◌||◌, Option, none, some, List, [],
  ◌∷◌, ltb, ◌==◌, if◌then◌else◌, str_eq, Error, Result, ok, err, require, ◌>>=◌, value_error,
  snapshot_version, snapshot_conflict, find, order_by, first, insert_row, fetch_one, returning,
}

pub record SnapshotRow : Type 0 where
  pub id : String
  pub previous_id : Option String
  pub cause_event_id : String
  pub version : ℕ
  pub json : String
  pub created_at_ms : ℕ

-- What the repositories use of a state.
pub record Codec {ℓ} (S : Type ℓ) : Type ℓ where
  pub version : S → ℕ
  pub updated_at_ms : S → ℕ
  pub encode : S → String
  pub decode : String → Result S

-- The table, and the number of ids that the generator has given.
pub record Snapshots : Type 0 where
  pub rows : List SnapshotRow
  pub issued : ℕ

abbrev pub newest_first : SnapshotRow → SnapshotRow → Bool
newest_first a b = ltb b.version a.version

-- ORDER BY version DESC LIMIT 1
abbrev pub newest : List SnapshotRow → Option SnapshotRow
newest rows = first (order_by newest_first rows)

-- COALESCE((SELECT MAX(version)), 0)
unfoldable pub max_version : List SnapshotRow → ℕ
max_version [] = 0
max_version (r ∷ rows) = max r.version (max_version rows)

abbrev pub id_of : Option SnapshotRow → Option String
id_of none = none
id_of (some r) = some r.id

-- PRIMARY KEY (id), and version UNIQUE
abbrev pub clashes : SnapshotRow → SnapshotRow → Bool
clashes new old = str_eq old.id new.id || old.version == new.version

module _ {ℓ} {S : Type ℓ} (c : Codec S) where
  unfoldable pub latest : List SnapshotRow → Result (Option S)
  latest rows = fetch_one (λ r. c.decode r.json) (newest rows)

  unfoldable pub get_by_version : List SnapshotRow → ℕ → Result (Option S)
  get_by_version rows version =
      fetch_one (λ r. c.decode r.json) (find (λ r. r.version == version) rows)

  -- current.version if current else 0
  abbrev pub version_of : Option S → ℕ
  version_of none = 0
  version_of (some s) = c.version s

  -- What is raised when the INSERT has put in no row.
  abbrev pub conflict : String → ℕ → Result (Option S) → Error
  conflict kind expected (err e) = e
  conflict kind expected (ok current) = snapshot_conflict kind expected (version_of current)

  abbrev pub snapshot : String → S → String → List SnapshotRow → SnapshotRow
  snapshot id s cause rows = record {
    id = id;
    previous_id = id_of (newest rows);
    cause_event_id = cause;
    version = c.version s;
    json = c.encode s;
    created_at_ms = c.updated_at_ms s;
  }

  -- INSERT ... WHERE the greatest version is the expected one. `known` tells the events.
  abbrev pub insert_if_current :
      (ℕ → String)
      → (String → Bool)
      → String
      → ℕ
      → S
      → String
      → Snapshots
      → Result S × List SnapshotRow
  insert_if_current ids known kind expected s cause t =
      if max_version t.rows == expected
      then (let row = snapshot (ids t.issued) s cause t.rows in
          returning s (insert_row (clashes row) (known cause) row t.rows))
      else (err (conflict kind expected (latest t.rows)), t.rows)

  -- The checks before the statement; `checked` is the one that a repository adds.
  abbrev pub check : String → Result (Unit {0}) → ℕ → S → Result (Unit {0})
  check kind checked expected s =
      if c.version s == expected + 1
      then checked
      else err (snapshot_version kind (expected + 1) (c.version s))

  abbrev pub after_checks :
      Result (Unit {0}) → Result S × List SnapshotRow → Snapshots → Result S × Snapshots
  after_checks (err e) done t = (err e, t)
  after_checks (ok _) (result, rows) t = (result, record { rows = rows; issued = t.issued + 1 })

  unfoldable pub append_if_version :
      (ℕ → String)
      → (String → Bool)
      → String
      → (String → Result (Unit {0}))
      → ℕ
      → S
      → String
      → Snapshots
      → Result S × Snapshots
  append_if_version ids known kind checked expected s cause t =
      after_checks (check kind (checked cause) expected s)
        (insert_if_current ids known kind expected s cause t) t

  -- StateRepository.append_if_version
  abbrev pub append_state :
      (ℕ → String) → (String → Bool) → ℕ → S → String → Snapshots → Result S × Snapshots
  append_state ids known = append_if_version ids known "State" (λ cause. ok tt)

  -- RelationshipRepository.append_if_version, whose expected version is not negative here
  abbrev pub append_relationship :
      (String → String)
      → (ℕ → String)
      → (String → Bool)
      → ℕ
      → S
      → String
      → Snapshots
      → Result S × Snapshots
  append_relationship strip ids known = append_if_version ids known "Relationship" (λ cause.
      require (not (str_eq cause "" || str_eq (strip cause) ""))
        (value_error "cause_event_id must not be empty"))
