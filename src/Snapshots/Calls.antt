-- ===== src/Snapshots/Calls.antt =====
-- Any sequence of calls of append_if_version in src/ssa/storage/state_repository.py or
-- src/ssa/storage/relationship_repository.py, on the table and on one current state.
use zero_hdsc.Base.{
  ℕ, suc, ◌+◌, ◌≤◌, String, Bool, true, false, ◌&&◌, Option, none, some, List, [], ◌∷◌, ◌++◌, ◌≡◌,
  refl, arith, ◌==◌, if◌then◌else◌, str_eq, Result, ok, err, find, All,
}
use zero_hdsc.Snapshots.{
  SnapshotRow, Codec, Snapshots, max_version, clashes, latest, version_of, append_if_version,
}

-- A call of append_if_version.
pub record Append {ℓ} (S : Type ℓ) : Type ℓ where
  pub expected : ℕ
  pub state : S
  pub cause : String

abbrev pub is_ok {ℓ} : {A : Type ℓ} → Result A → Bool
is_ok (ok a) = true
is_ok (err e) = false

pub All-max_version :
    (rows : List SnapshotRow) (n : ℕ) → max_version rows ≤ n → All (λ r. r.version ≤ n) rows
unfolding max_version
All-max_version [] n h = tt
All-max_version (r ∷ rows) n h = (omega arith, All-max_version rows n (omega arith))

pub max_version-append :
    (rows : List SnapshotRow) (x : SnapshotRow)
    → max_version rows ≤ x.version
    → max_version (rows ++ x ∷ []) ≡ x.version
unfolding max_version
max_version-append [] x h = omega arith
max_version-append (r ∷ rows) x h = omega (arith, max_version-append rows x (omega arith))

-- A new row of a new id and of a version above all others clashes with none.
pub find-clashes :
    (rows : List SnapshotRow) (x : SnapshotRow)
    → find (λ r. str_eq r.id x.id) rows ≡ none
    → All (λ r. suc r.version ≤ x.version) rows
    → find (clashes x) rows ≡ none
unfolding find
find-clashes [] x h k = refl
find-clashes (r ∷ rows) x h k = ground (arith, h, k.0, find-clashes rows x (ground (arith, h)) k.1)

module _ {ℓ} {S : Type ℓ} (c : Codec S) (ids : ℕ → String) (known : String → Bool) (kind : String)
    (checked : String → Result (Unit {0})) where
  -- The abstract table: the current state. An append is taken where it is of the next version, its
  -- cause is sound and known, and the current version is the expected one.
  abbrev pub takes : Append S → Option S → Bool
  takes a current =
      c.version a.state == a.expected + 1
      && (is_ok (checked a.cause) && (version_of c current == a.expected && known a.cause))

  abbrev pub replay : List (Append S) → Option S → Option S
  replay [] current = current
  replay (a ∷ rest) current =
      let next = if takes a current then some a.state else current in replay rest next

  abbrev pub apply : Append S → Snapshots → Snapshots
  apply a t = (append_if_version c ids known kind checked a.expected a.state a.cause t).1

  abbrev pub run : List (Append S) → Snapshots → Snapshots
  run [] t = t
  run (a ∷ rest) t = run rest (apply a t)

  -- The table holds the current state, at the greatest version, and no id that is still to come.
  pub record Holds (t : Snapshots) (current : Option S) : Type ℓ where
    pub top : max_version t.rows ≡ version_of c current
    pub latest : latest c t.rows ≡ ok current
    pub fresh : (k : ℕ) → t.issued ≤ k → find (λ r. str_eq r.id (ids k)) t.rows ≡ none
