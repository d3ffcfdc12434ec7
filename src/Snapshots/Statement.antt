-- ===== src/Snapshots/Statement.antt =====
-- What one call of append_if_version in src/ssa/storage/state_repository.py or
-- src/ssa/storage/relationship_repository.py does to the table, by its branches.
use zero_hdsc.Base.{
  ℕ, ◌+◌, String, Bool, true, false, none, List, [], ◌∷◌, ◌++◌, ◌≡◌, refl, ◌==◌, Result, ok, err,
  Error, snapshot_version, find, order_by, insert_row, returning, Option-cases, inl, inr,
}
use zero_hdsc.Snapshots.{
  SnapshotRow, Codec, Snapshots, max_version, clashes, snapshot, insert_if_current, check,
  after_checks,
}
use zero_hdsc.Snapshots.Calls.{Append}

module _ {ℓ} {S : Type ℓ} (c : Codec S) (ids : ℕ → String) (known : String → Bool) (kind : String)
    (checked : String → Result (Unit {0})) where
  pub stopped :
      (x : Result (Unit {0})) (e : Error) (y : Result S × List SnapshotRow) (t : Snapshots)
      → x ≡ err e
      → (after_checks c x y t).1 ≡ t
  stopped x e y t p = rw p refl

  pub finished :
      (x : Result (Unit {0})) (y : Result S × List SnapshotRow) (rows : List SnapshotRow)
      (t : Snapshots)
      → x ≡ ok tt
      → y.1 ≡ rows
      → (after_checks c x y t).1 ≡ record { rows = rows; issued = t.issued + 1 }
  finished x y rows t p q = rw (p, q) refl

  pub passed :
      (a : Append S)
      → c.version a.state == a.expected + 1 ≡ true
      → check c kind (checked a.cause) a.expected a.state ≡ checked a.cause
  passed a v = rw v refl

  pub failed :
      (a : Append S)
      → c.version a.state == a.expected + 1 ≡ false
      → check c kind (checked a.cause) a.expected a.state
        ≡ err (snapshot_version kind (a.expected + 1) (c.version a.state))
  failed a v = rw v refl

  pub current_lem :
      (a : Append S) (t : Snapshots)
      → max_version t.rows == a.expected ≡ true
      → (insert_if_current c ids known kind a.expected a.state a.cause t).1
        ≡ (returning a.state (
            insert_row
              (clashes (snapshot c (ids t.issued) a.state a.cause t.rows))
              (known a.cause)
              (snapshot c (ids t.issued) a.state a.cause t.rows)
              t.rows)).1
  current_lem a t m = rw m refl

  pub stale_lem :
      (a : Append S) (t : Snapshots)
      → max_version t.rows == a.expected ≡ false
      → (insert_if_current c ids known kind a.expected a.state a.cause t).1 ≡ t.rows
  stale_lem a t m = rw m refl

  pub known_lem :
      (a : Append S) (t : Snapshots)
      → find (clashes (snapshot c (ids t.issued) a.state a.cause t.rows)) t.rows ≡ none
      → known a.cause ≡ true
      → (returning a.state (
          insert_row
            (clashes (snapshot c (ids t.issued) a.state a.cause t.rows))
            (known a.cause)
            (snapshot c (ids t.issued) a.state a.cause t.rows)
            t.rows)).1
        ≡ t.rows ++ snapshot c (ids t.issued) a.state a.cause t.rows ∷ []
  unfolding insert_row order_by
  known_lem a t free there = rw (insert_row, free, there) refl

  pub unknown_lem :
      (a : Append S) (t : Snapshots)
      → known a.cause ≡ false
      → (returning a.state (
          insert_row
            (clashes (snapshot c (ids t.issued) a.state a.cause t.rows))
            (known a.cause)
            (snapshot c (ids t.issued) a.state a.cause t.rows)
            t.rows)).1
        ≡ t.rows
  unfolding insert_row
  unknown_lem a t h =
      let row = snapshot c (ids t.issued) a.state a.cause t.rows in
      elim (Option-cases (find (clashes row) t.rows)) [
        | inl e ↦ rw (insert_row, e, h) refl
        | inr (old, e) ↦ rw (insert_row, e) refl
      ]
