-- ===== src/Snapshots/Log.antt =====
-- The table of snapshots of src/ssa/storage/state_repository.py and
-- src/ssa/storage/relationship_repository.py as one current state.
use zero_hdsc.Base.{
  ℕ, suc, ◌+◌, ◌≤◌, String, Bool, true, false, Option, none, some, List, [], ◌∷◌, ◌++◌, ◌≡◌, refl,
  sym, ap, ◌∙◌, arith, eq_iff, ◌==◌, str_eq, Result, ok, find, find-append_other, All, All-imp,
  first-order_by, order_by, insert_row, Bool-cases, Result-cases, inl, inr,
}
use mathlib.Core.Path.{subst}
use zero_hdsc.Snapshots.{
  Codec, Snapshots, max_version, newest_first, clashes, latest, version_of, snapshot,
  append_if_version,
}
use zero_hdsc.Snapshots.Calls.{
  Append, is_ok, All-max_version, max_version-append, find-clashes, takes, replay, apply, run,
  Holds,
}
use zero_hdsc.Snapshots.Statement.{
  stopped, finished, passed, failed, current_lem, stale_lem, known_lem, unknown_lem,
}

module _ {ℓ} {S : Type ℓ} (c : Codec S) (ids : ℕ → String) (known : String → Bool) (kind : String)
    (checked : String → Result (Unit {0})) where
  module _ (injective : (i j : ℕ) → ids i ≡ ids j → i ≡ j)
      (reads : (s : S) → c.decode (c.encode s) ≡ ok s) where
    -- The table after an append that is taken.
    abbrev added : Append S → Snapshots → Snapshots
    added a t = record {
      rows = t.rows ++ snapshot c (ids t.issued) a.state a.cause t.rows ∷ [];
      issued = t.issued + 1;
    }

    above :
        (a : Append S) (t : Snapshots) (current : Option S)
        → Holds c ids known kind checked t current
        → takes c ids known kind checked a current ≡ true
        → All (λ r. suc r.version ≤ c.version a.state) t.rows
    above a t current h k =
        let low = h.top in
        let next : c.version a.state ≡ version_of c current + 1 = ground (arith, k) in
        All-imp (λ r. r.version ≤ version_of c current) (λ r. suc r.version ≤ c.version a.state)
          t.rows (λ r l. omega (arith, next, l))
          (All-max_version t.rows (version_of c current) (omega arith))

    other : (n : ℕ) (t : Snapshots) → t.issued + 1 ≤ n → str_eq (ids t.issued) (ids n) ≡ false
    other n t l = elim (Bool-cases (str_eq (ids t.issued) (ids n))) [
      | inl e ↦
          let same : t.issued ≡ n =
            injective t.issued n (ground (arith, e, eq_iff (ids t.issued) (ids n))) in
          let no : ⊥ = omega (arith, same, l) in elim no [ ]
      | inr e ↦ e
    ]

    added-Holds :
        (a : Append S) (t : Snapshots) (current : Option S)
        → Holds c ids known kind checked t current
        → takes c ids known kind checked a current ≡ true
        → Holds c ids known kind checked (added a t) (some a.state)
    unfolding latest
    added-Holds a t current h k =
        let row = snapshot c (ids t.issued) a.state a.cause t.rows in
        let low = h.top in
        let next : c.version a.state ≡ version_of c current + 1 = ground (arith, k) in
        record {
          top = max_version-append t.rows row (omega (arith, low, next));
          latest =
              rw
                (first-order_by newest_first t.rows row (
                  All-imp (λ r. suc r.version ≤ c.version a.state) (λ r. newest_first row r ≡ true)
                    t.rows (λ r l. ground (arith, l)) (above a t current h k)))
                (rw (reads a.state) refl);
          fresh = λ n l.
              find-append_other (λ r. str_eq r.id (ids n)) t.rows row (h.fresh n (omega (arith, l)))
                (other n t l);
        }

    taken-added :
        (a : Append S) (t : Snapshots) (current : Option S)
        → Holds c ids known kind checked t current
        → takes c ids known kind checked a current ≡ true
        → apply c ids known kind checked a t ≡ added a t
    unfolding append_if_version insert_row
    taken-added a t current h k =
        let row = snapshot c (ids t.issued) a.state a.cause t.rows in
        let v : c.version a.state == a.expected + 1 ≡ true = ground (arith, k) in
        let sound : is_ok (checked a.cause) ≡ true = ground (arith, k) in
        let now : max_version t.rows == a.expected ≡ true = rw h.top (ground (arith, k)) in
        let free : find (clashes row) t.rows ≡ none =
          find-clashes t.rows row (h.fresh t.issued (omega arith)) (above a t current h k) in
        let there : known a.cause ≡ true = ground (arith, k) in
        elim (Result-cases (checked a.cause)) [
          | inl (u, e) ↦
              finished c ids known kind checked _ _ (added a t).rows t
                (passed c ids known kind checked a v ∙ e)
                (current_lem c ids known kind checked a t now
                  ∙ known_lem c ids known kind checked a t free there)
          | inr (problem, e) ↦ let no : false ≡ true = ap is_ok (sym e) ∙ sound in cc
        ]

    later :
        (t : Snapshots) (current : Option S)
        → Holds c ids known kind checked t current
        → Holds c ids known kind checked (record { rows = t.rows; issued = t.issued + 1 }) current
    later t current h = record {
      top = h.top;
      latest = h.latest;
      fresh = λ n l. h.fresh n (omega (arith, l));
    }

    left_alone :
        (a : Append S) (t : Snapshots) (current : Option S)
        → Holds c ids known kind checked t current
        → takes c ids known kind checked a current ≡ false
        → Holds c ids known kind checked (apply c ids known kind checked a t) current
    unfolding append_if_version insert_row
    left_alone a t current h k = elim (Bool-cases (c.version a.state == a.expected + 1)) [
      | inl v ↦ elim (Result-cases (checked a.cause)) [
        | inl (u, e) ↦ elim (Bool-cases (version_of c current == a.expected)) [
          | inl m ↦
              let now : max_version t.rows == a.expected ≡ true = rw h.top m in
              let absent : known a.cause ≡ false = ground (arith, v, e, m, k) in
              subst (λ x. Holds c ids known kind checked x current)
                (sym (
                  finished c ids known kind checked _ _ t.rows t
                    (passed c ids known kind checked a v ∙ e)
                    (current_lem c ids known kind checked a t now
                      ∙ unknown_lem c ids known kind checked a t absent)))
                (later t current h)
          | inr m ↦
              let now : max_version t.rows == a.expected ≡ false = rw h.top m in
              subst (λ x. Holds c ids known kind checked x current)
                (sym (
                  finished c ids known kind checked _ _ t.rows t
                    (passed c ids known kind checked a v ∙ e)
                    (stale_lem c ids known kind checked a t now)))
                (later t current h)
        ]
        | inr (problem, e) ↦
            subst (λ x. Holds c ids known kind checked x current)
              (sym (
                stopped c ids known kind checked _ problem _ t
                  (passed c ids known kind checked a v ∙ e)))
              h
      ]
      | inr v ↦
          subst (λ x. Holds c ids known kind checked x current)
            (sym (stopped c ids known kind checked _ _ _ t (failed c ids known kind checked a v))) h
    ]

    empty-Holds : Holds c ids known kind checked (record { rows = []; issued = 0 }) none
    unfolding latest max_version find order_by
    empty-Holds = record { top = refl; latest = refl; fresh = λ k l. refl }

    run-Holds :
        (calls : List (Append S)) (t : Snapshots) (current : Option S)
        → Holds c ids known kind checked t current
        → Holds c ids known kind checked
            (run c ids known kind checked calls t)
            (replay c ids known kind checked calls current)
    run-Holds [] t current h = h
    run-Holds (a ∷ rest) t current h =
        elim (Bool-cases (takes c ids known kind checked a current)) [
          | inl k ↦
              rw (k, taken-added a t current h k)
                (run-Holds rest (added a t) (some a.state) (added-Holds a t current h k))
          | inr k ↦ rw k (
              run-Holds rest (apply c ids known kind checked a t) current
                (left_alone a t current h k))
        ]

    -- Whatever appends are made on an empty table, in any order and whether or not they raise, `latest`
    -- reads the table as one current state: the state of the last append that was taken, where an
    -- append is taken exactly if its state is of the next version, its cause is sound and known, and
    -- the version that its writer expected is still the current one. Ids are given once, and a state
    -- that is written as JSON is read back.
    pub latest-run :
        (calls : List (Append S))
        → latest c (run c ids known kind checked calls (record { rows = []; issued = 0 })).rows
          ≡ ok (replay c ids known kind checked calls none)
    unfolding latest
    latest-run calls = (run-Holds calls (record { rows = []; issued = 0 }) none empty-Holds).latest
