-- ===== src/Outbox/Claims.antt =====
-- src/ssa/storage/lifecycle_repository.py: a claimed message is not claimed again before its lease
-- ends.
use mathlib.Core.Path.{subst}
use zero_hdsc.Base.{
  ℕ, ◌+◌, ◌≤◌, ◌<◌, String, ◌≡◌, refl, sym, ap, false, Option, none, some, List, [], ◌∷◌, arith,
  ltb, ◌==◌, eq_iff, All, Result, ok, err, ◌>>=◌, find, update_where, rowcount, Bool-cases,
  Option-cases, or_raise, value_error, inl, inr, find-eq_true,
}
use zero_hdsc.Domain.Outbox.{OutboxMessage, outbox_status_of}
use zero_hdsc.Rows.Json.{Json, or_default}
use zero_hdsc.Rows.Outbox.{MessageRow, row_to_message}
use zero_hdsc.Outbox.{Outbox, has_id, claimed_row, due_ids, get, claimed, claim_all, claim_due}
use zero_hdsc.Outbox.Holds.{IsHeld, IsKeyed, mine, IsHeld-claim, IsKeyed-claim, claim-IsHeld}

-- The id of a message that was read, and a default where none was.
abbrev id_of {ℓ} : {V : Type ℓ} → Result (OutboxMessage V) → String → String
id_of (ok m) default = m.id
id_of (err e) default = default

abbrev found_id {ℓ} : {V : Type ℓ} → Result (Option (OutboxMessage V)) → String → String
found_id (ok (some m)) default = m.id
found_id (ok none) default = default
found_id (err e) default = default

id_of-bind {ℓ κ} :
    {A : Type κ} {V : Type ℓ} (x : Result A) (f : A → Result (OutboxMessage V)) (id : String)
    → ((a : A) → id_of (f a) id ≡ id)
    → id_of (x >>= f) id ≡ id
id_of-bind (ok a) f id h = h a
id_of-bind (err e) f id h = refl

found_id-bind {ℓ} :
    {V : Type ℓ} (x : Result (OutboxMessage V)) (id : String)
    → id_of x id ≡ id
    → found_id (x >>= λ a. ok (some a)) id ≡ id
found_id-bind (ok m) id h = h
found_id-bind (err e) id h = refl

module _ {ℓ} {V : Type ℓ} (json : Json V) where
  id_of-row_to_message : (r : MessageRow) → id_of (row_to_message json r) r.id ≡ r.id
  unfolding row_to_message
  id_of-row_to_message r =
      id_of-bind (json.loads (or_default r.payload_json "{}")) _ r.id
        (λ v. id_of-bind (or_raise (outbox_status_of r.status) (value_error "")) _ r.id (λ t. refl))

  found_id-get : (rows : Outbox) (id : String) → found_id (get json rows id) id ≡ id
  unfolding get
  found_id-get rows id = elim (Option-cases (find (has_id id) rows)) [
    | inl e ↦ rw e refl
    | inr (r, e) ↦ rw e (
        subst (λ d. found_id (row_to_message json r >>= λ a. ok (some a)) d ≡ d)
          ((eq_iff r.id id).0 (find-eq_true (has_id id) rows r e))
          (found_id-bind (row_to_message json r) r.id (id_of-row_to_message r)))
  ]

module _ {ℓ} {V : Type ℓ} (json : Json V) (now until later : ℕ) (before : later < until) where
  claimed-IsHeld :
      (id : String) (found : Result (Option (OutboxMessage V))) (here : Outbox)
      (rest : Result (List (OutboxMessage V)) × Outbox)
      → IsHeld later here id
      → IsHeld later rest.1 id
      → IsHeld later (claimed json found here rest).1 id
  claimed-IsHeld id (err e) here rest h k = h
  claimed-IsHeld id (ok none) here rest h k = k
  claimed-IsHeld id (ok (some m)) here rest h k = k

  claim_all-IsHeld :
      (ids : List String) (rows : Outbox) (id : String)
      → IsHeld later rows id
      → IsHeld later (claim_all json now until ids rows).1 id
  unfolding claim_all
  claim_all-IsHeld [] rows id h = h
  claim_all-IsHeld (other ∷ ids) rows id h =
      let step = IsHeld-claim now until later before id other rows h in
      let rest =
        claim_all-IsHeld ids (update_where (mine now other) (claimed_row until) rows) id step in
      elim (Bool-cases (rowcount (mine now other) rows == 1)) [
        | inl e ↦ rw e (
            claimed-IsHeld id
              (get json (update_where (mine now other) (claimed_row until) rows) other)
              (update_where (mine now other) (claimed_row until) rows)
              (claim_all json now until ids
                (update_where (mine now other) (claimed_row until) rows))
              step rest)
        | inr e ↦ rw e rest
      ]

abbrev messages_of {ℓ} : {V : Type ℓ} → Result (List (OutboxMessage V)) → List (OutboxMessage V)
messages_of (ok messages) = messages
messages_of (err e) = []

module _ {ℓ} {V : Type ℓ} (json : Json V) (now until later : ℕ) (before : later < until) where
  claimed-excludes :
      (id : String) (found : Result (Option (OutboxMessage V))) (here : Outbox)
      (rest : Result (List (OutboxMessage V)) × Outbox)
      → found_id found id ≡ id
      → IsHeld later rest.1 id
      → All (λ m. IsHeld later rest.1 m.id) (messages_of rest.0)
      → All
          (λ m. IsHeld later (claimed json found here rest).1 m.id)
          (messages_of (claimed json found here rest).0)
  claimed-excludes id (err e) here rest k h all = tt
  claimed-excludes id (ok none) here rest k h all = all
  claimed-excludes id (ok (some m)) here (ok ms, rows) k h all =
      (subst (λ x. IsHeld later rows x) (sym k) h, all)
  claimed-excludes id (ok (some m)) here (err e, rows) k h all = tt

  claim_all-excludes :
      (ids : List String) (rows : Outbox)
      → IsKeyed rows
      → All
          (λ m. IsHeld later (claim_all json now until ids rows).1 m.id)
          (messages_of (claim_all json now until ids rows).0)
  unfolding claim_all
  claim_all-excludes [] rows keyed = tt
  claim_all-excludes (id ∷ ids) rows keyed =
      let rows' = update_where (mine now id) (claimed_row until) rows in
      let keyed' : IsKeyed rows' =
        λ x. rw (IsKeyed-claim now until later before x id rows) (keyed x) in
      let all = claim_all-excludes ids rows' keyed' in
      elim (Bool-cases (rowcount (mine now id) rows == 1)) [
        | inl e ↦
            let held = claim-IsHeld now until later before id rows (keyed id) (ground (arith, e)) in
            rw e (
              claimed-excludes id (get json rows' id) rows' (claim_all json now until ids rows')
                (found_id-get json rows' id)
                (claim_all-IsHeld json now until later before ids rows' id held) all)
        | inr e ↦ rw e all
      ]

claim_due-claim_all {ℓ} :
    {V : Type ℓ} (json : Json V) (now lease limit : ℕ) (rows : Outbox)
    → 1 ≤ lease
    → claim_due json now lease limit rows
      ≡ claim_all json now (now + lease) (due_ids now limit rows) rows
unfolding claim_due
claim_due-claim_all json now lease limit rows h =
    let small : ltb lease 1 ≡ false = ground (arith, h) in rw small refl

-- Where ids are unique and a claim returns its messages, no row with the id of one of them meets the
-- WHERE of a claim at any time before the lease ends.
pub claim_due_exclusion {ℓ} :
    {V : Type ℓ} (json : Json V) (now lease limit later : ℕ) (rows : Outbox)
    (messages : List (OutboxMessage V))
    → IsKeyed rows
    → 1 ≤ lease
    → (claim_due json now lease limit rows).0 ≡ ok messages
    → later < now + lease
    → All (λ m. IsHeld later (claim_due json now lease limit rows).1 m.id) messages
claim_due_exclusion json now lease limit later rows messages keyed positive done before =
    let run = claim_all json now (now + lease) (due_ids now limit rows) rows in
    let same = claim_due-claim_all json now lease limit rows positive in
    let all =
      claim_all-excludes json now (now + lease) later before (due_ids now limit rows) rows keyed in
    let result = ap messages_of (subst (λ x. x.0 ≡ ok messages) same done) in
    rw same (subst (λ ms. All (λ m. IsHeld later run.1 m.id) ms) result all)
