-- ===== src/InnerLoop/Lookup.antt =====
-- src/ssa/storage/lifecycle_repository.py: what `get` finds after `upsert`.
use zero_hdsc.Base.{
  String, ◌≡◌, refl, true, false, none, some, List, [], ◌∷◌, ◌++◌, arith, if◌then◌else◌, str_eq,
  eq_iff, ok, err, integrity_error, Result, Option, Bool, refers, ◌⊎◌, find, update_where,
  Option-cases, Bool-cases, inl, inr,
}
use zero_hdsc.Domain.InnerLoop.{InnerLoopState}
use zero_hdsc.Rows.InnerLoop.{StateRow, state_row}
use zero_hdsc.Rows.InnerLoop.ReadBack.{row_to_state-state_row}
use zero_hdsc.InnerLoop.{is_of, get, replaced_row, upserted, upsert}

module _ {ℓ} {F : Type ℓ} (state : InnerLoopState F) (conversation : String) where
  find-append_row :
      (rows : List (StateRow F))
      → find (is_of state.conversation_id) rows ≡ none
      → find (is_of conversation) (rows ++ state_row state ∷ []) ≡ (
          if str_eq state.conversation_id conversation
          then some (state_row state)
          else find (is_of conversation) rows)
  unfolding find state_row
  find-append_row [] h = refl
  find-append_row (r ∷ rows) h = ground (
    arith,
    find-append_row rows,
    eq_iff r.conversation_id state.conversation_id,
    eq_iff r.conversation_id conversation,
    eq_iff state.conversation_id conversation,
  )

  find-replaced_other :
      (rows : List (StateRow F))
      → str_eq state.conversation_id conversation ≡ false
      → find
          (is_of conversation)
          (update_where (is_of state.conversation_id) (replaced_row state) rows)
        ≡ find (is_of conversation) rows
  unfolding find update_where state_row
  find-replaced_other [] h = refl
  find-replaced_other (x ∷ rows) h = ground (
    arith,
    find-replaced_other rows,
    eq_iff x.conversation_id state.conversation_id,
    eq_iff x.conversation_id conversation,
    eq_iff state.conversation_id conversation,
  )

  find-replaced_same :
      (rows : List (StateRow F)) (r : StateRow F)
      → str_eq state.conversation_id conversation ≡ true
      → find (is_of state.conversation_id) rows ≡ some r
      → find
          (is_of conversation)
          (update_where (is_of state.conversation_id) (replaced_row state) rows)
        ≡ some (state_row state)
  unfolding find update_where state_row
  find-replaced_same [] r h k = cc
  find-replaced_same (x ∷ rows) r h k = elim (Bool-cases (is_of state.conversation_id x)) [
    | inl e ↦ rw (e, (eq_iff x.conversation_id state.conversation_id).0 e, h) refl
    | inr e ↦
        let other : str_eq x.conversation_id conversation ≡ false = ground (
          arith,
          e,
          h,
          eq_iff x.conversation_id conversation,
          eq_iff state.conversation_id conversation,
          eq_iff x.conversation_id state.conversation_id,
        ) in
        rw (e, other) (find-replaced_same rows r h (ground (arith, e, k)))
  ]

-- A column that refers to an event holds NULL or the id of an event that the ledger has.
pub data Refers (known : String → Bool) : Option String → Type 0 where
  nothing : Refers known none
  event : (id : String) → known id ≡ true → Refers known (some id)

Refers-cases :
    (known : String → Bool) (o : Option String)
    → ((refers (λ _ id. known id) "events" o ≡ true) × Refers known o)
      ⊎ ((refers (λ _ id. known id) "events" o ≡ false)
          × ((id : String) × ((o ≡ some id) × (known id ≡ false))))
Refers-cases known none = inl (refl, nothing)
Refers-cases known (some id) = elim (Bool-cases (known id)) [
  | inl e ↦ inl (e, event id e)
  | inr e ↦ inr (e, (id, (refl, e)))
]

-- What `upsert` comes to.
pub data Upserts {ℓ} {F : Type ℓ} (known : String → Bool) (state : InnerLoopState F)
    (rows : List (StateRow F)) (conversation : String)
    : Result (InnerLoopState F) × List (StateRow F) → Type ℓ where
  writes :
      (rows' : List (StateRow F))
      → Refers known state.last_user_event_id
      → Refers known state.last_agent_event_id
      → get rows' conversation ≡ (
          if str_eq state.conversation_id conversation
          then ok (some state)
          else get rows conversation)
      → Upserts known state rows conversation (ok state, rows')
  refuses :
      (id : String)
      → (state.last_user_event_id ≡ some id) ⊎ (state.last_agent_event_id ≡ some id)
      → known id ≡ false
      → Upserts known state rows conversation
          (err (integrity_error "FOREIGN KEY constraint failed"), rows)

get-upserted {ℓ} :
    {F : Type ℓ} (state : InnerLoopState F) (rows : List (StateRow F)) (conversation : String)
    → get (upserted (find (is_of state.conversation_id) rows) state rows) conversation ≡ (
        if str_eq state.conversation_id conversation
        then ok (some state)
        else get rows conversation)
unfolding get
get-upserted state rows conversation =
    elim (Option-cases (find (is_of state.conversation_id) rows)) [
      | inl e ↦ elim (Bool-cases (str_eq state.conversation_id conversation)) [
        | inl q ↦
            rw (e, find-append_row state conversation rows e, q, row_to_state-state_row state) refl
        | inr q ↦ rw (e, find-append_row state conversation rows e, q) refl
      ]
      | inr (r, e) ↦ elim (Bool-cases (str_eq state.conversation_id conversation)) [
        | inl q ↦
            rw
              (e, find-replaced_same state conversation rows r q e, q, row_to_state-state_row state)
              refl
        | inr q ↦ rw (e, find-replaced_other state conversation rows q, q) refl
      ]
    ]

-- Where each event that a state names is one of the ledger, `upsert` returns the state, a lookup
-- for its conversation then returns it, and a lookup for another conversation returns what it
-- returned before. Otherwise the state names an event that the ledger does not have, and `upsert`
-- raises an IntegrityError and leaves the table as it was.
pub get-upsert {ℓ} :
    {F : Type ℓ} (known : String → Bool) (state : InnerLoopState F) (rows : List (StateRow F))
    (conversation : String)
    → Upserts known state rows conversation (upsert known state rows)
unfolding upsert
get-upsert known state rows conversation = elim (Refers-cases known state.last_user_event_id) [
  | inl (t, user) ↦ elim (Refers-cases known state.last_agent_event_id) [
    | inl (u, agent) ↦ rw (t, u) (writes _ user agent (get-upserted state rows conversation))
    | inr (u, (id, (e, k))) ↦ rw (t, u) (refuses id (inr e) k)
  ]
  | inr (t, (id, (e, k))) ↦ rw t (refuses id (inl e) k)
]
