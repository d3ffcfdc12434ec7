-- ===== src/Initiatives/Expiry.antt =====
-- src/ssa/storage/lifecycle_repository.py: what `expire_due` leaves active.
use mathlib.Core.Path.{subst}
use zero_hdsc.Base.{
  ℕ, String, ◌≡◌, refl, sym, ap, ◌∙◌, Bool, false, ◌&&◌, Option, List, [], ◌∷◌, arith, ltb, str_eq,
  All, All-imp, All-order_by, Result, ok, err, or_raise, value_error, ◌>>=◌, select, update_where,
  order_by, fetch_all, Bool-cases, inl, inr,
}
use zero_hdsc.Domain.Initiatives.{Initiative, initiative_status_of}
use zero_hdsc.Rows.Json.{Json, or_default}
use zero_hdsc.Rows.Initiatives.{InitiativeRow, row_to_initiative}
use zero_hdsc.Initiatives.{is_active, is_expired, is_expiring, expire_due, list_active}

abbrev values_of {ℓ} : {A : Type ℓ} → Result (List A) → List A
values_of (ok values) = values
values_of (err e) = []

module _ {ℓ κ μ} {R : Type ℓ} {A : Type κ} (read : R → Result A) (Q : A → Type μ) where
  All-fetched :
      (x : Result A) (y : Result (List A))
      → ((a : A) → x ≡ ok a → Q a)
      → All Q (values_of y)
      → All Q (values_of (x >>= λ a. y >>= λ rest. ok (a ∷ rest)))
  All-fetched (err e) y h all = tt
  All-fetched (ok a) (err e) h all = tt
  All-fetched (ok a) (ok rest) h all = (h a refl, all)

  -- What holds of the value of each row holds of the fetched values.
  All-fetch_all :
      (rows : List R)
      → All (λ r. (a : A) → read r ≡ ok a → Q a) rows
      → All Q (values_of (fetch_all read rows))
  unfolding fetch_all
  All-fetch_all [] h = tt
  All-fetch_all (r ∷ rows) h =
      All-fetched (read r) (fetch_all read rows) h.0 (All-fetch_all rows h.1)

-- The expiry of an initiative that was read, and a default where none was.
abbrev expiry_of {ℓ} : {F V : Type ℓ} → Result (Initiative F V) → Option ℕ → Option ℕ
expiry_of (ok i) default = i.expires_at_ms
expiry_of (err e) default = default

expiry_of-bind {ℓ κ} :
    {A : Type κ} {F V : Type ℓ} (x : Result A) (f : A → Result (Initiative F V)) (at : Option ℕ)
    → ((a : A) → expiry_of (f a) at ≡ at)
    → expiry_of (x >>= f) at ≡ at
expiry_of-bind (ok a) f at h = h a
expiry_of-bind (err e) f at h = refl

module _ {ℓ} {F V : Type ℓ} (json : Json V) where
  expiry_of-row_to_initiative :
      (r : InitiativeRow F) → expiry_of (row_to_initiative json r) r.expires_at_ms ≡ r.expires_at_ms
  unfolding row_to_initiative
  expiry_of-row_to_initiative r =
      expiry_of-bind (or_raise (initiative_status_of r.status) (value_error "")) _ r.expires_at_ms
        (λ s.
          expiry_of-bind (json.load_texts (or_default r.source_event_ids_json "[]")) _
            r.expires_at_ms
            (λ e.
              expiry_of-bind (json.load_texts (or_default r.source_trace_ids_json "[]")) _
                r.expires_at_ms
                (λ t.
                  expiry_of-bind (json.loads (or_default r.decision_json "{}")) _ r.expires_at_ms
                    (λ d. refl))))

  read-expiry :
      (r : InitiativeRow F) (i : Initiative F V)
      → row_to_initiative json r ≡ ok i
      → i.expires_at_ms ≡ r.expires_at_ms
  read-expiry r i h = ap (λ x. expiry_of x r.expires_at_ms) (sym h) ∙ expiry_of-row_to_initiative r

module _ {ℓ} {F : Type ℓ} (conversation : String) (now : ℕ) where
  abbrev active : InitiativeRow F → Bool
  active r = str_eq r.conversation_id conversation && is_active r.status

  abbrev closed : InitiativeRow F → InitiativeRow F
  closed r = record r { status = "expired"; updated_at_ms = now }

  closed-not_active : (r : InitiativeRow F) → active (closed r) ≡ false
  closed-not_active r = ground arith

  left_active :
      (rows : List (InitiativeRow F))
      → All
          (λ r. is_expired r.expires_at_ms now ≡ false)
          (select active (update_where (is_expiring conversation now) closed rows))
  unfolding select update_where
  left_active [] = tt
  left_active (r ∷ rows) = elim (Bool-cases (is_expiring conversation now r)) [
    | inl e ↦ rw (e, closed-not_active r) (left_active rows)
    | inr e ↦ elim (Bool-cases (active r)) [
      | inl a ↦ rw (e, a) (ground (arith, e, a), left_active rows)
      | inr a ↦ rw (e, a) (left_active rows)
    ]
  ]

module _ {ℓ} {F V : Type ℓ} (json : Json V) (conversation : String) (now : ℕ) where
  NotExpired-active :
      (rows : List (InitiativeRow F))
      → All
          (λ (i : Initiative F V). is_expired i.expires_at_ms now ≡ false)
          (values_of (list_active json (expire_due conversation now rows).1 conversation))
  unfolding list_active expire_due
  NotExpired-active rows =
      let left = left_active conversation now rows in
      let sorted =
        order_by (λ a b. ltb a.created_at_ms b.created_at_ms)
          (select (active conversation now)
            (update_where (is_expiring conversation now) (closed conversation now) rows)) in
      All-fetch_all (row_to_initiative json) (λ i. is_expired i.expires_at_ms now ≡ false) sorted
        (All-imp (λ r. is_expired r.expires_at_ms now ≡ false)
          (λ r.
            (i : Initiative F V)
            → row_to_initiative json r ≡ ok i
            → is_expired i.expires_at_ms now ≡ false)
          sorted (λ r h i e. subst (λ x. is_expired x now ≡ false) (sym (read-expiry json r i e)) h)
          (All-order_by (λ r. is_expired r.expires_at_ms now ≡ false)
            (λ a b. ltb a.created_at_ms b.created_at_ms)
            (select (active conversation now)
              (update_where (is_expiring conversation now) (closed conversation now) rows))
            left))

-- After the initiatives of a conversation that are due to expire have expired, none that its list of
-- active initiatives returns has an expiry that is past.
pub list_active-expire_due {ℓ} :
    {F V : Type ℓ} (json : Json V) (conversation : String) (now : ℕ) (rows : List (InitiativeRow F))
    (initiatives : List (Initiative F V))
    → list_active json (expire_due conversation now rows).1 conversation ≡ ok initiatives
    → All (λ i. is_expired i.expires_at_ms now ≡ false) initiatives
list_active-expire_due json conversation now rows initiatives h =
    subst (λ is. All (λ i. is_expired i.expires_at_ms now ≡ false) is) (ap values_of h)
      (NotExpired-active json conversation now rows)
