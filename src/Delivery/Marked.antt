-- ===== src/Delivery/Marked.antt =====
-- src/ssa/storage/lifecycle_repository.py: the rows that OutboxDeliveryService writes for a delivered
-- message.
use zero_hdsc.Base.{
  ℕ, String, ◌≡◌, refl, ◌∙◌, Bool, none, some, List, ok, err, str_eq, find, update_where, updated,
  find-update_where, find-eq_true, Bool-cases, Option-cases, inl, inr,
}
use zero_hdsc.Domain.Outbox.{OutboxMessage}
use zero_hdsc.Domain.Initiatives.{Initiative, InitiativeStatus, initiative_status_value}
use zero_hdsc.Rows.Json.{Json}
use zero_hdsc.Rows.Outbox.{MessageRow}
use zero_hdsc.Rows.Initiatives.{InitiativeRow}
use zero_hdsc.Outbox.{Outbox, has_id, delivered_row, mark_delivered, get as get_message}
use zero_hdsc.Initiatives.{update_status, get as get_initiative}

-- The row of the message says that it was delivered by the event.
abbrev pub IsMarked : Outbox → String → String → Type 0
IsMarked rows id event_id =
    (r : MessageRow) × (find (has_id id) rows ≡ some r)
    × (r.status ≡ "delivered")
    × (r.delivered_event_id ≡ some event_id)

-- The row of the initiative says that it was sent by the event.
abbrev pub IsSent {ℓ} : {F : Type ℓ} → List (InitiativeRow F) → String → String → Type ℓ
IsSent {F = F} rows id event_id =
    (r : InitiativeRow F) × (find (λ x. str_eq x.id id) rows ≡ some r)
    × (r.status ≡ "sent")
    × (r.sent_event_id ≡ some event_id)

module _ {ℓ} {R : Type ℓ} (q : R → Bool) (f : R → R) (keep : (r : R) → q (f r) ≡ q r) where
  updated-kept : (r : R) → q (updated q f r) ≡ q r
  updated-kept r = elim (Bool-cases (q r)) [ inl e ↦ rw e (keep r ∙ e) | inr e ↦ rw e e ]

  -- What a lookup finds after an UPDATE of the rows that it finds.
  find-hit :
      (rows : List R) (x : R) → find q rows ≡ some x → find q (update_where q f rows) ≡ some (f x)
  find-hit rows x h =
      find-update_where q q f rows updated-kept ∙ rw h (rw (find-eq_true q rows x h) refl)

  find-no_hit : (rows : List R) → find q rows ≡ none → find q (update_where q f rows) ≡ none
  find-no_hit rows h = find-update_where q q f rows updated-kept ∙ rw h refl

module _ {ℓ} {V : Type ℓ} (json : Json V) where
  pub mark_delivered-IsMarked :
      (id event_id : String) (now : ℕ) (rows : Outbox) (m : OutboxMessage V)
      → (mark_delivered json id now (some event_id) rows).0 ≡ ok m
      → IsMarked (mark_delivered json id now (some event_id) rows).1 id event_id
  unfolding mark_delivered get_message
  mark_delivered-IsMarked id event_id now rows m h = elim (Option-cases (find (has_id id) rows)) [
    | inl e ↦
        let gone = find-no_hit (has_id id) (delivered_row now (some event_id)) (λ r. refl) rows e in
        let no : err _ ≡ ok m = rw gone at h in cc
    | inr (x, e) ↦ (
      delivered_row now (some event_id) x,
      find-hit (has_id id) _ (λ r. refl) rows x e,
      refl,
      refl,
    )
  ]

abbrev sent_row {ℓ} : {F : Type ℓ} → ℕ → String → InitiativeRow F → InitiativeRow F
sent_row now event_id r = record r {
  status = initiative_status_value InitiativeStatus.sent;
  updated_at_ms = now;
  sent_event_id = some event_id;
}

module _ {ℓ} {F V : Type ℓ} (json : Json V) where
  pub update_status-IsSent :
      (id event_id : String) (now : ℕ) (rows : List (InitiativeRow F)) (i : Initiative F V)
      → (update_status json id InitiativeStatus.sent now (some event_id) rows).0 ≡ ok i
      → IsSent (update_status json id InitiativeStatus.sent now (some event_id) rows).1 id event_id
  unfolding update_status get_initiative initiative_status_value
  update_status-IsSent id event_id now rows i h =
      elim (Option-cases (find (λ x. str_eq x.id id) rows)) [
        | inl e ↦
            let gone =
              find-no_hit (λ y. str_eq y.id id) (sent_row now event_id) (λ r. refl) rows e in
            let no : err _ ≡ ok i = rw gone at h in cc
        | inr (x, e) ↦ (_, find-hit (λ y. str_eq y.id id) _ (λ r. refl) rows x e, refl, refl)
      ]
