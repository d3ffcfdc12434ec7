-- ===== src/Outbox/Examples.antt =====
-- A run of `claim_due` over two messages.
use zero_hdsc.Base.{
  order_by, select, find, update_where, ◌+◌, String, Bool-cases, inl, inr, false, true, ◌≡◌, refl,
  [], ◌∷◌, some, none, All, arith, rowcount, str_eq, eq_iff,
}
use mathlib.Core.Path.{subst}
use zero_hdsc.Rows.Json.{or_default}
use zero_hdsc.Domain.Outbox.{outbox_status_value, outbox_status_of, OutboxMessage, OutboxStatus}
use zero_hdsc.Rows.Outbox.{message_row, row_to_message}
use zero_hdsc.Rows.Examples.{notes, some_message}
use zero_hdsc.Outbox.{Outbox, claim_due, claim_all, due_ids, get}
use zero_hdsc.Outbox.Reopened.{fail_reopens}
use zero_hdsc.Outbox.{fail, claimable, has_id}
use zero_hdsc.Rows.Outbox.{MessageRow}
use zero_hdsc.Outbox.Holds.{IsHeld, IsKeyed}
use zero_hdsc.Outbox.Claims.{claim_due_exclusion}

abbrev waiting_message : OutboxMessage String
waiting_message = record some_message {
  id = "m1";
  status = OutboxStatus.pending;
  next_attempt_at_ms = none;
}

abbrev two_messages : Outbox
two_messages =
    message_row notes waiting_message
    ∷ message_row notes (record waiting_message { id = "m2"; next_attempt_at_ms = some 900 })
    ∷ []

-- No text is both ids.
first-not_second : (id : String) → str_eq "m1" id ≡ true → str_eq "m2" id ≡ false
first-not_second id h = subst (λ x. str_eq "m2" x ≡ false) ((eq_iff "m1" id).0 h) refl

two_messages-IsKeyed : IsKeyed two_messages
unfolding rowcount message_row
two_messages-IsKeyed id = elim (Bool-cases (str_eq "m1" id)) [
  | inl e ↦ let f = first-not_second id e in rw (e, f) (omega arith)
  | inr e ↦ rw e (ground arith)
]

claim_due_exclusion_example :
    All
      (λ m. IsHeld 65 (claim_due notes 10 60 8 two_messages).1 m.id)
      (record waiting_message {
        status = OutboxStatus.delivering;
        attempt_count = waiting_message.attempt_count + 1;
        next_attempt_at_ms = some 70;
      }
        ∷ [])
unfolding claim_due claim_all due_ids get message_row row_to_message rowcount order_by select
    outbox_status_value find update_where outbox_status_of or_default
claim_due_exclusion_example =
    claim_due_exclusion notes 10 60 8 65 two_messages
      (record waiting_message {
        status = OutboxStatus.delivering;
        attempt_count = waiting_message.attempt_count + 1;
        next_attempt_at_ms = some 70;
      }
        ∷ [])
      two_messages-IsKeyed (omega arith) refl (omega arith)

abbrev delivered_message : OutboxMessage String
delivered_message = record waiting_message {
  status = OutboxStatus.delivered;
  attempt_count = 1;
  delivered_at_ms = some 20;
  delivered_event_id = some "event-1";
}

fail_reopens_example :
    (r : MessageRow) × ((find
          (has_id "m1")
          (fail notes "m1" "KeyError" 30000 5 (message_row notes delivered_message ∷ [])).1
        ≡ some r)
      × ((claimable 30000 r ≡ true)
          × ((r.delivered_at_ms ≡ some 20) × (r.delivered_event_id ≡ some "event-1"))))
unfolding message_row row_to_message find get outbox_status_of outbox_status_value or_default
fail_reopens_example =
    fail_reopens notes "m1" "KeyError" 30000 30000 5 (message_row notes delivered_message ∷ [])
      (message_row notes delivered_message) delivered_message refl refl (omega arith) (omega arith)
