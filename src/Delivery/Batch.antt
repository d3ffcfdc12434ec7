-- ===== src/Delivery/Batch.antt =====
-- src/ssa/services/outbox_service.py: what becomes of the messages of a batch, and its counts.
use mathlib.Core.Path.{subst}
use zero_hdsc.Base.{
  and_then-ok, ℕ, suc, ◌+◌, ◌≤◌, String, ◌≡◌, ◌≢◌, ◌⊎◌, inl, inr, refl, sym, ap, ◌∙◌, List, [], ◌∷◌,
  ◌++◌, arith, length, length-append, Result, ok, err, Error, error_text,
}
use zero_hdsc.Domain.Outbox.{OutboxMessage, OutboxStatus, dead_letter}
use zero_hdsc.Domain.Initiatives.{Initiative}
use zero_hdsc.Domain.Events.{Event}
use zero_hdsc.Rows.Json.{Json}
use zero_hdsc.Outbox.{claim_due, fail}
use zero_hdsc.Delivery.{
  State, Service, DeliveryBatchResult, Progress, no_progress, attempt, failing, conclude,
  deliver_all, deliver_due, batch_of, retry_delay_ms,
}
use zero_hdsc.Delivery.Delivered.{ok_injective, IsDelivered, IsDelivered-attempt}

add_zero : (n : ℕ) → n + 0 ≡ n
add_zero n = omega arith

status-cases :
    (status : OutboxStatus)
    → ((status ≡ dead_letter) × ◌≡◌ {A = ℕ} (elim status [ dead_letter ↦ 1 | _ ↦ 0 ]) 1)
      ⊎ ((status ≢ dead_letter) × ◌≡◌ {A = ℕ} (elim status [ dead_letter ↦ 1 | _ ↦ 0 ]) 0)
status-cases OutboxStatus.pending = inr (λ h. cc, refl)
status-cases OutboxStatus.delivering = inr (λ h. cc, refl)
status-cases OutboxStatus.delivered = inr (λ h. cc, refl)
status-cases OutboxStatus.dead_letter = inl (refl, refl)

module _ {ℓ} {F V W : Type ℓ} (json : Json V) (times : ℕ → ℕ) (new_id : ℕ → String)
    (repr strip hash : String → String) (content_of : V → String)
    (metadata_of : Initiative F V → OutboxMessage V → V) where
  -- What becomes of a claimed message: it is delivered and its event comes to the events, or its
  -- error is stored by `fail` and it is counted as failed, and as dead where `fail` made it dead.
  pub data Step (service : Service F V W) (message : OutboxMessage V) (p p' : Progress V)
      (s s' : State F W) : Type ℓ where
    delivers :
        (event : Event V)
        → IsDelivered json times new_id repr strip hash content_of metadata_of service message event
            s s'
        → p' ≡ record p { delivered_events = p.delivered_events ++ event ∷ [] }
        → Step service message p p' s s'
    retries :
        (before : State F W) (e : Error) (retry_at : ℕ) (current : OutboxMessage V)
        → fail json message.id (error_text repr e) retry_at service.max_attempts before.outbox
          ≡ (ok current, s'.outbox)
        → current.status ≢ dead_letter
        → p' ≡ record p { failed = p.failed + 1 }
        → Step service message p p' s s'
    dies :
        (before : State F W) (e : Error) (retry_at : ℕ) (current : OutboxMessage V)
        → fail json message.id (error_text repr e) retry_at service.max_attempts before.outbox
          ≡ (ok current, s'.outbox)
        → current.status ≡ dead_letter
        → p' ≡ record p { failed = p.failed + 1; dead_lettered = p.dead_lettered + 1 }
        → Step service message p p' s s'

  -- The messages one after the other.
  abbrev pub Runs :
      Service F V W
      → List (OutboxMessage V)
      → Progress V
      → Progress V
      → State F W
      → State F W
      → Type ℓ
  Runs service [] p p' s s' = (p' ≡ p) × (s' ≡ s)
  Runs service (message ∷ rest) p p' s s' =
      (p1 : Progress V) × (s1 : State F W) × Step service message p p1 s s1
      × Runs service rest p1 p' s1 s'

  conclude-Step :
      (service : Service F V W) (message : OutboxMessage V) (p p' : Progress V) (s : State F W)
      (x : Result (Event V) × State F W)
      → ((event : Event V)
          → x.0 ≡ ok event
          → IsDelivered json times new_id repr strip hash content_of metadata_of service message
              event s x.1)
      → (conclude json times new_id repr strip hash content_of metadata_of service message p x).0
        ≡ ok p'
      → Step service message p p' s
          (conclude json times new_id repr strip hash content_of metadata_of service message p x).1
  unfolding conclude failing
  conclude-Step service message p p' s (ok event, s1) good h =
      delivers event (good event refl) (sym (ok_injective _ p' h))
  conclude-Step service message p p' s (err e, s1) good h =
      let (current, (stored, (same, h'))) =
        and_then-ok
          (failing json times new_id repr strip hash content_of metadata_of service message e s1) _
          p' h in
      let retry_at = times s1.reads + retry_delay_ms message.attempt_count in
      let failed =
        fail json message.id (error_text repr e) retry_at service.max_attempts s1.outbox in
      let stopped : failed ≡ (ok current, failed.1) = ap (λ r. (r, failed.1)) stored in
      let counted = ok_injective _ p' h' in
      elim (status-cases current.status) [
        | inl (dead, one) ↦
            rw same (dies s1 e retry_at current stopped dead (sym (rw one at counted)))
        | inr (alive, none_dead) ↦ rw same (
            retries s1 e retry_at current stopped alive
              (sym (rw (none_dead, add_zero p.dead_lettered) at counted)))
      ]

  deliver_all-Runs :
      (service : Service F V W) (messages : List (OutboxMessage V)) (p p' : Progress V)
      (s : State F W)
      → (deliver_all json times new_id repr strip hash content_of metadata_of service messages p
          s).0
        ≡ ok p'
      → Runs service messages p p' s
          (deliver_all json times new_id repr strip hash content_of metadata_of service messages p
            s).1
  unfolding deliver_all
  deliver_all-Runs service [] p p' s h = (sym (ok_injective p p' h), refl)
  deliver_all-Runs service (message ∷ rest) p p' s h =
      let tried =
        attempt json times new_id repr strip hash content_of metadata_of service message s in
      let (p1, (first, (same, h'))) =
        and_then-ok
          (conclude json times new_id repr strip hash content_of metadata_of service message p
            tried)
          _ p' h in
      rw same (
        p1,
        (conclude json times new_id repr strip hash content_of metadata_of service message p
            tried).1,
        conclude-Step service message p p1 s tried
            (IsDelivered-attempt json times new_id repr strip hash content_of metadata_of service
              message s)
            first,
        deliver_all-Runs service rest p1 p'
            (conclude json times new_id repr strip hash content_of metadata_of service message p
              tried).1
            h',
      )

  -- Each message counts once, and no more are dead than failed.
  Step-counts :
      (service : Service F V W) (message : OutboxMessage V) (p p' : Progress V) (s s' : State F W)
      → Step service message p p' s s'
      → (length p'.delivered_events + p'.failed ≡ suc (length p.delivered_events + p.failed))
        × (p'.dead_lettered + p.failed ≤ p'.failed + p.dead_lettered)
  Step-counts service message p p' s s' (delivers event d e) =
      rw e (omega (arith, length-append p.delivered_events (event ∷ [])), omega arith)
  Step-counts service message p p' s s' (retries before e r current done alive q) =
      rw q (omega arith, omega arith)
  Step-counts service message p p' s s' (dies before e r current done dead q) =
      rw q (omega arith, omega arith)

  Runs-counts :
      (service : Service F V W) (messages : List (OutboxMessage V)) (p p' : Progress V)
      (s s' : State F W)
      → Runs service messages p p' s s'
      → (length p'.delivered_events + p'.failed
          ≡ length messages + (length p.delivered_events + p.failed))
        × (p'.dead_lettered + p.failed ≤ p'.failed + p.dead_lettered)
  Runs-counts service [] p p' s s' (e, q) = rw e (omega arith, omega arith)
  Runs-counts service (message ∷ rest) p p' s s' (p1, s1, step, runs) =
      let (one, few) = Step-counts service message p p1 s s1 step in
      let (more, few') = Runs-counts service rest p1 p' s1 s' runs in
      (omega (arith, one, more), omega (arith, few, few'))

  -- What a call of `deliver_due` that returns has done: it claimed messages, and each, in turn, was
  -- delivered or failed; the result has their events and counts.
  pub record IsBatch (limit : ℕ) (service : Service F V W) (s : State F W)
      (batch : DeliveryBatchResult V) (s' : State F W) : Type ℓ where
    pub messages : List (OutboxMessage V)
    pub claims : (claim_due json (times s.reads) service.lease_ms limit s.outbox).0 ≡ ok messages
    pub progress : Progress V
    pub runs :
        Runs service messages no_progress progress
          (record s {
            outbox = (claim_due json (times s.reads) service.lease_ms limit s.outbox).1;
            reads = s.reads + 1;
          })
          s'
    pub claimed : batch.claimed ≡ length messages
    pub events : batch.events ≡ progress.delivered_events
    pub delivered : batch.delivered ≡ length batch.events
    pub failed : batch.failed ≡ progress.failed
    pub dead_lettered : batch.dead_lettered ≡ progress.dead_lettered
    pub total : batch.delivered + batch.failed ≡ batch.claimed
    pub few : batch.dead_lettered ≤ batch.failed

  batch_of-IsBatch :
      (limit : ℕ) (service : Service F V W) (s s' : State F W) (messages : List (OutboxMessage V))
      (progress : Progress V)
      → (claim_due json (times s.reads) service.lease_ms limit s.outbox).0 ≡ ok messages
      → Runs service messages no_progress progress
          (record s {
            outbox = (claim_due json (times s.reads) service.lease_ms limit s.outbox).1;
            reads = s.reads + 1;
          })
          s'
      → IsBatch limit service s (batch_of messages progress) s'
  batch_of-IsBatch limit service s s' messages progress claims runs =
      let (all, dead) = Runs-counts service messages no_progress progress _ s' runs in
      record {
        messages = messages;
        claims = claims;
        progress = progress;
        runs = runs;
        claimed = refl;
        events = refl;
        delivered = refl;
        failed = refl;
        dead_lettered = refl;
        total = omega (arith, all);
        few = omega (arith, dead);
      }

  -- Where `deliver_due` returns a batch, it claimed messages and dealt with each in turn. A message
  -- was delivered: its adapter sent it, its event is one that the ledger had for the message or one
  -- that was appended to the ledger, then the row of the message was marked as delivered by that
  -- event and the row of the initiative that was read for the message as sent by it, and the hook,
  -- if there is one, was called and returned; and the event was added to those of the batch. Or
  -- `fail` stored an error for it, and it was counted as failed, and as dead exactly where `fail`
  -- made it dead. The counts of delivered and failed messages add up to the claimed ones, and no
  -- more are dead than failed.
  pub deliver_due-IsBatch :
      (limit : ℕ) (service : Service F V W) (s s' : State F W) (batch : DeliveryBatchResult V)
      → deliver_due json times new_id repr strip hash content_of metadata_of limit service s
        ≡ (ok batch, s')
      → IsBatch limit service s batch s'
  unfolding deliver_due
  deliver_due-IsBatch limit service s s' batch h =
      let claim = claim_due json (times s.reads) service.lease_ms limit s.outbox in
      let start : State F W = record s { outbox = claim.1; reads = s.reads + 1 } in
      let (messages, (claims, (same, h1))) =
        and_then-ok (claim.0, start) _ batch (ap (λ x. x.0) h) in
      let (progress, (done, (same', h2))) =
        and_then-ok
          (deliver_all json times new_id repr strip hash content_of metadata_of service messages
            no_progress start)
          _ batch h1 in
      let end : (deliver_all json times new_id repr strip hash content_of metadata_of service
            messages no_progress start).1
          ≡ s' =
        ap (λ x. x.1) (sym (same ∙ same') ∙ h) in
      subst (λ b. IsBatch limit service s b s') (ok_injective _ batch h2)
        (subst (λ x. IsBatch limit service s (batch_of messages progress) x) end
          (batch_of-IsBatch limit service s _ messages progress claims
            (deliver_all-Runs service messages no_progress progress start done)))
