-- ===== src/Delivery/Delivered.antt =====
-- src/ssa/services/outbox_service.py: what becomes of the messages of a batch.
use mathlib.Core.Path.{subst}
use Prim.Native.String.{◌++◌ as ◌^^◌}
use zero_hdsc.Base.{
  and_then-ok, ℕ, String, ◌≡◌, inl, inr, refl, ap, ◌∙◌, Option, none, some, dict_get, Result, ok,
  err, Bool-cases, Option-cases, str_eq,
}
use zero_hdsc.Domain.Outbox.{OutboxMessage}
use zero_hdsc.Domain.Initiatives.{Initiative}
use zero_hdsc.Domain.Events.{Event}
use zero_hdsc.Rows.Json.{Json}
use zero_hdsc.Initiatives
use zero_hdsc.Events.{Ledger, append, find_by_channel_message, make_signal, normalize_signal}
use zero_hdsc.Delivery.{
  State, Service, Adapter, DeliveryHook, attempt, adapter_or_raise, initiative_or_raise,
  initiative_for, event_with, new_event, delivery_event, marking, sending, hooked,
}
use zero_hdsc.Delivery.Marked.{IsMarked, IsSent, mark_delivered-IsMarked, update_status-IsSent}

pub ok_injective {ℓ} : {A : Type ℓ} (a b : A) → ok a ≡ ok b → a ≡ b
ok_injective a b h = cc

module _ {ℓ} {F V W : Type ℓ} where
  -- The hook, if there is one, returned.
  pub data Hooks (initiative : Initiative F V) (event : Event V) (s s' : State F W)
      : Option (DeliveryHook F V W) → Type ℓ where
    no_hook : s ≡ s' → Hooks initiative event s s' none
    hook_returned :
        (hook : DeliveryHook F V W)
        → hook initiative event s ≡ (ok tt, s')
        → Hooks initiative event s s' (some hook)

  adapter-registered :
      (found : Option (Adapter F V W)) (channel : String) (adapter : Adapter F V W)
      → adapter_or_raise found channel ≡ ok adapter
      → found ≡ some adapter
  adapter-registered none channel adapter h = cc
  adapter-registered (some a) channel adapter h = ap some (ok_injective a adapter h)

initiative-found {ℓ} :
    {A : Type ℓ} (id : String) (found : Result (Option A)) (a : A)
    → initiative_or_raise id found ≡ ok a
    → found ≡ ok (some a)
initiative-found id (err e) a h = cc
initiative-found id (ok none) a h = cc
initiative-found id (ok (some b)) a h = ap (λ x. ok (some x)) (ok_injective b a h)

-- The event of the message: one that the ledger had, or one that has just been appended.
pub data IsRecorded {ℓ} {V : Type ℓ} (json : Json V) (channel id : String) (event : Event V)
    (before after : Ledger) : Type ℓ where
  found :
      find_by_channel_message json before channel id ≡ ok (some event)
      → IsRecorded json channel id event before after
  appended :
      (made : Event V)
      → find_by_channel_message json before channel id ≡ ok none
      → append json made before ≡ (ok event, after)
      → IsRecorded json channel id event before after

module _ {ℓ} {F V W : Type ℓ} (json : Json V) (times : ℕ → ℕ) (new_id : ℕ → String)
    (repr strip hash : String → String) (content_of : V → String)
    (metadata_of : Initiative F V → OutboxMessage V → V) where
  -- A message that was delivered by an event, from one state to another: its adapter sent it, the
  -- event is in the ledger, the rows of the message and of its initiative name the event, and the
  -- hook, called after that, returned.
  pub record IsDelivered (service : Service F V W) (message : OutboxMessage V) (event : Event V)
      (s s' : State F W) : Type ℓ where
    pub adapter : Adapter F V W
    pub registered : dict_get message.channel service.adapters ≡ some adapter
    pub after : State F W
    pub carried : adapter message s ≡ (ok tt, after)
    pub written : State F W
    pub recorded :
        IsRecorded json ("outbox:" ^^ message.channel) message.id event after.events written.events
    pub marked : IsMarked written.outbox message.id event.id
    pub initiative : Initiative F V
    pub looked_up :
        (id : String) × (message.initiative_id ≡ some id)
        × (Initiatives.get json s.initiatives id ≡ ok (some initiative))
    pub sent : IsSent written.initiatives initiative.id event.id
    pub updated : Initiative F V
    pub hooks : Hooks updated event written s' service.on_delivered

  hooked-Hooks :
      (on_delivered : Option (DeliveryHook F V W)) (initiative : Initiative F V) (event e : Event V)
      (s : State F W)
      → (hooked json times new_id repr strip hash content_of metadata_of on_delivered initiative
          event s).0
        ≡ ok e
      → (event ≡ e)
        × Hooks initiative event s
            (hooked json times new_id repr strip hash content_of metadata_of on_delivered initiative
              event s).1
            on_delivered
  hooked-Hooks none initiative event e s h = (ok_injective event e h, no_hook refl)
  hooked-Hooks (some hook) initiative event e s h =
      let (u, (called, (same, rest))) =
        and_then-ok (hook initiative event s) (λ _ s. (ok event, s)) e h in
      (
        ok_injective event e rest,
        rw same (hook_returned hook (ap (λ r. (r, (hook initiative event s).1)) called)),
      )

  new_event-IsRecorded :
      (channel content : String) (message : OutboxMessage V) (initiative : Initiative F V)
      (s : State F W) (event : Event V)
      → find_by_channel_message json s.events channel message.id ≡ ok none
      → (new_event json times new_id repr strip hash content_of metadata_of channel content message
          initiative s).0
        ≡ ok event
      → IsRecorded json channel message.id event s.events
          (new_event json times new_id repr strip hash content_of metadata_of channel content
            message initiative s).1.events
  new_event-IsRecorded channel content message initiative s event f h =
      let (signal, (_, (same, h1))) = and_then-ok (make_signal strip _, s) _ event h in
      let (made, (_, (same', h2))) =
        and_then-ok (normalize_signal hash signal _ _ _ _, _) _ event h1 in
      rw (same, same') (appended made f (ap (λ r. (r, (append json made s.events).1)) h2))

  event_with-IsRecorded :
      (found_event : Result (Option (Event V))) (channel : String) (message : OutboxMessage V)
      (initiative : Initiative F V) (s : State F W) (event : Event V)
      → find_by_channel_message json s.events channel message.id ≡ found_event
      → (event_with json times new_id repr strip hash content_of metadata_of found_event channel
          message initiative s).0
        ≡ ok event
      → IsRecorded json channel message.id event s.events
          (event_with json times new_id repr strip hash content_of metadata_of found_event channel
            message initiative s).1.events
  event_with-IsRecorded (err e) channel message initiative s event f h = cc
  event_with-IsRecorded (ok (some old)) channel message initiative s event f h =
      found (f ∙ ap (λ x. ok (some x)) (ok_injective old event h))
  event_with-IsRecorded (ok none) channel message initiative s event f h =
      elim (Bool-cases (str_eq (strip (content_of message.payload)) "")) [
        | inl e ↦ let no : err _ ≡ ok event = rw e at h in cc
        | inr e ↦ rw e (new_event-IsRecorded channel _ message initiative s event f (rw e at h))
      ]

  initiative_for-state :
      (message : OutboxMessage V) (s : State F W)
      → (initiative_for json times new_id repr strip hash content_of metadata_of message s).1 ≡ s
  unfolding initiative_for
  initiative_for-state message s = elim (Option-cases message.initiative_id) [
    | inl e ↦ rw e refl
    | inr (id, e) ↦ rw e refl
  ]

  initiative_for-ok :
      (message : OutboxMessage V) (s : State F W) (initiative : Initiative F V)
      → (initiative_for json times new_id repr strip hash content_of metadata_of message s).0
        ≡ ok initiative
      → (id : String) × (message.initiative_id ≡ some id)
        × (Initiatives.get json s.initiatives id ≡ ok (some initiative))
  unfolding initiative_for
  initiative_for-ok message s initiative h = elim (Option-cases message.initiative_id) [
    | inl e ↦ let no : err _ ≡ ok initiative = rw e at h in cc
    | inr (id, e) ↦ (id, e, initiative-found id _ initiative (rw e at h))
  ]

  pub IsDelivered-attempt :
      (service : Service F V W) (message : OutboxMessage V) (s : State F W) (event : Event V)
      → (attempt json times new_id repr strip hash content_of metadata_of service message s).0
        ≡ ok event
      → IsDelivered service message event s
          (attempt json times new_id repr strip hash content_of metadata_of service message s).1
  unfolding attempt delivery_event
  IsDelivered-attempt service message s event h =
      let (adapter, (e1, (q1, h1))) =
        and_then-ok
          (adapter_or_raise (dict_get message.channel service.adapters) message.channel, s) _ event
          h in
      let (initiative, (e2, (q2, h2))) =
        and_then-ok
          (initiative_for json times new_id repr strip hash content_of metadata_of message s) _
          event h1 in
      let s1 =
        (initiative_for json times new_id repr strip hash content_of metadata_of message s).1 in
      let (u, (e3, (q3, h3))) = and_then-ok (adapter message s1) _ event h2 in
      let s2 = (adapter message s1).1 in
      let (made, (e4, (q4, h4))) =
        and_then-ok
          (delivery_event json times new_id repr strip hash content_of metadata_of message
            initiative s2)
          _ event h3 in
      let s3 =
        (delivery_event json times new_id repr strip hash content_of metadata_of message initiative
          s2).1 in
      let (m, (e5, (q5, h5))) =
        and_then-ok
          (marking json times new_id repr strip hash content_of metadata_of message made s3) _ event
          h4 in
      let s4 =
        (marking json times new_id repr strip hash content_of metadata_of message made s3).1 in
      let (updated, (e6, (q6, h6))) =
        and_then-ok
          (sending json times new_id repr strip hash content_of metadata_of initiative made s4) _
          event h5 in
      let s5 =
        (sending json times new_id repr strip hash content_of metadata_of initiative made s4).1 in
      let (same, hooks) = hooked-Hooks service.on_delivered updated made event s5 h6 in
      rw (q1, q2, q3, q4, q5, q6)
        (subst
          (λ x.
            IsDelivered service message x s
              (hooked json times new_id repr strip hash content_of metadata_of service.on_delivered
                updated made s5).1)
          same
          (record {
            adapter = adapter;
            registered = adapter-registered _ message.channel adapter e1;
            after = s2;
            carried =
                subst (λ x. adapter message x ≡ (ok tt, s2)) (initiative_for-state message s)
                  (ap (λ r. (r, s2)) e3);
            written = s5;
            recorded =
                event_with-IsRecorded
                  (find_by_channel_message json s2.events ("outbox:" ^^ message.channel) message.id)
                  ("outbox:" ^^ message.channel) message initiative s2 made refl e4;
            marked = mark_delivered-IsMarked json message.id made.id _ s3.outbox m e5;
            initiative = initiative;
            looked_up = initiative_for-ok message s initiative e2;
            sent = update_status-IsSent json initiative.id made.id _ s4.initiatives updated e6;
            updated = updated;
            hooks = hooks;
          }))
