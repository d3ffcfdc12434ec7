-- ===== src/Delivery.antt =====
-- src/ssa/services/outbox_service.py: OutboxDeliveryService, over the outbox, the initiatives and the
-- ledger. Parameters: the clock (`times`) and the source of ids (`new_id`) by the number of calls so
-- far, Python's repr, str.strip and SHA-256, the content of a payload, and the metadata of an event.
mod Marked
mod Delivered
pub mod Batch
mod Examples
use zero_hdsc.Base.{
  ℕ, suc, ◌+◌, ◌-◌, ◌*◌, ◌^◌, min, String, Bool, true, false, Option, none, some, List, [], ◌∷◌,
  ◌++◌, if◌then◌else◌, str_eq, length, dict_get, Error, error_text, not_registered,
  no_such_initiative, value_error, Result, ok, err, and_then,
}
use Prim.Native.String.{◌++◌ as ◌^^◌}
use zero_hdsc.Domain.Outbox.{OutboxMessage, OutboxStatus, dead_letter}
use zero_hdsc.Domain.Initiatives.{Initiative, InitiativeStatus}
use zero_hdsc.Domain.Events.{Event, Actor, SourceKind}
use zero_hdsc.Rows.Json.{Json}
use zero_hdsc.Rows.Initiatives.{InitiativeRow}
use zero_hdsc.Outbox.{Outbox, claim_due, mark_delivered, fail}
use zero_hdsc.Initiatives
use zero_hdsc.Events.{
  Ledger, IncomingSignal, make_signal, normalize_signal, append, find_by_channel_message,
}

pub record State {ℓ} (F W : Type ℓ) : Type ℓ where
  pub outbox : Outbox
  pub initiatives : List (InitiativeRow F)
  pub events : Ledger
  pub rest : W
  pub reads : ℕ
  pub ids : ℕ

-- A channel adapter sends a message, or raises.
abbrev pub Adapter {ℓ} : Type ℓ → Type ℓ → Type ℓ → Type ℓ
Adapter F V W = OutboxMessage V → State F W → Result (Unit {0}) × State F W

abbrev pub DeliveryHook {ℓ} : Type ℓ → Type ℓ → Type ℓ → Type ℓ
DeliveryHook F V W = Initiative F V → Event V → State F W → Result (Unit {0}) × State F W

pub record Service {ℓ} (F V W : Type ℓ) : Type ℓ where
  pub adapters : List (String × Adapter F V W)
  pub on_delivered : Option (DeliveryHook F V W)
  pub lease_ms : ℕ
  pub max_attempts : ℕ

pub record DeliveryBatchResult {ℓ} (V : Type ℓ) : Type ℓ where
  pub claimed : ℕ
  pub delivered : ℕ
  pub failed : ℕ
  pub dead_lettered : ℕ
  pub events : List (Event V)

-- failed, dead_lettered and delivered_events, as they are within the loop
pub record Progress {ℓ} (V : Type ℓ) : Type ℓ where
  pub failed : ℕ
  pub dead_lettered : ℕ
  pub delivered_events : List (Event V)

abbrev pub no_progress {ℓ} : {V : Type ℓ} → Progress V
no_progress = record { failed = 0; dead_lettered = 0; delivered_events = [] }

-- min(60 * 60 * 1_000, 30_000 * (2 ** max(0, attempts - 1)))
unfoldable pub retry_delay_ms : ℕ → ℕ
retry_delay_ms attempts = min (60 * 60 * 1000) (30000 * 2 ^ (attempts - 1))

abbrev pub dead_of {ℓ} : {V : Type ℓ} → OutboxMessage V → ℕ
dead_of message = elim message.status [ dead_letter ↦ 1 | _ ↦ 0 ]

abbrev pub adapter_or_raise {ℓ} : {A : Type ℓ} → Option A → String → Result A
adapter_or_raise none channel = err (not_registered "channel adapter" channel)
adapter_or_raise (some adapter) channel = ok adapter

abbrev pub initiative_or_raise {ℓ} : {A : Type ℓ} → String → Result (Option A) → Result A
initiative_or_raise id (err e) = err e
initiative_or_raise id (ok none) = err (no_such_initiative id)
initiative_or_raise id (ok (some a)) = ok a

abbrev pub batch_of {ℓ} : {V : Type ℓ} → List (OutboxMessage V) → Progress V → DeliveryBatchResult V
batch_of claimed p = record {
  claimed = length claimed;
  delivered = length p.delivered_events;
  failed = p.failed;
  dead_lettered = p.dead_lettered;
  events = p.delivered_events;
}

module _ {ℓ} {F V W : Type ℓ} (json : Json V) (times : ℕ → ℕ) (new_id : ℕ → String)
    (repr strip hash : String → String) (content_of : V → String)
    (metadata_of : Initiative F V → OutboxMessage V → V) where
  unfoldable pub initiative_for : OutboxMessage V → State F W → Result (Initiative F V) × State F W
  initiative_for message s = elim message.initiative_id [
    | none ↦ (err (value_error "outbox message has no initiative"), s)
    | some id ↦ (initiative_or_raise id (Initiatives.get json s.initiatives id), s)
  ]

  -- The signal of a new event, and the event, with one id and one reading of the clock.
  abbrev pub new_event :
      String → String → OutboxMessage V → Initiative F V → State F W → Result (Event V) × State F W
  new_event channel content message initiative s =
      and_then
        (
          make_signal strip record {
            actor = Actor.agent;
            signal_type = "agent.initiative";
            content = content;
            channel = channel;
            channel_message_id = some message.id;
            conversation_id = initiative.conversation_id;
            parent_event_id = none;
            metadata = metadata_of initiative message;
          },
          s,
        )
        (λ signal s.
          and_then
            (
              normalize_signal hash signal (new_id s.ids) message.correlation_id (times s.reads)
                  SourceKind.agent_output,
              record s { ids = s.ids + 1; reads = s.reads + 1 },
            )
            (λ event s.
              let (stored, events) = append json event s.events in
              (stored, record s { events = events })))

  abbrev pub event_with :
      Result (Option (Event V))
      → String
      → OutboxMessage V
      → Initiative F V
      → State F W
      → Result (Event V) × State F W
  event_with (err e) channel message initiative s = (err e, s)
  event_with (ok (some event)) channel message initiative s = (ok event, s)
  event_with (ok none) channel message initiative s =
      let content = strip (content_of message.payload) in
      if str_eq content ""
      then (err (value_error "outbox content is empty"), s)
      else new_event channel content message initiative s

  unfoldable pub delivery_event :
      OutboxMessage V → Initiative F V → State F W → Result (Event V) × State F W
  delivery_event message initiative s =
      let channel = "outbox:" ^^ message.channel in
      event_with (find_by_channel_message json s.events channel message.id) channel message
        initiative s

  abbrev pub marking : OutboxMessage V → Event V → State F W → Result (OutboxMessage V) × State F W
  marking message event s =
      let (row, outbox) = mark_delivered json message.id (times s.reads) (some event.id) s.outbox in
      (row, record s { outbox = outbox; reads = s.reads + 1 })

  abbrev pub sending : Initiative F V → Event V → State F W → Result (Initiative F V) × State F W
  sending initiative event s =
      let (row, initiatives) =
        Initiatives.update_status json initiative.id InitiativeStatus.sent (times s.reads)
          (some event.id) s.initiatives in
      (row, record s { initiatives = initiatives; reads = s.reads + 1 })

  abbrev pub hooked :
      Option (DeliveryHook F V W)
      → Initiative F V
      → Event V
      → State F W
      → Result (Event V) × State F W
  hooked none sent event s = (ok event, s)
  hooked (some hook) sent event s = and_then (hook sent event s) (λ _ s. (ok event, s))

  -- The body of the `try`.
  unfoldable pub attempt :
      Service F V W → OutboxMessage V → State F W → Result (Event V) × State F W
  attempt service message s =
      and_then (adapter_or_raise (dict_get message.channel service.adapters) message.channel, s)
        (λ adapter s. and_then (initiative_for message s) (λ initiative s.
          and_then (adapter message s) (λ _ s.
            and_then (delivery_event message initiative s) (λ event s.
              and_then (marking message event s) (λ _ s.
                and_then (sending initiative event s)
                  (λ sent s. hooked service.on_delivered sent event s))))))

  -- `self._outbox.fail(...)` of the `except`
  unfoldable pub failing :
      Service F V W → OutboxMessage V → Error → State F W → Result (OutboxMessage V) × State F W
  failing service message e s =
      let (row, outbox) =
        fail json message.id (error_text repr e)
          (times s.reads + retry_delay_ms message.attempt_count) service.max_attempts s.outbox in
      (row, record s { outbox = outbox; reads = s.reads + 1 })

  -- What one message adds to the counts and to the events.
  unfoldable pub conclude :
      Service F V W
      → OutboxMessage V
      → Progress V
      → Result (Event V) × State F W
      → Result (Progress V) × State F W
  conclude service message p (ok event, s) =
      (ok (record p { delivered_events = p.delivered_events ++ event ∷ [] }), s)
  conclude service message p (err e, s) = and_then (failing service message e s) (λ current s. (
    ok (record p { failed = p.failed + 1; dead_lettered = p.dead_lettered + dead_of current }),
    s,
  ))

  unfoldable pub deliver_all :
      Service F V W
      → List (OutboxMessage V)
      → Progress V
      → State F W
      → Result (Progress V) × State F W
  deliver_all service [] p s = (ok p, s)
  deliver_all service (message ∷ rest) p s =
      and_then (conclude service message p (attempt service message s))
        (λ p s. deliver_all service rest p s)

  unfoldable pub deliver_due :
      ℕ → Service F V W → State F W → Result (DeliveryBatchResult V) × State F W
  deliver_due limit service s =
      let (claimed, outbox) = claim_due json (times s.reads) service.lease_ms limit s.outbox in
      and_then (claimed, record s { outbox = outbox; reads = s.reads + 1 })
        (λ messages s.
          and_then (deliver_all service messages no_progress s)
            (λ p s. (ok (batch_of messages p), s)))
