-- ===== src/Domain/Events.antt =====
-- src/ssa/domain/events.py, src/ssa/domain/enums.py: events, with the enumerations and the texts of their
-- members. The floating-point numbers are of a type `F`, the values of JSON objects of a type `V`.
use zero_hdsc.Base.{ℕ, String, ◌≡◌, refl, Option, none, some, if◌then◌else◌, str_eq}

pub data Actor : Type 0 where
  user agent system world : Actor

-- Actor.value
unfoldable pub actor_value : Actor → String
actor_value Actor.user = "user"
actor_value Actor.agent = "agent"
actor_value Actor.system = "system"
actor_value Actor.world = "world"

-- Actor(text); `none` is a ValueError
unfoldable pub actor_of : String → Option Actor
actor_of text =
    if str_eq text "user"
    then some Actor.user
    else if str_eq text "agent"
    then some Actor.agent
    else if str_eq text "system"
    then some Actor.system
    else if str_eq text "world"
    then some Actor.world
    else none

pub actor_of-actor_value : (member : Actor) → actor_of (actor_value member) ≡ some member
unfolding actor_of actor_value
actor_of-actor_value Actor.user = refl
actor_of-actor_value Actor.agent = refl
actor_of-actor_value Actor.system = refl
actor_of-actor_value Actor.world = refl

pub data SourceKind : Type 0 where
  user_observed agent_output model_inference system_derived world_observed : SourceKind

-- SourceKind.value
unfoldable pub source_kind_value : SourceKind → String
source_kind_value SourceKind.user_observed = "user_observed"
source_kind_value SourceKind.agent_output = "agent_output"
source_kind_value SourceKind.model_inference = "model_inference"
source_kind_value SourceKind.system_derived = "system_derived"
source_kind_value SourceKind.world_observed = "world_observed"

-- SourceKind(text); `none` is a ValueError
unfoldable pub source_kind_of : String → Option SourceKind
source_kind_of text =
    if str_eq text "user_observed"
    then some SourceKind.user_observed
    else if str_eq text "agent_output"
    then some SourceKind.agent_output
    else if str_eq text "model_inference"
    then some SourceKind.model_inference
    else if str_eq text "system_derived"
    then some SourceKind.system_derived
    else if str_eq text "world_observed"
    then some SourceKind.world_observed
    else none

pub source_kind_of-source_kind_value :
    (member : SourceKind) → source_kind_of (source_kind_value member) ≡ some member
unfolding source_kind_of source_kind_value
source_kind_of-source_kind_value SourceKind.user_observed = refl
source_kind_of-source_kind_value SourceKind.agent_output = refl
source_kind_of-source_kind_value SourceKind.model_inference = refl
source_kind_of-source_kind_value SourceKind.system_derived = refl
source_kind_of-source_kind_value SourceKind.world_observed = refl

pub record Event {ℓ} (V : Type ℓ) : Type ℓ where
  pub id : String
  pub correlation_id : String
  pub conversation_id : String
  pub actor : Actor
  pub event_type : String
  pub source_kind : SourceKind
  pub content : String
  pub parent_event_id : Option String
  pub channel : Option String
  pub channel_message_id : Option String
  pub content_hash : String
  pub metadata : V
  pub created_at_ms : ℕ
