-- ===== src/Client/Manager.antt =====
-- core/src/routing/subscription_manager.rs, the actor's state; its handlers are in Handlers and
-- Requests, its loop in Run. Channels and the broker are an interface: `World` is what they do and
-- hold.
pub mod View
pub mod Pipe
pub mod Handlers
pub mod Requests
pub mod Run
pub mod Kept
pub mod Sound
pub mod Broker
use mqtt_typed_client_next.Base.{
  ℕ, ◌≤◌, ◌+◌, ◌%◌, ◌^◌, Bool, Option, none, some, List, ◌≡◌, refl, ◌⊎◌, inl, inr, [], ◌∷◌, nat_Eq,
}
use mqtt_typed_client_next.Base.Map
use mqtt_typed_client_next.Base.Text.{Text}
use mqtt_typed_client_next.Topic.Qos.{QoS, at_least_once}
use mqtt_typed_client_next.Topic.TopicMatch.{TopicMatch}
use mqtt_typed_client_next.Topic.PatternPath.{TopicPatternPath}
use mqtt_typed_client_next.Topic.Router.{SubscriptionId, TopicRouter, MissingSubscription}

-- `RawMeta` and `MessageMeta` of core/src/message_meta.rs, whose `v5` is always `None`.
pub record RawMeta : Type 0 where
  pub qos : QoS
  pub retain : Bool
  pub dup : Bool

pub data Mqtt5Meta : Type 0 where
  mqtt5_meta : Mqtt5Meta

pub record MessageMeta : Type 0 where
  pub qos : QoS
  pub retain : Bool
  pub dup : Bool
  pub v5 : Option Mqtt5Meta

abbrev pub new_meta : QoS → Bool → Bool → MessageMeta
new_meta qos retain dup = record { qos = qos; retain = retain; dup = dup; v5 = none }

abbrev pub RawMessageType : Type 0 → Type 0
RawMessageType D = Text × RawMeta × D

abbrev pub MessageType : Type 0 → Type 0
MessageType D = TopicMatch × MessageMeta × D

-- Durations are in milliseconds.
pub record SubscriptionConfig : Type 0 where
  pub qos : QoS
  pub channel_capacity : ℕ
  pub slow_send_timeout : ℕ
  pub max_parked_messages : ℕ

abbrev pub default_config : SubscriptionConfig
default_config = record {
  qos = at_least_once;
  channel_capacity = 500;
  slow_send_timeout = 2000;
  max_parked_messages = 100;
}

pub data SubscriptionError : Type 0 where
  channel_closed response_lost subscribe_failed resubscribe_failed : SubscriptionError

-- What `try_send` answers, and how a `send_timeout` ends.
pub data TrySend : Type 0 where
  sent full closed : TrySend

pub TrySend-cases :
    (answer : TrySend) → (answer ≡ sent) ⊎ ((answer ≡ full) ⊎ (answer ≡ TrySend.closed))
TrySend-cases sent = inl refl
TrySend-cases full = inr (inl refl)
TrySend-cases TrySend.closed = inr (inr refl)

pub data SendResult : Type 0 where
  delivered timeout closed : SendResult

-- A panic of the actor: a subscription that is missing, or a channel that cannot be made.
pub data ActorPanic : Type 0 where
  missing_subscription : MissingSubscription → ActorPanic
  invalid_capacity : ActorPanic

-- The channels of tokio and the client library. A Boolean answer says whether the call succeeded.
-- `channel` panics, `none`, for a capacity that is 0 or above `max_capacity`, the documented
-- `Semaphore::MAX_PERMITS`, and makes a channel for any other.
pub record Outside (M : Type 0) : Type 1 where
  pub World : Type 0
  pub Sender : Type 0
  pub Receiver : Type 0
  pub Unsubscriber : Type 0
  pub max_capacity : ℕ
  pub channel : ℕ → World → Option ((Sender × Receiver) × World)
  pub channel_opens :
      (capacity : ℕ) (w : World)
      → 1 ≤ capacity
      → capacity ≤ max_capacity
      → (opened : (Sender × Receiver) × World) × (channel capacity w ≡ some opened)
  pub try_send : Sender → M → World → TrySend × World
  pub subscribe : Text → QoS → World → Bool × World
  pub unsubscribe : Text → World → Bool × World

-- The shared drop counter of an entry is kept by the id of its subscription.
pub record SubscriberEntry (S : Type 0) : Type 0 where
  pub sender : S
  pub slow_send_timeout : ℕ
  pub max_parked_messages : ℕ

pub record ParkedState (S M : Type 0) : Type 0 where
  pub queue : List M
  pub entry : SubscriberEntry S

-- A `send_timeout` that has not ended.
abbrev pub SlowSend : Type 0 → Type 0 → Type 0
SlowSend S M = SubscriptionId × SubscriberEntry S × M

-- What has happened to messages so far: `offered` to a subscription whose pattern matched, and
-- `accepted` by its channel.
pub data Note (M : Type 0) : Type 0 where
  offered : SubscriptionId → M → Note M
  accepted : SubscriptionId → M → Note M

-- `C` is a pattern's match cache, `H` the cache of topic paths, and `U` the sending half of the
-- channel for unsubscriptions. The log, the newest note last, is not in the code.
pub record Actor (C H S U M W : Type 0) : Type 0 where
  pub topic_router : TopicRouter C (SubscriberEntry S)
  pub topic_path_cache : H
  pub unsubscribe_tx : U
  pub slow_send_futures : List (SlowSend S M)
  pub parked : List (SubscriptionId × ParkedState S M)
  pub dropped_messages : List (SubscriptionId × ℕ)
  pub world : W
  pub log : List (Note M)

abbrev pub u64_mod : ℕ
u64_mod = 2 ^ 64

abbrev pub or_zero : Option ℕ → ℕ
or_zero none = 0
or_zero (some n) = n

-- `fetch_add`.
abbrev pub record_drop : ℕ → SubscriptionId → List (SubscriptionId × ℕ) → List (SubscriptionId × ℕ)
record_drop count id drops = Map.insert id ((or_zero (Map.lookup id drops) + count) % u64_mod) drops
