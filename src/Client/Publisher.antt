-- ===== src/Client/Publisher.antt =====
-- core/src/client/publisher.rs and `get_publisher` of core/src/client/async_client.rs. The client of
-- the backend is the function `send`: `publish`, awaited, with its topic, payload and options.
pub mod Sent
use mqtt_typed_client_next.Base.{
  Bool, true, false, Option, List, [], ◌∷◌, Result, ok, err, ◌>>=◌, ◌>>◌, if◌then◌else◌,
}
use mqtt_typed_client_next.Base.Text.{Text}
use mqtt_typed_client_next.Topic.Qos.{QoS, at_least_once}
use mqtt_typed_client_next.Topic.Router.{TopicRouterError}
use mqtt_typed_client_next.Topic.Validation.{validate_mqtt_topic, Valid}

-- `PublishOptions` of the backend: `new` has the retain flag unset and `retained` sets it.
pub record PublishOptions : Type 0 where
  pub qos : QoS
  pub retained : Bool

-- The publisher without its client.
pub record MqttPublisher (F : Type 0) : Type 0 where
  pub topic : Text
  pub qos : QoS
  pub retain : Bool
  pub serializer : F

pub data PublishError (SE CE : Type 0) : Type 0 where
  serialization : SE → PublishError SE CE
  backend_client : CE → PublishError SE CE

unfoldable pub publish_options : QoS → Bool → PublishOptions
publish_options qos retain =
    let options : PublishOptions = record { qos = qos; retained = false } in
    if retain then record options { retained = true } else options

module _ {F : Type 0} where
  unfoldable pub new : F → Text → MqttPublisher F
  new serializer topic = record {
    topic = topic;
    qos = at_least_once;
    retain = false;
    serializer = serializer;
  }

  abbrev pub with_qos : MqttPublisher F → QoS → MqttPublisher F
  with_qos p qos = record p { qos = qos }

  abbrev pub with_retain : MqttPublisher F → Bool → MqttPublisher F
  with_retain p retain = record p { retain = retain }

  unfoldable pub get_publisher : F → Text → Result (MqttPublisher F) TopicRouterError
  unfolding new
  get_publisher serializer topic = validate_mqtt_topic topic >>= λ _. ok (new serializer topic)

-- `W` is the state of the backend.
module _ {F T SE CE W : Type 0} (serialize : F → T → Result Text SE)
    (send : Text → Text → PublishOptions → W → Result (Unit {0}) CE × W) where
  abbrev pub Outcome : Type 0
  Outcome = Result (Unit {0}) (PublishError SE CE) × W

  abbrev pub from_backend : Result (Unit {0}) CE × W → Outcome
  from_backend (ok u, w) = (ok u, w)
  from_backend (err e, w) = (err (backend_client e), w)

  unfoldable pub publish_with_retain_override : MqttPublisher F → T → Bool → W → Outcome
  unfolding publish_options
  publish_with_retain_override p value retain w = elim (serialize p.serializer value) [
    | err e ↦ (err (serialization e), w)
    | ok payload ↦ from_backend (send p.topic payload (publish_options p.qos retain) w)
  ]

  unfoldable pub publish : MqttPublisher F → T → W → Outcome
  unfolding publish_with_retain_override
  publish p value w = publish_with_retain_override p value p.retain w

  unfoldable pub publish_retain : MqttPublisher F → T → W → Outcome
  unfolding publish_with_retain_override
  publish_retain p value w = publish_with_retain_override p value true w

  unfoldable pub publish_normal : MqttPublisher F → T → W → Outcome
  unfolding publish_with_retain_override
  publish_normal p value w = publish_with_retain_override p value false w

  unfoldable pub clear_retained : MqttPublisher F → W → Outcome
  unfolding publish_options
  clear_retained p w = from_backend (send p.topic [] (publish_options p.qos true) w)

  -- The unstable `publish_with_options`, with options of the caller's.
  unfoldable pub publish_with_options : MqttPublisher F → T → PublishOptions → W → Outcome
  publish_with_options p value options w = elim (serialize p.serializer value) [
    | err e ↦ (err (serialization e), w)
    | ok payload ↦ from_backend (send p.topic payload options w)
  ]
