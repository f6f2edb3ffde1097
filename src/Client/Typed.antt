-- ===== src/Client/Typed.antt =====
-- core/src/client/subscriber.rs and core/src/structured/subscriber.rs: the typed subscribers over
-- the handle of Client.Subscriber. What successive awaited calls of `recv` of the handle yield is a
-- list, which ends where `recv` returns `None`; a receiver takes from it and returns the rest.
pub mod Laws
use mqtt_typed_client_next.Base.{
  ℕ, Option, none, some, List, [], ◌∷◌, Result, ok, err, if◌then◌else◌, Failure, panicked, failed,
}
use mqtt_typed_client_next.Base.Text.{Text, is_empty}
use mqtt_typed_client_next.Topic.TopicMatch.{TopicMatch, get_param}
use mqtt_typed_client_next.Client.Subscriber.{
  ReceiveEvent, message, decode_failed, lagged, Infallible,
}

-- `T` is the type of the payload, `D` that of the metadata, `DE` the error of the serializer.
pub record IncomingMessage (D T : Type 0) : Type 0 where
  pub topic : TopicMatch
  pub meta : D
  pub payload : T

pub record DecodeFailure (D E : Type 0) : Type 0 where
  pub topic : TopicMatch
  pub meta : D
  pub error : E

abbrev pub RawEvent : Type 0 → Type 0
RawEvent D = ReceiveEvent (TopicMatch × D × Text) Infallible

abbrev pub SubscriberEvent : Type 0 → Type 0 → Type 0 → Type 0
SubscriberEvent D T DE = ReceiveEvent (IncomingMessage D T) (DecodeFailure D DE)

-- `DE` is the error of the serializer, `PE` that of `FromStr`.
pub data MessageConversionError (DE PE : Type 0) : Type 0 where
  payload_deserialization_error : DE → MessageConversionError DE PE
  topic_parameter_missing : (param : Text) (position : ℕ) → MessageConversionError DE PE
  topic_parameter_parse_error : (param : Text) (source : PE) → MessageConversionError DE PE

module _ {D T DE : Type 0} (deserialize : Text → Result T DE) where
  abbrev pub decoded : TopicMatch → D → Result T DE → SubscriberEvent D T DE
  decoded topic meta (ok value) = message (record { topic = topic; meta = meta; payload = value })
  decoded topic meta (err error) =
      decode_failed (record { topic = topic; meta = meta; error = error })

  -- The loop: an empty payload is skipped.
  unfoldable pub receive : List (RawEvent D) → Option (SubscriberEvent D T DE) × List (RawEvent D)
  receive [] = (none, [])
  receive (message (topic, meta, bytes) ∷ rest) =
      let skipped = receive rest in
      if is_empty bytes then skipped else (some (decoded topic meta (deserialize bytes)), rest)
  receive (decode_failed never ∷ rest) = elim never [ ]
  receive (lagged missed ∷ rest) = (some (lagged missed), rest)

  -- The typed subscriber of a struct `M`, by its `from_mqtt_message`.
  module _ {M PE : Type 0}
      (from_mqtt_message : TopicMatch
        → D
        → T
        → Result M (Failure (MessageConversionError DE PE))) where
    abbrev pub Structured : Type 0
    Structured = ReceiveEvent M (Failure (MessageConversionError DE PE))

    abbrev converted : Result M (Failure (MessageConversionError DE PE)) → Structured
    converted (ok m) = message m
    converted (err e) = decode_failed e

    abbrev pub structured_of : SubscriberEvent D T DE → Structured
    structured_of (message m) = converted (from_mqtt_message m.topic m.meta m.payload)
    structured_of (decode_failed f) = decode_failed (failed (payload_deserialization_error f.error))
    structured_of (lagged missed) = lagged missed

    abbrev pub structured_event : Option (SubscriberEvent D T DE) → Option Structured
    structured_event none = none
    structured_event (some e) = some (structured_of e)

    unfoldable pub receive_structured : List (RawEvent D) → Option Structured × List (RawEvent D)
    receive_structured events = let (event, rest) = receive events in (structured_event event, rest)

-- `param.parse::<T>()` is the argument.
unfoldable pub extract_topic_parameter :
    {T DE PE : Type 0}
    → (Text → Result T PE)
    → TopicMatch
    → ℕ
    → Text
    → Result T (Failure (MessageConversionError DE PE))
extract_topic_parameter parse topic index param_name = elim (get_param topic index) [
  | err _ ↦ err panicked
  | ok none ↦ err (failed (topic_parameter_missing param_name index))
  | ok (some param) ↦ elim (parse param) [
    | ok value ↦ ok value
    | err source ↦ err (failed (topic_parameter_parse_error param_name source))
  ]
]
