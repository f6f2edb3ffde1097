-- ===== src/Client/Typed/Laws.antt =====
-- What the typed subscribers of core/src yield over a run.
use mqtt_typed_client_next.Base.{
  ℕ, zero, suc, Option, none, some, List, [], ◌∷◌, length, Result, ok, err, Result-cases, failed,
  ◌≡◌, refl, arith, ap, sym, ◌∙◌, Bool-cases, inl, inr, Failure, if◌then◌else◌, ◌≤◌, ◌<◌, ◌⊎◌, map,
}
use mqtt_typed_client_next.Base.Text.{Text, is_empty}
use mqtt_typed_client_next.Topic.TopicMatch.{TopicMatch}
use mqtt_typed_client_next.Client.Subscriber.{ReceiveEvent, message, decode_failed, lagged}
use mqtt_typed_client_next.Client.Typed.{
  RawEvent, SubscriberEvent, MessageConversionError, payload_deserialization_error, receive,
  receive_structured, decoded, structured_of, structured_event, Structured,
}

-- The event of a call, if there is one, and those of later calls.
abbrev pub yielded {ℓ} : {A : Type ℓ} → Option A → List A → List A
yielded none later = []
yielded (some e) later = e ∷ later

module _ {D T DE : Type 0} (deserialize : Text → Result T DE) where
  -- What a handle's events mean for the typed subscriber: a message with an empty payload nothing,
  -- any other its decoded payload or the error, a notice of lag itself.
  abbrev pub meaning : List (RawEvent D) → List (SubscriberEvent D T DE)
  meaning [] = []
  meaning (message (topic, meta, bytes) ∷ rest) =
      let others = meaning rest in
      if is_empty bytes then others else decoded deserialize topic meta (deserialize bytes) ∷ others
  meaning (decode_failed never ∷ rest) = elim never [ ]
  meaning (lagged missed ∷ rest) = lagged missed ∷ meaning rest

  -- `receive` called `n` times, or until it returns `None`.
  unfoldable pub received : ℕ → List (RawEvent D) → List (SubscriberEvent D T DE)
  unfolding receive
  received zero events = []
  received (suc n) events =
      let (event, rest) = receive deserialize events in yielded event (received n rest)

  abbrev Stops : List (RawEvent D) → Type 0
  Stops events = (receive deserialize events ≡ (none, [])) × (meaning events ≡ [])

  abbrev Yields : List (RawEvent D) → Type 0
  Yields events =
      (e : SubscriberEvent D T DE) × (rest : List (RawEvent D)) × (receive deserialize events
        ≡ (some e, rest))
      × (meaning events ≡ e ∷ meaning rest)
      × (length rest < length events)

  -- A call yields the first event that means something, or finds none.
  receive_cases : (events : List (RawEvent D)) → Stops events ⊎ Yields events
  unfolding receive
  receive_cases [] = inl (refl, refl)
  receive_cases (message (topic, meta, bytes) ∷ rest) = elim (Bool-cases (is_empty bytes)) [
    | inr full ↦ inr (
      decoded deserialize topic meta (deserialize bytes),
      rest,
      rw full refl,
      rw full refl,
      omega arith,
    )
    | inl empty ↦ elim (receive_cases rest) [
      | inl (stops, nothing) ↦ inl (rw empty stops, rw empty nothing)
      | inr (e, more, yields, same, fewer) ↦
          inr (e, more, rw empty yields, rw empty same, omega arith)
    ]
  ]
  receive_cases (decode_failed never ∷ rest) = elim never [ ]
  receive_cases (lagged missed ∷ rest) = inr (lagged missed, rest, refl, refl, omega arith)

  -- As many calls as the handle has events yield the meaning of these events, in their order.
  pub received-meaning :
      (n : ℕ) (events : List (RawEvent D)) → length events ≤ n → received n events ≡ meaning events
  unfolding received
  received-meaning zero [] h = refl
  received-meaning zero (e ∷ events) h = absurd (omega arith)
  received-meaning (suc n) events h = elim (receive_cases events) [
    | inl (stops, nothing) ↦ ap (λ r. yielded r.0 (received n r.1)) stops ∙ sym nothing
    | inr (e, rest, yields, same, fewer) ↦
        ap (λ r. yielded r.0 (received n r.1)) yields
        ∙ ap (λ (r : List (SubscriberEvent D T DE)). e ∷ r) (received-meaning n rest (omega arith))
        ∙ sym same
  ]

  module _ {M PE : Type 0}
      (from_mqtt_message : TopicMatch
        → D
        → T
        → Result M (Failure (MessageConversionError DE PE))) where
    abbrev pub conversion :
        Result M (Failure (MessageConversionError DE PE))
        → ReceiveEvent M (Failure (MessageConversionError DE PE))
    conversion (ok m) = message m
    conversion (err e) = decode_failed e

    -- What a message with such a decoded payload means: an error of the serializer, the error of
    -- the conversion, or the struct.
    abbrev pub meaning_of :
        TopicMatch → D → Result T DE → ReceiveEvent M (Failure (MessageConversionError DE PE))
    meaning_of topic meta (err e) = decode_failed (failed (payload_deserialization_error e))
    meaning_of topic meta (ok value) = conversion (from_mqtt_message topic meta value)

    -- What a handle's events mean for the structured subscriber, in their order.
    abbrev pub structured_meaning :
        List (RawEvent D) → List (ReceiveEvent M (Failure (MessageConversionError DE PE)))
    structured_meaning [] = []
    structured_meaning (message (topic, meta, bytes) ∷ rest) =
        let others = structured_meaning rest in
        if is_empty bytes then others else meaning_of topic meta (deserialize bytes) ∷ others
    structured_meaning (decode_failed never ∷ rest) = elim never [ ]
    structured_meaning (lagged missed ∷ rest) = lagged missed ∷ structured_meaning rest

    structured_of-meaning_of :
        (topic : TopicMatch) (meta : D) (payload : Result T DE)
        → structured_of deserialize from_mqtt_message (decoded deserialize topic meta payload)
          ≡ meaning_of topic meta payload
    structured_of-meaning_of topic meta (err e) = refl
    structured_of-meaning_of topic meta (ok value) =
        elim (Result-cases (from_mqtt_message topic meta value)) [
          | inl (m, e) ↦ rw e refl
          | inr (failure, e) ↦ rw e refl
        ]

    structured_meaning_lem :
        (events : List (RawEvent D))
        → map (structured_of deserialize from_mqtt_message) (meaning events)
          ≡ structured_meaning events
    structured_meaning_lem [] = refl
    structured_meaning_lem (message (topic, meta, bytes) ∷ rest) =
        let others = structured_meaning_lem rest in
        elim (Bool-cases (is_empty bytes)) [
          | inl empty ↦ rw empty others
          | inr full ↦
              rw (full, structured_of-meaning_of topic meta (deserialize bytes), others) refl
        ]
    structured_meaning_lem (decode_failed never ∷ rest) = elim never [ ]
    structured_meaning_lem (lagged missed ∷ rest) =
        ap (λ (r : List (Structured deserialize from_mqtt_message)). lagged missed ∷ r)
          (structured_meaning_lem rest)

    unfoldable pub received_structured :
        ℕ → List (RawEvent D) → List (Structured deserialize from_mqtt_message)
    unfolding receive_structured
    received_structured zero events = []
    received_structured (suc n) events =
        let (event, rest) = receive_structured deserialize from_mqtt_message events in
        yielded event (received_structured n rest)

    -- The calls convert what the typed subscriber yields.
    received_structured-map :
        (n : ℕ) (events : List (RawEvent D))
        → length events ≤ n
        → received_structured n events
          ≡ map (structured_of deserialize from_mqtt_message) (meaning events)
    unfolding received_structured receive_structured
    received_structured-map zero [] h = refl
    received_structured-map zero (e ∷ events) h = absurd (omega arith)
    received_structured-map (suc n) events h = elim (receive_cases events) [
      | inl (stops, nothing) ↦
          ap next stops ∙ sym (ap (map (structured_of deserialize from_mqtt_message)) nothing)
      | inr (e, rest, yields, same, fewer) ↦
          ap next yields
          ∙ ap
              (λ (r : List (Structured deserialize from_mqtt_message)).
                structured_of deserialize from_mqtt_message e ∷ r)
              (received_structured-map n rest (omega arith))
          ∙ sym (ap (map (structured_of deserialize from_mqtt_message)) same)
    ]
      where
        next :
            Option (SubscriberEvent D T DE) × List (RawEvent D)
            → List (Structured deserialize from_mqtt_message)
        next (event, rest) =
            yielded (structured_event deserialize from_mqtt_message event)
              (received_structured n rest)

    -- As many calls of a structured subscriber as its handle has events yield, in their order, one
    -- event for each of these but the messages with an empty payload: the struct or the error that
    -- the message is converted to, the error of the serializer, or the notice of lag.
    pub received_structured-meaning :
        (n : ℕ) (events : List (RawEvent D))
        → length events ≤ n
        → received_structured n events ≡ structured_meaning events
    received_structured-meaning n events h =
        received_structured-map n events h ∙ structured_meaning_lem events
