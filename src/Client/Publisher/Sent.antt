-- ===== src/Client/Publisher/Sent.antt =====
-- What a publisher of core/src/client/publisher.rs hands to the backend over a run of calls.
use mqtt_typed_client_next.Base.{
  ◌≤◌, Bool, true, false, List, [], ◌∷◌, ◌++◌, Result, ok, err, ◌≡◌, refl, sym, ap, ◌∙◌, any,
  length, Result-cases, inl, inr, append_assoc, append-nil, >>=-eq-ok, ok-injective,
}
use mqtt_typed_client_next.Base.Text.{Text}
use mqtt_typed_client_next.Topic.Qos.{QoS}
use mqtt_typed_client_next.Topic.Validation.{validate_mqtt_topic, is_illegal, valid, Valid}
use mqtt_typed_client_next.Topic.Validation.Laws.{validate_mqtt_topic-ok}
use mqtt_typed_client_next.Client.Publisher.{
  PublishOptions, MqttPublisher, publish_options, new, with_qos, with_retain, get_publisher,
  Outcome, publish_with_retain_override, publish, publish_retain, publish_normal, clear_retained,
  from_backend,
}

-- A call of the publisher.
pub data PublisherCall (T : Type 0) : Type 0 where
  publishing publishing_retained publishing_normal : T → PublisherCall T
  clearing : PublisherCall T

-- What the backend is handed: the topic, the payload and the options.
abbrev pub Handed : Type 0
Handed = Text × Text × PublishOptions

module _ {F T SE CE : Type 0} (serialize : F → T → Result Text SE)
    (answer : Text → Text → PublishOptions → List Handed → Result (Unit {0}) CE) where
  -- The backend keeps what it is handed, and answers as it likes.
  abbrev pub logging :
      Text → Text → PublishOptions → List Handed → Result (Unit {0}) CE × List Handed
  logging topic payload options log =
      (answer topic payload options log, log ++ (topic, payload, options) ∷ [])

  unfoldable pub call : MqttPublisher F → PublisherCall T → List Handed → Outcome serialize logging
  unfolding publish publish_retain publish_normal clear_retained
  call p (publishing value) log = publish serialize logging p value log
  call p (publishing_retained value) log = publish_retain serialize logging p value log
  call p (publishing_normal value) log = publish_normal serialize logging p value log
  call p clearing log = clear_retained serialize logging p log

  unfoldable pub calls : MqttPublisher F → List (PublisherCall T) → List Handed → List Handed
  unfolding call
  calls p [] log = log
  calls p (c ∷ cs) log = calls p cs (call p c log).1

  abbrev handed_over : Text → QoS → Bool → Result Text SE → List Handed
  handed_over topic qos retained (err e) = []
  handed_over topic qos retained (ok payload) =
      (topic, payload, record { qos = qos; retained = retained }) ∷ []

  -- What one call should hand over, for a topic, a level, a retain flag and a serializer.
  abbrev pub handed : Text → QoS → Bool → F → PublisherCall T → List Handed
  handed topic qos retain f (publishing value) = handed_over topic qos retain (serialize f value)
  handed topic qos retain f (publishing_retained value) =
      handed_over topic qos true (serialize f value)
  handed topic qos retain f (publishing_normal value) =
      handed_over topic qos false (serialize f value)
  handed topic qos retain f clearing = (topic, [], record { qos = qos; retained = true }) ∷ []

  abbrev pub all_handed : Text → QoS → Bool → F → List (PublisherCall T) → List Handed
  all_handed topic qos retain f [] = []
  all_handed topic qos retain f (c ∷ cs) =
      handed topic qos retain f c ++ all_handed topic qos retain f cs

  from_backend-log :
      (r : Result (Unit {0}) CE) (log : List Handed)
      → (from_backend serialize logging (r, log)).1 ≡ log
  from_backend-log (ok u) log = refl
  from_backend-log (err e) log = refl

  options_are :
      (qos : QoS) (retain : Bool)
      → publish_options qos retain ≡ record { qos = qos; retained = retain }
  unfolding publish_options
  options_are qos true = refl
  options_are qos false = refl

  override-log :
      (p : MqttPublisher F) (value : T) (retain : Bool) (log : List Handed)
      → (publish_with_retain_override serialize logging p value retain log).1
        ≡ log ++ handed_over p.topic p.qos retain (serialize p.serializer value)
  unfolding publish_with_retain_override
  override-log p value retain log = elim (Result-cases (serialize p.serializer value)) [
    | inl (payload, e) ↦
        rw (publish_with_retain_override, e, options_are p.qos retain) (from_backend-log _ _)
    | inr (failure, e) ↦ rw (publish_with_retain_override, e) (sym (append-nil log))
  ]

  call-log :
      (p : MqttPublisher F) (c : PublisherCall T) (log : List Handed)
      → (call p c log).1 ≡ log ++ handed p.topic p.qos p.retain p.serializer c
  unfolding call publish publish_retain publish_normal clear_retained
  call-log p (publishing value) log = override-log p value p.retain log
  call-log p (publishing_retained value) log = override-log p value true log
  call-log p (publishing_normal value) log = override-log p value false log
  call-log p clearing log = rw (options_are p.qos true) (from_backend-log _ _)

  calls-log :
      (p : MqttPublisher F) (cs : List (PublisherCall T)) (log : List Handed)
      → calls p cs log ≡ log ++ all_handed p.topic p.qos p.retain p.serializer cs
  unfolding calls
  calls-log p [] log = sym (append-nil log)
  calls-log p (c ∷ cs) log =
      calls-log p cs (call p c log).1
      ∙ ap (λ (l : List Handed). l ++ all_handed p.topic p.qos p.retain p.serializer cs)
          (call-log p c log)
      ∙ append_assoc log (handed p.topic p.qos p.retain p.serializer c)
          (all_handed p.topic p.qos p.retain p.serializer cs)

  made :
      (f : F) (topic : Text) (p : MqttPublisher F)
      → get_publisher f topic ≡ ok p
      → (validate_mqtt_topic topic ≡ ok valid) × (p ≡ new f topic)
  unfolding get_publisher
  made f topic p h =
      let (v, accepted, e) = >>=-eq-ok (validate_mqtt_topic topic) _ h in
      (all_valid v accepted, sym (ok-injective e))
    where
      all_valid :
          (v : Valid) → validate_mqtt_topic topic ≡ ok v → validate_mqtt_topic topic ≡ ok valid
      all_valid valid h = h

  -- A publisher that the client gives out has a topic of 1 to 65535 bytes without a null byte, `#`
  -- or `+`. Whatever the backend answers, a run of calls hands it for each call in turn at most one
  -- message, with that topic and the level that is set: for a value that does not serialize none,
  -- for any other its bytes, retained as the flag that is set says, or as the call does; and an
  -- empty retained message for a call that clears.
  pub calls-get_publisher :
      (f : F) (topic : Text) (p : MqttPublisher F) (qos : QoS) (retain : Bool)
      (cs : List (PublisherCall T)) (log : List Handed)
      → get_publisher f topic ≡ ok p
      → (1 ≤ length topic)
        × (length topic ≤ 65535)
        × (any is_illegal topic ≡ false)
        × (calls (with_retain (with_qos p qos) retain) cs log
            ≡ log ++ all_handed topic qos retain f cs)
  unfolding new
  calls-get_publisher f topic p qos retain cs log h =
      let (accepted, e) = made f topic p h in
      let (some_byte, short, legal) = (validate_mqtt_topic-ok topic).0 accepted in
      (
        some_byte,
        short,
        legal,
        rw e (calls-log (with_retain (with_qos (new f topic) qos) retain) cs log),
      )
