-- ===== src/Client/Builder.antt =====
-- core/src/client/subscription_builder.rs, and the requests to the subscription manager that it
-- ends in (`SubscriptionManagerHandler` of core/src/routing/subscription_manager.rs).
use mqtt_typed_client_next.Base.{
  ℕ, Bool, true, Option, none, some, Result, ok, err, ◌>>=◌, if◌then◌else◌, ◌≡◌, refl, sym, ap,
  Failure, any, ok-injective, Bool-cases, inl, inr, Result-cases,
}
use mqtt_typed_client_next.Base.Text.{Text}
use mqtt_typed_client_next.Topic.Item.{TopicPatternError}
use mqtt_typed_client_next.Topic.Qos.{QoS}
use mqtt_typed_client_next.Topic.Cache
use mqtt_typed_client_next.Topic.Cache.{LruCache}
use mqtt_typed_client_next.Topic.TopicMatch.{TopicPath, TopicMatch}
use mqtt_typed_client_next.Topic.PatternPath.{TopicPatternPath}
use mqtt_typed_client_next.Topic.PatternPath.Binding
use mqtt_typed_client_next.Topic.PatternPath.Binding.{check_pattern_compatibility, is_param}
use mqtt_typed_client_next.Topic.PatternPath.Caching.{with_cache_strategy}
use mqtt_typed_client_next.Client.Manager.{
  MessageType, RawMessageType, SubscriptionConfig, default_config, SubscriptionError,
  channel_closed, response_lost, Outside,
}
use mqtt_typed_client_next.Client.Manager.Requests.{Response}
use mqtt_typed_client_next.Client.Manager.Run.{Command}

-- The client of the builder is the argument of `create_subscription`.
pub record SubscriptionBuilder (C : Type 0) : Type 0 where
  pub pattern : TopicPatternPath C
  pub config : SubscriptionConfig

module _ {C : Type 0} where
  abbrev pub new_builder : TopicPatternPath C → SubscriptionBuilder C
  new_builder default_pattern = record { pattern = default_pattern; config = default_config }

  unfoldable pub bind_parameter :
      SubscriptionBuilder C → Text → Text → Result (SubscriptionBuilder C) TopicPatternError
  bind_parameter b param_name value =
      Binding.bind_parameter b.pattern param_name value >>= λ pattern.
      ok (record b { pattern = pattern })

  abbrev pub with_qos : SubscriptionBuilder C → QoS → SubscriptionBuilder C
  with_qos b qos = record b { config = record b.config { qos = qos } }

  abbrev pub with_channel_capacity : SubscriptionBuilder C → ℕ → SubscriptionBuilder C
  with_channel_capacity b capacity = record b {
    config = record b.config { channel_capacity = capacity };
  }

  abbrev pub with_slow_send_timeout : SubscriptionBuilder C → ℕ → SubscriptionBuilder C
  with_slow_send_timeout b timeout = record b {
    config = record b.config { slow_send_timeout = timeout };
  }

  abbrev pub with_max_parked_messages : SubscriptionBuilder C → ℕ → SubscriptionBuilder C
  with_max_parked_messages b max = record b {
    config = record b.config { max_parked_messages = max };
  }

  -- The custom pattern is the outcome of the caller's conversion.
  unfoldable pub with_pattern :
      SubscriptionBuilder C
      → Result (TopicPatternPath C) TopicPatternError
      → Result (SubscriptionBuilder C) TopicPatternError
  unfolding check_pattern_compatibility
  with_pattern b custom_pattern = do
    new_pattern ← custom_pattern
    validated_pattern ← check_pattern_compatibility b.pattern new_pattern
    ok (record b { pattern = validated_pattern })

  rebuilt :
      (b b' : SubscriptionBuilder C) (param_name value : Text)
      → bind_parameter b param_name value ≡ ok b'
      → (b'.pattern.segments ≡ b.pattern.segments)
        × (b'.pattern.template_pattern ≡ b.pattern.template_pattern)
        × (b'.config ≡ b.config)
  unfolding bind_parameter Binding.bind_parameter
  rebuilt b b' param_name value run =
      elim (Bool-cases (any (is_param param_name) b.pattern.segments)) [
        | inl there ↦
            let e = ok-injective (rw (there, bind_parameter, Binding.bind_parameter) at run) in
            (
              sym (ap (λ x. x.pattern.segments) e),
              sym (ap (λ x. x.pattern.template_pattern) e),
              sym (ap (λ x. x.config) e),
            )
        | inr missing ↦ absurd (cc (rw (missing, bind_parameter, Binding.bind_parameter) at run))
      ]

  -- A parameter that was bound before `with_pattern` is forgotten: whatever the custom pattern, the
  -- outcome, a builder or an error, is the same as if it had never been bound.
  pub with_pattern-bind_parameter :
      (b b' : SubscriptionBuilder C) (param_name value : Text)
      (custom : Result (TopicPatternPath C) TopicPatternError)
      → bind_parameter b param_name value ≡ ok b'
      → with_pattern b' custom ≡ with_pattern b custom
  unfolding with_pattern check_pattern_compatibility
  with_pattern-bind_parameter b b' param_name value custom bound =
      let (same_segments, same_template, same_config) = rebuilt b b' param_name value bound in
      elim (Result-cases custom) [
        | inl (new_pattern, e) ↦
            rw
              (
                e, with_pattern, check_pattern_compatibility, same_segments, same_template,
                same_config,
              )
              refl
        | inr (failure, e) ↦ rw (e, with_pattern) refl
      ]

-- A pattern that cannot be built again is a panic.
unfoldable pub with_cache :
    (cache : LruCache Text TopicMatch)
    → SubscriptionBuilder cache.Cache
    → ℕ
    → Result (SubscriptionBuilder cache.Cache) (Failure TopicPatternError)
unfolding with_cache_strategy Cache.new
with_cache cache b capacity =
    with_cache_strategy cache b.pattern (Cache.new capacity) >>= λ pattern.
    ok (record b { pattern = pattern })

-- `send` says whether the channel of commands takes a command; an answer is what comes back over
-- its oneshot channel, if anything does.
module _ {D : Type 0} (cache : LruCache Text TopicMatch) (paths : LruCache Text TopicPath)
    (o : Outside (MessageType D)) (send : Command cache paths o → Bool) where
  abbrev pub answered :
      {A : Type 0} → Option (Result A SubscriptionError) → Result A SubscriptionError
  answered none = err response_lost
  answered (some answer) = answer

  abbrev pub create_subscription :
      SubscriptionBuilder cache.Cache → Option (Response cache paths o) → Response cache paths o
  create_subscription b answer =
      if send (Command.subscribe b.pattern b.config true)
      then answered answer
      else err channel_closed

  abbrev pub resubscribe_all :
      Option (Result (Unit {0}) SubscriptionError) → Result (Unit {0}) SubscriptionError
  resubscribe_all answer =
      if send Command.resubscribe_all then answered answer else err channel_closed

  -- The error of the source has one case, a closed channel.
  abbrev pub dispatch_incoming_message : RawMessageType D → Bool
  dispatch_incoming_message message = send (Command.send message)
