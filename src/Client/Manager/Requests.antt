-- ===== src/Client/Manager/Requests.antt =====
-- The requests of `SubscriptionManagerActor` in core/src/routing/subscription_manager.rs that are
-- answered: `handle_subscribe` and `handle_resubscribe_all`.
use mqtt_typed_client_next.Base.{
  Bool, true, false, Option, none, some, List, map_err, [], ◌∷◌, Result, ok, err, ◌>>=◌,
  if◌then◌else◌, nat_Eq,
}
use mqtt_typed_client_next.Base.Map
use mqtt_typed_client_next.Base.Text.{Text, text_Eq}
use mqtt_typed_client_next.Topic.Qos.{QoS}
use mqtt_typed_client_next.Topic.Cache.{LruCache}
use mqtt_typed_client_next.Topic.TopicMatch.{TopicPath, TopicMatch}
use mqtt_typed_client_next.Topic.PatternPath.Binding.{mqtt_pattern}
use mqtt_typed_client_next.Topic.Router
use mqtt_typed_client_next.Topic.Router.{
  SubscriptionId, Subscriber, add_subscription, get_topics_for_resubscribe,
}
use mqtt_typed_client_next.Client.Subscriber
use mqtt_typed_client_next.Client.Manager.{
  MessageType, SubscriptionConfig, SubscriptionError, subscribe_failed, resubscribe_failed, Outside,
  ActorPanic, missing_subscription, invalid_capacity,
}
use mqtt_typed_client_next.Client.Manager.Handlers.{State, Entry, Pattern, handle_unsubscribe}

module _ {D : Type 0} (cache : LruCache Text TopicMatch) (paths : LruCache Text TopicPath)
    (o : Outside (MessageType D)) where
  open o use {World, Receiver, Unsubscriber}

  abbrev pub Handle : Type 0
  Handle = Subscriber.Subscriber Receiver Unsubscriber

  abbrev pub Response : Type 0
  Response = Result Handle SubscriptionError

  -- The answer of a subscription that stands in the router; `listens` says whether the requester
  -- still waits for it.
  unfoldable pub respond :
      Bool → SubscriptionId → Receiver → State cache paths o → State cache paths o × Response
  unfolding handle_unsubscribe
  respond listens id channel_rx a =
      let answer = ok (Subscriber.new channel_rx a.unsubscribe_tx id) in
      if listens then (a, answer) else (handle_unsubscribe cache paths o id a, answer)

  -- The broker has been asked, and has agreed or not.
  abbrev pub asked :
      Bool × World
      → Bool
      → SubscriptionId
      → Receiver
      → State cache paths o
      → State cache paths o × Response
  asked (true, w) listens id channel_rx a = respond listens id channel_rx (record a { world = w })
  asked (false, w) listens id channel_rx a = (
    record a { world = w; topic_router = (Router.unsubscribe a.topic_router id).1 },
    err subscribe_failed,
  )

  abbrev pub or_panic {ℓ} : {A : Type ℓ} → Option A → Result A ActorPanic
  or_panic none = err invalid_capacity
  or_panic (some opened) = ok opened

  unfoldable pub handle_subscribe :
      Pattern cache paths o
      → SubscriptionConfig
      → Bool
      → State cache paths o
      → Result (State cache paths o × Response) ActorPanic
  unfolding respond
  handle_subscribe topic config listens a =
      or_panic (o.channel config.channel_capacity a.world) >>= λ opened.
      let ((channel_tx, channel_rx), w) = opened in
      let entry : Entry cache paths o = record {
        sender = channel_tx;
        slow_send_timeout = config.slow_send_timeout;
        max_parked_messages = config.max_parked_messages;
      } in
      map_err missing_subscription (add_subscription a.topic_router topic config.qos entry)
      >>= λ added.
          let ((needs_subscribe, id), router) = added in
          let a' : State cache paths o = record a {
            topic_router = router;
            dropped_messages = Map.insert id 0 a.dropped_messages;
            world = w;
          } in
          ok (
            if needs_subscribe
            then asked (o.subscribe (mqtt_pattern topic) config.qos w) listens id channel_rx a'
            else respond listens id channel_rx a')

  -- The topics that could not be subscribed to again, and the world after.
  unfoldable pub resubscribe_each : List (Text × QoS) → World → List Text × World
  resubscribe_each [] w = ([], w)
  resubscribe_each ((mqtt_topic, qos) ∷ subscriptions) w =
      let (success, w') = o.subscribe mqtt_topic qos w in
      let (failed_topics, w'') = resubscribe_each subscriptions w' in
      (if success then failed_topics else mqtt_topic ∷ failed_topics, w'')

  abbrev pub all_done : List Text → Result (Unit {0}) SubscriptionError
  all_done [] = ok tt
  all_done (_ ∷ _) = err resubscribe_failed

  unfoldable pub handle_resubscribe_all :
      State cache paths o → State cache paths o × Result (Unit {0}) SubscriptionError
  unfolding resubscribe_each
  handle_resubscribe_all a =
      let (failed_topics, w) =
        resubscribe_each (get_topics_for_resubscribe a.topic_router) a.world in
      (record a { world = w }, all_done failed_topics)
