-- ===== src/Client/Manager/Run.antt =====
-- `spawn`, `run` and the cleanup of core/src/routing/subscription_manager.rs. What `select!` takes
-- up is a list of events, and an answer to a requester is not kept.
use mqtt_typed_client_next.Base.{
  ℕ, Bool, true, false, none, some, List, [], ◌∷◌, Result, ok, ◌>>=◌, get_elem?, map_err,
}
use mqtt_typed_client_next.Base.Text.{Text}
use mqtt_typed_client_next.Topic.Cache.{LruCache}
use mqtt_typed_client_next.Topic.TopicMatch.{TopicPath, TopicMatch}
use mqtt_typed_client_next.Topic.Router.{
  SubscriptionId, get_topics_for_unsubscribe, cleanup, empty_router,
}
use mqtt_typed_client_next.Client.Manager.{
  RawMessageType, MessageType, SubscriptionConfig, SendResult, Outside, ActorPanic,
  missing_subscription,
}
use mqtt_typed_client_next.Client.Manager.Handlers.{
  State, Pattern, handle_unsubscribe, handle_slow_send, handle_send, ended, remove_at,
}
use mqtt_typed_client_next.Client.Manager.Requests.{handle_subscribe, handle_resubscribe_all}

module _ {D : Type 0} (cache : LruCache Text TopicMatch) (paths : LruCache Text TopicPath)
    (o : Outside (MessageType D)) where
  open o use {World, Sender, Unsubscriber}

  -- A request is answered at the end of its handler, if its sender still `listens`.
  pub data Command : Type 0 where
    subscribe : Pattern cache paths o → SubscriptionConfig → (listens : Bool) → Command
    send : RawMessageType D → Command
    resubscribe_all shutdown : Command

  -- The slow send at a place of the set has ended; a command; the end of the command channel; an
  -- id from the channel for unsubscriptions.
  pub data Event : Type 0 where
    shutdown_signal commands_closed : Event
    slow_send_ended : ℕ → SendResult → Event
    command : Command → Event
    unsubscribe_request : SubscriptionId → Event

  unfoldable pub new_actor : ℕ → Unsubscriber → World → State cache paths o
  new_actor topic_path_cache_capacity unsubscribe_tx w = record {
    topic_router = empty_router;
    topic_path_cache = paths.empty topic_path_cache_capacity;
    unsubscribe_tx = unsubscribe_tx;
    slow_send_futures = [];
    parked = [];
    dropped_messages = [];
    world = w;
    log = [];
  }

  unfoldable pub slow_send : ℕ → SendResult → State cache paths o → State cache paths o
  unfolding handle_slow_send
  slow_send k result a = elim (get_elem? a.slow_send_futures k) [
    | none ↦ a
    | some future ↦ handle_slow_send cache paths o future.0 result (
        ended cache paths o future result
          (record a { slow_send_futures = remove_at cache paths o a.slow_send_futures k }))
  ]

  -- A turn of the loop: the state after it, and whether the loop goes on.
  abbrev pub on_command :
      Command → State cache paths o → Result (State cache paths o × Bool) ActorPanic
  on_command (subscribe topic config listens) a =
      handle_subscribe cache paths o topic config listens a >>= λ r. ok (r.0, true)
  on_command (send message) a =
      map_err missing_subscription (handle_send cache paths o message a) >>= λ a'. ok (a', true)
  on_command resubscribe_all a = ok ((handle_resubscribe_all cache paths o a).0, true)
  on_command shutdown a = ok (a, false)

  unfoldable pub turn : Event → State cache paths o → Result (State cache paths o × Bool) ActorPanic
  unfolding slow_send handle_unsubscribe handle_send handle_subscribe handle_resubscribe_all
  turn shutdown_signal a = ok (a, false)
  turn commands_closed a = ok (a, false)
  turn (slow_send_ended k result) a = ok (slow_send k result a, true)
  turn (command c) a = on_command c a
  turn (unsubscribe_request id) a = ok (handle_unsubscribe cache paths o id a, true)

  unfoldable pub unsubscribe_topics : List Text → World → World
  unsubscribe_topics [] w = w
  unsubscribe_topics (mqtt_topic ∷ topics) w =
      unsubscribe_topics topics (o.unsubscribe mqtt_topic w).1

  -- The slow sends that end within the grace of half a second.
  unfoldable pub process_slow_sends :
      List (ℕ × SendResult) → State cache paths o → State cache paths o
  unfolding slow_send
  process_slow_sends [] a = a
  process_slow_sends ((k, result) ∷ rest) a = process_slow_sends rest (slow_send k result a)

  unfoldable pub cleanup_active_subscriptions :
      List (ℕ × SendResult) → State cache paths o → State cache paths o
  unfolding unsubscribe_topics process_slow_sends
  cleanup_active_subscriptions grace a =
      let w = unsubscribe_topics (get_topics_for_unsubscribe a.topic_router) a.world in
      let a' = process_slow_sends grace (record a { parked = []; world = w }) in
      record a' { topic_router = cleanup a'.topic_router }

  -- The events in order; those behind the one that ends the loop are not taken up.
  unfoldable pub run :
      List Event
      → List (ℕ × SendResult)
      → State cache paths o
      → Result (State cache paths o) ActorPanic
  unfolding turn cleanup_active_subscriptions
  run [] grace a = ok a
  run (event ∷ events) grace a = turn event a >>= λ r. elim r.1 [
    | true ↦ run events grace r.0
    | false ↦ ok (cleanup_active_subscriptions grace r.0)
  ]
