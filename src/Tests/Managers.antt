-- ===== src/Tests/Managers.antt =====
-- Runs of the subscription manager's actor.
use mqtt_typed_client_next.Base.{
  ℕ, zero, suc, ◌+◌, ◌<◌, ◌≤◌, ◌%◌, ◌&&◌, ◌==◌, nat_Eq, Bool, true, false, Option, All, any, leb,
  none, some, List, [], ◌∷◌, Result, ok, err, ◌≡◌, refl, arith, length, Sublistᴰ, if◌then◌else◌,
}
use mqtt_typed_client_next.Base.Map
use mqtt_typed_client_next.Base.Text.{Text, codes, text_Eq}
use mqtt_typed_client_next.Topic.Qos.{at_least_once}
use mqtt_typed_client_next.Topic.Cache.{LruCache}
use mqtt_typed_client_next.Topic.TopicMatch.{TopicPath, TopicMatch}
use mqtt_typed_client_next.Topic.Router.{usize_mod, get_topics_for_resubscribe, empty_router}
use mqtt_typed_client_next.Base.Text
use mqtt_typed_client_next.Topic.Router
use mqtt_typed_client_next.Topic.Matcher
use mqtt_typed_client_next.Topic.Matcher.Children
use mqtt_typed_client_next.Topic.TopicMatch
use mqtt_typed_client_next.Topic.PatternPath.{is_named}
use mqtt_typed_client_next.Topic.PatternPath.Validation.{Distinct}
use mqtt_typed_client_next.Topic.PatternPath.Binding
use mqtt_typed_client_next.Topic.PatternPath.Binding.{mqtt_pattern}
use mqtt_typed_client_next.Topic.PatternPath.Caching
use mqtt_typed_client_next.Topic.PatternPath.Matching
use mqtt_typed_client_next.Client.Manager.{
  new_meta, MessageType, SubscriptionConfig, default_config, Outside, ActorPanic, TrySend, sent,
  full, SendResult, delivered, timeout, u64_mod, or_zero,
}
use mqtt_typed_client_next.Client.Manager.Handlers.{State, Entry, offer}
use mqtt_typed_client_next.Client.Manager.Requests.{handle_resubscribe_all}
use mqtt_typed_client_next.Client.Manager.Run.{
  Command, Event, new_actor, turn, run, cleanup_active_subscriptions,
}
use mqtt_typed_client_next.Client.Manager.Broker.{
  ask_all, answer_of, Unsubscribed, handle_resubscribe_all-ask_all, cleanup_active_subscriptions-eq,
}
use mqtt_typed_client_next.Client.Manager.Pipe.{is_some, or_nil, offer_to}
use mqtt_typed_client_next.Client.Manager.View.{
  view, at_rest, sends_of, accepted_by, offered_to, queue_of,
}
use mqtt_typed_client_next.Client.Manager.View.Offer.{view-offer}
use mqtt_typed_client_next.Client.Manager.Sound.{IsSound}
use mqtt_typed_client_next.Client.Manager.Sound.Channels.{EventFits}
use mqtt_typed_client_next.Client.Manager.Sound.Turn.{
  Reachable, start, step, turn-IsSound, new_actor-IsSound, run-ok, reachable-IsSound,
  reachable_in_order, reachable_counted, reachable_parked,
}
use mqtt_typed_client_next.Tests.{keep, keep_all, pattern_with, items}

abbrev keep_paths : LruCache Text TopicPath
keep_paths = keep TopicPath

abbrev take_place : ℕ → TrySend × ℕ
take_place zero = (full, zero)
take_place (suc free) = (sent, free)

abbrev one_place : ℕ → ℕ → Option ((Unit {0} × Unit {0}) × ℕ)
one_place zero w = none
one_place (suc n) w = if leb (suc n) 1000 then some ((tt, tt), suc n) else none

one_place-opens :
    (n w : ℕ)
    → 1 ≤ n
    → n ≤ 1000
    → (opened : (Unit {0} × Unit {0}) × ℕ) × (one_place n w ≡ some opened)
one_place-opens zero w filled below = absurd (omega arith)
one_place-opens (suc n) w filled below = (((tt, tt), suc n), ground arith)

-- One channel, whose free places are the world, and a broker that agrees to everything.
abbrev one_channel : Outside (MessageType ℕ)
one_channel = record {
  World = ℕ;
  Sender = Unit {0};
  Receiver = Unit {0};
  Unsubscriber = Unit {0};
  max_capacity = 1000;
  channel = one_place;
  channel_opens = one_place-opens;
  try_send = λ s m w. take_place w;
  subscribe = λ t q w. (true, w);
  unsubscribe = λ t w. (true, w);
}

abbrev MyState : Type 0
MyState = State keep_all keep_paths one_channel

abbrev MyEvent : Type 0
MyEvent = Event keep_all keep_paths one_channel

abbrev fresh : MyState
fresh = new_actor keep_all keep_paths one_channel 10 tt 0

-- A channel with one place, and a queue of one message behind a slow send.
abbrev narrow : SubscriptionConfig
narrow = record default_config { channel_capacity = 1; max_parked_messages = 1 }

abbrev subscribe_a : MyEvent
subscribe_a = Event.command (Command.subscribe (pattern_with keep_all.Cache items) narrow true)

abbrev send_a : ℕ → MyEvent
send_a payload = Event.command (
    Command.send
      (codes "a/7", record { qos = at_least_once; retain = false; dup = false }, payload))

abbrev first_ends : SendResult → MyEvent
first_ends result = Event.slow_send_ended 0 result

-- The newest event first: a message is accepted, one becomes a slow send, one is queued, one is
-- dropped; then the slow send ends.
abbrev events : List MyEvent
events = first_ends delivered ∷ send_a 4 ∷ send_a 3 ∷ send_a 2 ∷ send_a 1 ∷ subscribe_a ∷ []

abbrev MyTurn : Type 0
MyTurn = Result (MyState × Bool) ActorPanic

abbrev state_of : MyTurn → MyState → MyState
state_of (ok (b, _)) a = b
state_of (err _) a = a

abbrev goes_on : MyTurn → Bool
goes_on (ok (_, go)) = go
goes_on (err _) = false

ok_parts :
    (outcome : MyTurn) (a b : MyState) (go : Bool)
    → outcome ≡ ok (b, go)
    → outcome ≡ ok (state_of outcome a, goes_on outcome)
ok_parts (ok (c, on)) a b go e = refl
ok_parts (err failure) a b go e = absurd (cc)

abbrev fed : MyEvent → MyState → MyState
fed event a = state_of (turn keep_all keep_paths one_channel event a) a

abbrev feed : List MyEvent → MyState
feed [] = fresh
feed (event ∷ earlier) = fed event (feed earlier)

fed_eq :
    (n : ℕ) (event : MyEvent) (a : MyState)
    → n + 1 < usize_mod
    → IsSound keep_all keep_paths one_channel n a
    → EventFits keep_all keep_paths one_channel event
    → turn keep_all keep_paths one_channel event a
      ≡ ok (fed event a, goes_on (turn keep_all keep_paths one_channel event a))
fed_eq n event a room s fits =
    let (b, go, n', e, s', h) =
      turn-IsSound keep_all keep_paths one_channel n event a room s fits in
    ok_parts (turn keep_all keep_paths one_channel event a) a b go e

feed_reaches :
    (past : List MyEvent)
    → length past < usize_mod
    → All (EventFits keep_all keep_paths one_channel) past
    → Reachable keep_all keep_paths one_channel fresh (length past) (feed past)
feed_reaches [] room fits = start
feed_reaches (event ∷ earlier) room (fits, others) =
    let r = feed_reaches earlier (omega arith) others in
    let (n, s, h) =
      reachable-IsSound keep_all keep_paths one_channel 10 tt 0 (length earlier) (feed earlier) r
        (omega arith) in
    step event (goes_on (turn keep_all keep_paths one_channel event (feed earlier))) r
      (fed_eq n event (feed earlier) (omega arith) s fits)

run-ok_example :
    (a : MyState) × (run keep_all keep_paths one_channel
        (subscribe_a ∷ send_a 1 ∷ send_a 2 ∷ first_ends timeout ∷ Event.shutdown_signal ∷ [])
        []
        fresh
      ≡ ok a)
run-ok_example =
    run-ok keep_all keep_paths one_channel 10 tt 0
      (subscribe_a ∷ send_a 1 ∷ send_a 2 ∷ first_ends timeout ∷ Event.shutdown_signal ∷ []) []
      (omega arith) (omega arith)

turn-IsSound_example :
    (a' : MyState) × (go : Bool) × (n' : ℕ) × (turn keep_all keep_paths one_channel subscribe_a
        fresh
      ≡ ok (a', go))
    × IsSound keep_all keep_paths one_channel n' a'
    × (n' ≤ 0 + 1)
turn-IsSound_example =
    turn-IsSound keep_all keep_paths one_channel 0 subscribe_a fresh (omega arith)
      (new_actor-IsSound keep_all keep_paths one_channel 10 tt 0) (omega arith)

abbrev seen : MyState
seen = feed events

reachable_in_order_example : Sublistᴰ (accepted_by 0 seen.log) (offered_to 0 seen.log)
reachable_in_order_example =
    reachable_in_order keep_all keep_paths one_channel 10 tt 0 6 seen
      (feed_reaches events (omega arith) (omega arith)) (omega arith) 0

-- The drop counter, the messages accepted and those that wait.
seen_run :
    ◌≡◌ {A = ℕ × ℕ × ℕ × ℕ}
      (
        or_zero (Map.lookup 0 seen.dropped_messages),
        length (accepted_by 0 seen.log),
        length (sends_of 0 seen.slow_send_futures),
        length (offered_to 0 seen.log),
      )
      (1, 2, 1, 4)
unfolding turn Map.lookup Router.get_subscribers Matcher.find_by_path Router.add_subscription
    Matcher.get_or_create_subscription_table Binding.resolve_bound_segments new_actor Children.child
    Router.max_qos TopicMatch.new Text.split Children.set_child Map.insert Caching.try_match
    Matching.try_match_internal sends_of accepted_by offered_to Map.remove
seen_run = refl

seen_registered : is_some (Map.lookup 0 seen.topic_router.subscriptions) ≡ true
unfolding turn Map.lookup Router.get_subscribers Matcher.find_by_path Router.add_subscription
    Matcher.get_or_create_subscription_table Binding.resolve_bound_segments new_actor Children.child
    Router.max_qos TopicMatch.new Text.split Children.set_child Map.insert Caching.try_match
    Matching.try_match_internal
seen_registered = refl

reachable_counted_example :
    (length (accepted_by 0 seen.log)
        + length (sends_of 0 seen.slow_send_futures)
        + length (or_nil (queue_of (Map.lookup 0 seen.parked)))
        + or_zero (Map.lookup 0 seen.dropped_messages))
      % u64_mod
    ≡ length (offered_to 0 seen.log) % u64_mod
reachable_counted_example =
    reachable_counted keep_all keep_paths one_channel 10 tt 0 6 seen
      (feed_reaches events (omega arith) (omega arith)) (omega arith) 0 seen_registered

reachable_parked_example :
    (length (sends_of 0 seen.slow_send_futures) ≤ 1)
    × (is_some (Map.lookup 0 seen.parked) ≡ (
        is_some (Map.lookup 0 seen.topic_router.subscriptions)
        && (length (sends_of 0 seen.slow_send_futures) == 1)))
reachable_parked_example =
    reachable_parked keep_all keep_paths one_channel 10 tt 0 6 seen
      (feed_reaches events (omega arith) (omega arith)) (omega arith) 0

abbrev some_entry : Entry keep_all keep_paths one_channel
some_entry = record { sender = tt; slow_send_timeout = 5; max_parked_messages = 1 }

abbrev some_message : MessageType ℕ
some_message = (
  record { topic = TopicMatch.new (codes "a/7"); params = []; named_params = [] },
  new_meta at_least_once false false,
  7,
)

view-offer_example :
    view keep_all keep_paths one_channel 0 (
      offer keep_all keep_paths one_channel 0 some_entry some_message
        (at_rest keep_all keep_paths one_channel seen))
    ≡ offer_to 1
        (one_channel.try_send tt some_message seen.world).0
        some_message
        (view keep_all keep_paths one_channel 0 (at_rest keep_all keep_paths one_channel seen))
view-offer_example =
    view-offer keep_all keep_paths one_channel some_message 0 some_entry
      (at_rest keep_all keep_paths one_channel seen) 0

handle_resubscribe_all-ask_all_example :
    handle_resubscribe_all keep_all keep_paths one_channel seen ≡ (
      record seen {
        world =
            (ask_all keep_all keep_paths one_channel
              (get_topics_for_resubscribe seen.topic_router)
              seen.world).1;
      },
      answer_of keep_all keep_paths one_channel
          (ask_all keep_all keep_paths one_channel
            (get_topics_for_resubscribe seen.topic_router)
            seen.world).0,
    )
handle_resubscribe_all-ask_all_example =
    handle_resubscribe_all-ask_all keep_all keep_paths one_channel seen

cleanup_active_subscriptions-eq_example :
    (topics : List Text) × Distinct topics
    × ((topic : Text)
        → is_named topic topics
          ≡ any (λ s. mqtt_pattern s.1.0 == topic) seen.topic_router.subscriptions)
    × Unsubscribed keep_all keep_paths one_channel seen.world topics
        (cleanup_active_subscriptions keep_all keep_paths one_channel
          ((0, delivered) ∷ [])
          seen).world
    × ((cleanup_active_subscriptions keep_all keep_paths one_channel
          ((0, delivered) ∷ [])
          seen).topic_router
        ≡ empty_router)
    × ((cleanup_active_subscriptions keep_all keep_paths one_channel
          ((0, delivered) ∷ [])
          seen).parked
        ≡ [])
cleanup_active_subscriptions-eq_example =
    cleanup_active_subscriptions-eq keep_all keep_paths one_channel ((0, delivered) ∷ []) seen
