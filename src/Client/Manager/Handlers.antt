-- ===== src/Client/Manager/Handlers.antt =====
-- The handlers of `SubscriptionManagerActor` in core/src/routing/subscription_manager.rs.
use mqtt_typed_client_next.Base.{
  ℕ, ◌+◌, zero, suc, Bool, none, some, List, [], ◌∷◌, ◌++◌, Result, ok, err, ◌>>=◌, if◌then◌else◌,
  leb, length, nat_Eq,
}
use mqtt_typed_client_next.Base.Map
use mqtt_typed_client_next.Base.Text.{Text, text_Eq}
use mqtt_typed_client_next.Topic.Qos.{QoS}
use mqtt_typed_client_next.Topic.Cache.{LruCache}
use mqtt_typed_client_next.Topic.TopicMatch.{TopicPath, TopicMatch, texts, new}
use mqtt_typed_client_next.Topic.PatternPath.{TopicPatternPath}
use mqtt_typed_client_next.Topic.PatternPath.Binding.{mqtt_pattern}
use mqtt_typed_client_next.Topic.PatternPath.Caching.{try_match}
use mqtt_typed_client_next.Topic.Router
use mqtt_typed_client_next.Topic.Router.{
  SubscriptionId, TopicRouter, Registered, Subscriber, MissingSubscription, get_subscribers,
  add_subscription, get_topics_for_unsubscribe, get_topics_for_resubscribe, cleanup,
}
use mqtt_typed_client_next.Client.Manager.{
  MessageMeta, new_meta, RawMessageType, MessageType, TrySend, sent, full, SendResult, delivered,
  timeout, Outside, SubscriberEntry, ParkedState, SlowSend, Note, offered, accepted, Actor,
  record_drop,
}

module _ {D : Type 0} (cache : LruCache Text TopicMatch) (paths : LruCache Text TopicPath)
    (o : Outside (MessageType D)) where
  open o use {World, Sender, Receiver, Unsubscriber}

  abbrev pub Message : Type 0
  Message = MessageType D

  abbrev pub Entry : Type 0
  Entry = SubscriberEntry Sender

  abbrev pub Pattern : Type 0
  Pattern = TopicPatternPath cache.Cache

  abbrev pub State : Type 0
  State = Actor cache.Cache paths.Cache Sender Unsubscriber Message World

  -- What `handle_unsubscribe` does after the queue is gone.
  abbrev told : Bool × Pattern → World → World
  told (topic_empty, topic_pattern) w =
      if topic_empty then (o.unsubscribe (mqtt_pattern topic_pattern) w).1 else w

  abbrev told_if : {E : Type 0} → Result (Bool × Pattern) E → World → World
  told_if (ok outcome) w = told outcome w
  told_if (err _) w = w

  unfoldable pub handle_unsubscribe : SubscriptionId → State → State
  handle_unsubscribe id a =
      let (outcome, router) = Router.unsubscribe a.topic_router id in
      record a {
        parked = Map.remove id a.parked;
        topic_router = router;
        world = told_if outcome a.world;
      }

  abbrev pub push_slow_send : Entry → SubscriptionId → Message → State → State
  push_slow_send entry id msg a = record a {
    slow_send_futures = a.slow_send_futures ++ (id, entry, msg) ∷ [];
  }

  abbrev pub note : Note Message → State → State
  note n a = record a { log = a.log ++ n ∷ [] }

  abbrev pub park : SubscriptionId → Entry → List Message → State → State
  park id entry queue a = record a {
    parked = Map.insert id (record { queue = queue; entry = entry }) a.parked;
  }

  abbrev pub dropping : ℕ → SubscriptionId → State → State
  dropping count id a = record a { dropped_messages = record_drop count id a.dropped_messages }

  -- The loop of `drain_parked`, with the queue taken out of `parked`.
  unfoldable pub drain : SubscriptionId → Entry → List Message → State → State
  unfolding handle_unsubscribe
  drain id entry [] a = a
  drain id entry (msg ∷ queue) a =
      let (answer, w) = o.try_send entry.sender msg a.world in
      elim answer [
        | sent ↦ drain id entry queue (note (accepted id msg) (record a { world = w }))
        | full ↦ push_slow_send entry id msg (park id entry queue (record a { world = w }))
        | TrySend.closed ↦
            handle_unsubscribe id (dropping (1 + length queue) id (record a { world = w }))
      ]

  unfoldable pub drain_parked : SubscriptionId → State → State
  unfolding drain
  drain_parked id a = elim (Map.lookup id a.parked) [
    | none ↦ a
    | some state ↦ drain id state.entry state.queue (record a { parked = Map.remove id a.parked })
  ]

  -- The result of the slow send of a subscription that is parked.
  abbrev pub on_parked : SubscriptionId → ParkedState Sender Message → SendResult → State → State
  on_parked id state delivered a = drain_parked id a
  on_parked id state timeout a = drain_parked id (dropping 1 id a)
  on_parked id state SendResult.closed a =
      handle_unsubscribe id
        (dropping (1 + length state.queue) id (record a { parked = Map.remove id a.parked }))

  unfoldable pub handle_slow_send : SubscriptionId → SendResult → State → State
  unfolding drain_parked handle_unsubscribe
  handle_slow_send id result a = elim (Map.lookup id a.parked) [
    | none ↦ a
    | some state ↦ on_parked id state result a
  ]

  -- The loop's variables in `handle_send`.
  pub record Sending : Type 0 where
    pub actor : State
    pub closed_subscribers : List SubscriptionId
    pub new_parks : List (SlowSend Sender Message)

  abbrev pub on_actor : (State → State) → Sending → Sending
  on_actor f st = record st { actor = f st.actor }

  -- A message for a subscription that is not parked.
  abbrev pub hand_over : SubscriptionId → Entry → Message → TrySend × World → Sending → Sending
  hand_over id entry msg (sent, w) st =
      on_actor (λ a. note (accepted id msg) (record a { world = w })) st
  hand_over id entry msg (full, w) st = record (on_actor (λ a. record a { world = w }) st) {
    new_parks = st.new_parks ++ (id, entry, msg) ∷ [];
  }
  hand_over id entry msg (TrySend.closed, w) st =
      record (on_actor (λ a. record a { world = w }) st) {
        closed_subscribers = st.closed_subscribers ++ id ∷ [];
      }

  abbrev pub enqueue : SubscriptionId → ℕ → ParkedState Sender Message → Message → State → State
  enqueue id max_parked_messages state msg a =
      if leb max_parked_messages (length state.queue)
      then dropping 1 id a
      else park id state.entry (state.queue ++ msg ∷ []) a

  unfoldable pub offer : SubscriptionId → Entry → Message → Sending → Sending
  offer id entry msg st =
      let st' = on_actor (note (offered id msg)) st in
      elim (Map.lookup id st.actor.parked) [
        | some state ↦ on_actor (enqueue id entry.max_parked_messages state msg) st'
        | none ↦ hand_over id entry msg (o.try_send entry.sender msg st.actor.world) st'
      ]

  -- A match may change the cache in the stored pattern.
  abbrev pub store_pattern : SubscriptionId → Pattern → QoS → State → State
  store_pattern id pattern qos a = record a {
    topic_router = record a.topic_router {
      subscriptions = Map.insert id (pattern, qos) a.topic_router.subscriptions;
    };
  }

  unfoldable pub send_one :
      TopicPath → MessageMeta → D → Subscriber cache.Cache Entry → Sending → Sending
  unfolding offer
  send_one topic_path meta payload (id, (topic_pattern, qos), entry) st =
      let (matched, pattern) = try_match cache topic_pattern topic_path in
      let st' = on_actor (store_pattern id pattern qos) st in
      elim matched [
        | err _ ↦ st'
        | ok topic_match ↦ offer id entry (topic_match, meta, payload) st'
      ]

  unfoldable pub send_loop :
      TopicPath → MessageMeta → D → List (Subscriber cache.Cache Entry) → Sending → Sending
  unfolding send_one
  send_loop topic_path meta payload [] st = st
  send_loop topic_path meta payload (s ∷ subscribers) st =
      send_loop topic_path meta payload subscribers (send_one topic_path meta payload s st)

  unfoldable pub start_parks : List (SlowSend Sender Message) → State → State
  start_parks [] a = a
  start_parks ((id, entry, msg) ∷ new_parks) a =
      start_parks new_parks (push_slow_send entry id msg (park id entry [] a))

  unfoldable pub unsubscribe_all : List SubscriptionId → State → State
  unfolding handle_unsubscribe
  unsubscribe_all [] a = a
  unsubscribe_all (id ∷ ids) a = unsubscribe_all ids (handle_unsubscribe id a)

  -- The cache of topic paths.
  unfoldable pub topic_path_of : Text → paths.Cache → TopicPath × paths.Cache
  topic_path_of topic c =
      let (hit, c') = paths.get topic c in
      elim hit [ some path ↦ (path, c') | none ↦ (new topic, paths.put topic (new topic) c') ]

  abbrev pub finish_send : Sending → State
  finish_send st = unsubscribe_all st.closed_subscribers (start_parks st.new_parks st.actor)

  unfoldable pub handle_send : RawMessageType D → State → Result State MissingSubscription
  unfolding topic_path_of send_loop unsubscribe_all start_parks
  handle_send (topic_str, raw_meta, payload) a =
      let (topic_path, c) = topic_path_of topic_str a.topic_path_cache in
      let meta = new_meta raw_meta.qos raw_meta.retain raw_meta.dup in
      get_subscribers a.topic_router (texts topic_path) >>= λ subscribers. ok (
        finish_send (
          send_loop topic_path meta payload subscribers (record {
            actor = record a { topic_path_cache = c };
            closed_subscribers = [];
            new_parks = [];
          })))

  -- `slow_send_futures.next()` with the future that is ready and its result.
  abbrev pub ended : SlowSend Sender Message → SendResult → State → State
  ended (id, entry, msg) delivered a = note (accepted id msg) a
  ended (id, entry, msg) timeout a = a
  ended (id, entry, msg) SendResult.closed a = a

  abbrev pub remove_at {ℓ} : {A : Type ℓ} → List A → ℕ → List A
  remove_at [] k = []
  remove_at (x ∷ xs) zero = xs
  remove_at (x ∷ xs) (suc k) = x ∷ remove_at xs k
