-- ===== src/Client/Manager/Broker.antt =====
-- What the actor asks of the broker: `handle_resubscribe_all` and the cleanup.
use mqtt_typed_client_next.Base.{
  ℕ, Bool, true, false, ◌&&◌, none, List, [], ◌∷◌, Result, ok, err, ◌≡◌, refl, nat_Eq, ap, ◌∙◌,
  Bool-cases, Option-cases, inl, inr, get_elem?, if◌then◌else◌, any, ◌==◌,
}
use mqtt_typed_client_next.Base.Map
use mqtt_typed_client_next.Base.Text.{Text}
use mqtt_typed_client_next.Topic.Qos.{QoS}
use mqtt_typed_client_next.Topic.Cache.{LruCache}
use mqtt_typed_client_next.Topic.TopicMatch.{TopicPath, TopicMatch}
use mqtt_typed_client_next.Topic.Router.{
  SubscriptionId, get_topics_for_resubscribe, get_topics_for_unsubscribe, empty_router, cleanup,
}
use mqtt_typed_client_next.Base.Text.{text_Eq}
use mqtt_typed_client_next.Topic.PatternPath.{is_named}
use mqtt_typed_client_next.Topic.PatternPath.Binding.{mqtt_pattern}
use mqtt_typed_client_next.Topic.PatternPath.Validation.{Distinct}
use mqtt_typed_client_next.Topic.Router.Patterns.{get_topics_for_unsubscribe_lem}
use mqtt_typed_client_next.Client.Manager.{
  MessageType, Outside, SlowSend, SubscriptionError, resubscribe_failed, SendResult, delivered,
  timeout,
}
use mqtt_typed_client_next.Client.Manager.Handlers.{State, handle_slow_send, ended, remove_at}
use mqtt_typed_client_next.Client.Manager.Requests.{
  resubscribe_each, handle_resubscribe_all, all_done,
}
use mqtt_typed_client_next.Client.Manager.Run.{
  slow_send, process_slow_sends, unsubscribe_topics, cleanup_active_subscriptions,
}

module _ {D : Type 0} (cache : LruCache Text TopicMatch) (paths : LruCache Text TopicPath)
    (o : Outside (MessageType D)) where
  open o use {World, Sender}

  -- The broker after it has been asked for each of the topics, and whether it always agreed.
  abbrev pub ask_all : List (Text × QoS) → World → Bool × World
  ask_all [] w = (true, w)
  ask_all ((topic, qos) ∷ topics) w =
      let (agreed, w') = o.subscribe topic qos w in
      let (rest, w'') = ask_all topics w' in (agreed && rest, w'')

  abbrev pub is_nil {ℓ} : {A : Type ℓ} → List A → Bool
  is_nil [] = true
  is_nil (_ ∷ _) = false

  resubscribe_each-eq :
      (topics : List (Text × QoS)) (w : World)
      → (
        is_nil (resubscribe_each cache paths o topics w).0,
        (resubscribe_each cache paths o topics w).1,
      )
        ≡ ask_all topics w
  unfolding resubscribe_each
  resubscribe_each-eq [] w = refl
  resubscribe_each-eq ((topic, qos) ∷ topics) w =
      let rest = resubscribe_each-eq topics (o.subscribe topic qos w).1 in
      elim (Bool-cases (o.subscribe topic qos w).0) [
        | inl agreed ↦ rw (agreed, resubscribe_each) rest
        | inr refused ↦ rw (refused, resubscribe_each) (ap (λ x. (false, x.1)) rest)
      ]

  abbrev pub answer_of : Bool → Result (Unit {0}) SubscriptionError
  answer_of agreed = if agreed then ok tt else err resubscribe_failed

  all_done-eq : (failed : List Text) → all_done cache paths o failed ≡ answer_of (is_nil failed)
  all_done-eq [] = refl
  all_done-eq (topic ∷ failed) = refl

  -- After a reconnect, the broker is asked once for every topic of the router, also behind one that
  -- it refuses. The answer is a success exactly where it agreed to all of them, and nothing but
  -- the broker's state is changed.
  pub handle_resubscribe_all-ask_all :
      (a : State cache paths o)
      → handle_resubscribe_all cache paths o a ≡ (
        record a { world = (ask_all (get_topics_for_resubscribe a.topic_router) a.world).1 },
        answer_of (ask_all (get_topics_for_resubscribe a.topic_router) a.world).0,
      )
  unfolding handle_resubscribe_all
  handle_resubscribe_all-ask_all a =
      let topics = get_topics_for_resubscribe a.topic_router in
      let e = resubscribe_each-eq topics a.world in
      ap (λ r. (record a { world = (resubscribe_each cache paths o topics a.world).1 }, r))
        (all_done-eq (resubscribe_each cache paths o topics a.world).0)
      ∙ ap (λ x. (record a { world = x.1 }, answer_of x.0)) e

  -- What the end of slow sends leaves as it is where nothing is parked.
  abbrev IsQuiet : World → State cache paths o → Type 0
  IsQuiet w a = (a.parked ≡ []) × (a.world ≡ w)

  ended-IsQuiet :
      (w : World) (future : SlowSend Sender (MessageType D)) (result : SendResult)
      (a : State cache paths o)
      → IsQuiet w a
      → IsQuiet w (ended cache paths o future result a)
  ended-IsQuiet w (id, entry, msg) delivered a h = h
  ended-IsQuiet w (id, entry, msg) timeout a h = h
  ended-IsQuiet w (id, entry, msg) SendResult.closed a h = h

  unparked-IsQuiet :
      (w : World) (id : SubscriptionId) (result : SendResult) (a : State cache paths o)
      → IsQuiet w a
      → IsQuiet w (handle_slow_send cache paths o id result a)
  unfolding handle_slow_send Map.lookup
  unparked-IsQuiet w id result a (none_parked, same) =
      let e : Map.lookup id a.parked ≡ none = ap (λ m. Map.lookup id m) none_parked in
      rw (e, handle_slow_send) (none_parked, same)

  abbrev left : ℕ → State cache paths o → State cache paths o
  left k a = record a { slow_send_futures = remove_at cache paths o a.slow_send_futures k }

  slow_send-IsQuiet :
      (w : World) (k : ℕ) (result : SendResult) (a : State cache paths o)
      → IsQuiet w a
      → IsQuiet w (slow_send cache paths o k result a)
  unfolding slow_send
  slow_send-IsQuiet w k result a h = elim (Option-cases (get_elem? a.slow_send_futures k)) [
    | inl e ↦ rw (e, slow_send) h
    | inr (future, e) ↦
        rw (e, slow_send)
          (unparked-IsQuiet w future.0 result (ended cache paths o future result (left k a))
            (ended-IsQuiet w future result (left k a) h))
  ]

  process-IsQuiet :
      (w : World) (grace : List (ℕ × SendResult)) (a : State cache paths o)
      → IsQuiet w a
      → IsQuiet w (process_slow_sends cache paths o grace a)
  unfolding process_slow_sends
  process-IsQuiet w [] a h = h
  process-IsQuiet w ((k, result) ∷ grace) a h =
      process-IsQuiet w grace (slow_send cache paths o k result a)
        (slow_send-IsQuiet w k result a h)

  -- The worlds before and after the broker is asked to unsubscribe from topics, one by one,
  -- whatever it answers.
  abbrev pub Unsubscribed : World → List Text → World → Type 0
  Unsubscribed w [] w' = w' ≡ w
  Unsubscribed w (topic ∷ topics) w' = Unsubscribed (o.unsubscribe topic w).1 topics w'

  unsubscribe_topics-Unsubscribed :
      (topics : List Text) (w : World)
      → Unsubscribed w topics (unsubscribe_topics cache paths o topics w)
  unfolding unsubscribe_topics
  unsubscribe_topics-Unsubscribed [] w = refl
  unsubscribe_topics-Unsubscribed (topic ∷ topics) w =
      unsubscribe_topics-Unsubscribed topics (o.unsubscribe topic w).1

  -- The cleanup leaves no subscription and nothing parked, however the slow sends end in the time
  -- that is left to them. What it asks of the world is to unsubscribe, one after the other, from
  -- topics that are all different, and that are just the topic patterns of the subscriptions; and
  -- no more: no queue is worked off after it.
  pub cleanup_active_subscriptions-eq :
      (grace : List (ℕ × SendResult)) (a : State cache paths o)
      → (topics : List Text) × Distinct topics
        × ((topic : Text)
            → is_named topic topics
              ≡ any (λ s. mqtt_pattern s.1.0 == topic) a.topic_router.subscriptions)
        × Unsubscribed a.world topics (cleanup_active_subscriptions cache paths o grace a).world
        × ((cleanup_active_subscriptions cache paths o grace a).topic_router ≡ empty_router)
        × ((cleanup_active_subscriptions cache paths o grace a).parked ≡ [])
  unfolding cleanup_active_subscriptions cleanup
  cleanup_active_subscriptions-eq grace a =
      let topics = get_topics_for_unsubscribe a.topic_router in
      let w = unsubscribe_topics cache paths o topics a.world in
      let (p, q) = process-IsQuiet w grace (record a { parked = []; world = w }) (refl, refl) in
      let (distinct, same) = get_topics_for_unsubscribe_lem a.topic_router in
      (topics, distinct, same, rw q (unsubscribe_topics-Unsubscribed topics a.world), refl, p)
