-- ===== src/Client/Manager/Kept.antt =====
-- The router in the handlers of the subscription manager.
use mqtt_typed_client_next.Base.{
  ℕ, ◌+◌, some, List, [], ◌∷◌, ◌≡◌, refl, sym, nat_Eq, ap, ◌∙◌, Bool-cases, Option-cases,
  Result-cases, inl, inr, Memᴰ, leb, length, get_elem?,
}
use mqtt_typed_client_next.Base.Map
use mqtt_typed_client_next.Base.Text.{Text}
use mqtt_typed_client_next.Topic.Filter.{filter_of}
use mqtt_typed_client_next.Topic.Cache.{LruCache}
use mqtt_typed_client_next.Topic.TopicMatch.{TopicPath, TopicMatch}
use mqtt_typed_client_next.Topic.PatternPath.Caching.{try_match}
use mqtt_typed_client_next.Topic.PatternPath.Caching.Stored.{resolve-try_match}
use mqtt_typed_client_next.Topic.Router.{SubscriptionId, Registered, Subscriber}
use mqtt_typed_client_next.Topic.Router.Invariant.{IsLinked, filter_at}
use mqtt_typed_client_next.Topic.Router.Store.{stored-IsLinked, stored_filter, unsubscribe_kept}
use mqtt_typed_client_next.Client.Manager.{
  MessageType, MessageMeta, Outside, SlowSend, ParkedState, TrySend, TrySend-cases, sent, full,
  SendResult, delivered, timeout, accepted,
}
use mqtt_typed_client_next.Client.Manager.Handlers.{
  State, Sending, Entry, handle_unsubscribe, offer, hand_over, send_one, send_loop, start_parks,
  unsubscribe_all, drain, drain_parked, handle_slow_send, on_parked, ended, push_slow_send, park,
  note, dropping, remove_at,
}
use mqtt_typed_client_next.Client.Manager.Run.{slow_send}

module _ {D : Type 0} (cache : LruCache Text TopicMatch) (paths : LruCache Text TopicPath)
    (o : Outside (MessageType D)) (n : ℕ) where
  open o use {World, Sender}

  abbrev pub IsKept : State cache paths o → Type 0
  IsKept a = IsLinked a.topic_router × (a.topic_router.next_id ≡ n)

  pub handle_unsubscribe_kept :
      (id : SubscriptionId) (a : State cache paths o)
      → IsKept a
      → IsKept (handle_unsubscribe cache paths o id a)
  unfolding handle_unsubscribe
  handle_unsubscribe_kept id a (linked, next) =
      let (linked', next') = unsubscribe_kept a.topic_router linked id in (linked', next' ∙ next)

  pub unsubscribe_all_kept :
      (ids : List SubscriptionId) (a : State cache paths o)
      → IsKept a
      → IsKept (unsubscribe_all cache paths o ids a)
  unfolding unsubscribe_all
  unsubscribe_all_kept [] a h = h
  unsubscribe_all_kept (id ∷ ids) a h =
      unsubscribe_all_kept ids (handle_unsubscribe cache paths o id a)
        (handle_unsubscribe_kept id a h)

  pub start_parks_kept :
      (parks : List (SlowSend Sender (MessageType D))) (a : State cache paths o)
      → IsKept a
      → IsKept (start_parks cache paths o parks a)
  unfolding start_parks
  start_parks_kept [] a h = h
  start_parks_kept ((id, entry, msg) ∷ parks) a h =
      start_parks_kept parks
        (push_slow_send cache paths o entry id msg (park cache paths o id entry [] a)) h

  pub drain_kept :
      (id : SubscriptionId) (entry : Entry cache paths o) (queue : List (MessageType D))
      (a : State cache paths o)
      → IsKept a
      → IsKept (drain cache paths o id entry queue a)
  unfolding drain
  drain_kept id entry [] a h = h
  drain_kept id entry (msg ∷ queue) a h =
      elim (TrySend-cases (o.try_send entry.sender msg a.world).0) [
        | inl e ↦
            rw (e, drain)
              (drain_kept id entry queue
                (note cache paths o (accepted id msg)
                  (record a { world = (o.try_send entry.sender msg a.world).1 }))
                h)
        | inr (inl e) ↦ rw (e, drain) h
        | inr (inr e) ↦
            rw (e, drain)
              (handle_unsubscribe_kept id
                (dropping cache paths o (1 + length queue) id
                  (record a { world = (o.try_send entry.sender msg a.world).1 }))
                h)
      ]

  drain_parked_kept :
      (id : SubscriptionId) (a : State cache paths o)
      → IsKept a
      → IsKept (drain_parked cache paths o id a)
  unfolding drain_parked
  drain_parked_kept id a h = elim (Option-cases (Map.lookup id a.parked)) [
    | inl e ↦ rw (e, drain_parked) h
    | inr (state, e) ↦
        rw (e, drain_parked)
          (drain_kept id state.entry state.queue (record a { parked = Map.remove id a.parked }) h)
  ]

  on_parked_kept :
      (id : SubscriptionId) (state : ParkedState Sender (MessageType D)) (result : SendResult)
      (a : State cache paths o)
      → IsKept a
      → IsKept (on_parked cache paths o id state result a)
  on_parked_kept id state delivered a h = drain_parked_kept id a h
  on_parked_kept id state timeout a h = drain_parked_kept id (dropping cache paths o 1 id a) h
  on_parked_kept id state SendResult.closed a h =
      handle_unsubscribe_kept id
        (dropping cache paths o (1 + length state.queue) id
          (record a { parked = Map.remove id a.parked }))
        h

  handle_slow_send_kept :
      (id : SubscriptionId) (result : SendResult) (a : State cache paths o)
      → IsKept a
      → IsKept (handle_slow_send cache paths o id result a)
  unfolding handle_slow_send
  handle_slow_send_kept id result a h = elim (Option-cases (Map.lookup id a.parked)) [
    | inl e ↦ rw (e, handle_slow_send) h
    | inr (state, e) ↦ rw (e, handle_slow_send) (on_parked_kept id state result a h)
  ]

  ended_kept :
      (future : SlowSend Sender (MessageType D)) (result : SendResult) (a : State cache paths o)
      → IsKept a
      → IsKept (ended cache paths o future result a)
  ended_kept (id, entry, msg) delivered a h = h
  ended_kept (id, entry, msg) timeout a h = h
  ended_kept (id, entry, msg) SendResult.closed a h = h

  pub slow_send_kept :
      (k : ℕ) (result : SendResult) (a : State cache paths o)
      → IsKept a
      → IsKept (slow_send cache paths o k result a)
  unfolding slow_send
  slow_send_kept k result a h = elim (Option-cases (get_elem? a.slow_send_futures k)) [
    | inl e ↦ rw (e, slow_send) h
    | inr (future, e) ↦
        rw (e, slow_send)
          (handle_slow_send_kept future.0 result
            (ended cache paths o future result
              (record a { slow_send_futures = remove_at cache paths o a.slow_send_futures k }))
            (ended_kept future result
              (record a { slow_send_futures = remove_at cache paths o a.slow_send_futures k }) h))
  ]

  hand_over_router :
      (id : SubscriptionId) (entry : Entry cache paths o) (msg : MessageType D)
      (answer : TrySend × World) (st : Sending cache paths o)
      → (hand_over cache paths o id entry msg answer st).actor.topic_router ≡ st.actor.topic_router
  hand_over_router id entry msg (sent, w) st = refl
  hand_over_router id entry msg (full, w) st = refl
  hand_over_router id entry msg (TrySend.closed, w) st = refl

  offer_router :
      (id : SubscriptionId) (entry : Entry cache paths o) (msg : MessageType D)
      (st : Sending cache paths o)
      → (offer cache paths o id entry msg st).actor.topic_router ≡ st.actor.topic_router
  unfolding offer
  offer_router id entry msg st = elim (Option-cases (Map.lookup id st.actor.parked)) [
    | inl e ↦
        rw (e, offer) (hand_over_router id entry msg (o.try_send entry.sender msg st.actor.world) _)
    | inr (state, e) ↦ elim (Bool-cases (leb entry.max_parked_messages (length state.queue))) [
      | inl over ↦ rw (e, offer, over) refl
      | inr below ↦ rw (e, offer, below) refl
    ]
  ]

  -- The subscribers that are still to come are registered under the filters that they came with.
  abbrev pub AreHeld :
      List (Subscriber cache.Cache (Entry cache paths o)) → State cache paths o → Type 0
  AreHeld l a =
      (id : SubscriptionId) (s : Registered cache.Cache) (entry : Entry cache paths o)
      → Memᴰ (id, s, entry) l
      → (u : Registered cache.Cache) × (Map.lookup id a.topic_router.subscriptions ≡ some u)
        × (filter_at u ≡ filter_at s)

  module _ (path : TopicPath) (meta : MessageMeta) (payload : D) where
    send_one_router :
        (id : SubscriptionId) (s : Registered cache.Cache) (entry : Entry cache paths o)
        (st : Sending cache paths o)
        → (send_one cache paths o path meta payload (id, s, entry) st).actor.topic_router
          ≡ record st.actor.topic_router {
            subscriptions =
                Map.insert id
                  ((try_match cache s.0 path).1, s.1)
                  st.actor.topic_router.subscriptions;
          }
    unfolding send_one
    send_one_router id s entry st = elim (Result-cases (try_match cache s.0 path).0) [
      | inl (m, e) ↦ rw (e, send_one) (offer_router id entry (m, meta, payload) _)
      | inr (f, e) ↦ rw (e, send_one) refl
    ]

    pub send_loop_kept :
        (l : List (Subscriber cache.Cache (Entry cache paths o))) (st : Sending cache paths o)
        → AreHeld l st.actor
        → IsKept st.actor
        → IsKept (send_loop cache paths o path meta payload l st).actor
    unfolding send_loop
    send_loop_kept [] st held h = h
    send_loop_kept ((id, s, entry) ∷ l) st held (linked, next) =
        let st' = send_one cache paths o path meta payload (id, s, entry) st in
        let (u, found, same) = held id s entry (Memᴰ.head refl) in
        let s' : Registered cache.Cache = ((try_match cache s.0 path).1, s.1) in
        let same' : filter_at s' ≡ filter_at u =
          ap filter_of (resolve-try_match cache s.0 path) ∙ sym same in
        let e = send_one_router id s entry st in
        let linked' = stored-IsLinked st.actor.topic_router linked id u s' found same' in
        send_loop_kept l st'
          (λ j t entry' m.
            let (v, at, f) = held j t entry' (Memᴰ.tail m) in
            let (v', at', f') =
              stored_filter st.actor.topic_router linked id u s' found same' j v at in
            (v', rw e at', f' ∙ f))
          (rw e linked', rw e next)
