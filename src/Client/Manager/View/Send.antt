-- ===== src/Client/Manager/View/Send.antt =====
-- The loop of `handle_send` over the subscribers.
use mqtt_typed_client_next.Base.{
  Bool, true, false, not, ◌&&◌, some, List, [], ◌∷◌, any, ◌≡◌, refl, sym, nat_Eq, ◌==◌, ap, ◌∙◌,
  eq_sound, Bool-cases, inl, inr, arith, Memᴰ, Result-cases,
}
use mqtt_typed_client_next.Base.Map
use mqtt_typed_client_next.Base.Text.{Text}
use mqtt_typed_client_next.Topic.Cache.{LruCache}
use mqtt_typed_client_next.Topic.Qos.{QoS}
use mqtt_typed_client_next.Topic.TopicMatch.{TopicPath, TopicMatch}
use mqtt_typed_client_next.Topic.PatternPath.Caching.{try_match}
use mqtt_typed_client_next.Topic.Router.{SubscriptionId, Registered, Subscriber}
use mqtt_typed_client_next.Topic.Router.Distinct.{DistinctIds}
use mqtt_typed_client_next.Client.Manager.{MessageType, MessageMeta, Outside}
use mqtt_typed_client_next.Client.Manager.Handlers.{
  Sending, Entry, Pattern, on_actor, store_pattern, send_one, send_loop,
}
use mqtt_typed_client_next.Client.Manager.Pipe.{IsFine, is_some}
use mqtt_typed_client_next.Client.Manager.Pipe.Laws.{offer_to-IsFine}
use mqtt_typed_client_next.Client.Manager.View.{same_pipe, view}
use mqtt_typed_client_next.Client.Manager.View.Offer.{offer_other, offer_self, lookup-insert_other}

lookup-insert_at :
    {V : Type 0} (i id : SubscriptionId) (v : V) (m : List (SubscriptionId × V))
    → (id == i) ≡ true
    → Map.lookup i (Map.insert id v m) ≡ some v
lookup-insert_at i id v m same = Map.lookup-insert i id v m ∙ rw same refl

module _ {D : Type 0} (cache : LruCache Text TopicMatch) (paths : LruCache Text TopicPath)
    (o : Outside (MessageType D)) where
  open o use {World, Sender}

  -- Every subscription is fine.
  abbrev pub AllFine : Sending cache paths o → Type 0
  AllFine st = (i : SubscriptionId) → IsFine (view cache paths o i st)

  -- A subscription that the loop of `handle_send` has still to come to.
  abbrev pub IsReady : SubscriptionId → Sending cache paths o → Type 0
  IsReady id st =
      ((view cache paths o id st).registered ≡ true) × ((view cache paths o id st).starting ≡ [])

  IsReady-as :
      (st st' : Sending cache paths o) (id : SubscriptionId)
      → view cache paths o id st' ≡ view cache paths o id st
      → IsReady id st
      → IsReady id st'
  IsReady-as st st' id e ready =
      (ap (λ p. p.registered) e ∙ ready.0, ap (λ p. p.starting) e ∙ ready.1)

  abbrev stored :
      SubscriptionId → Pattern cache paths o → QoS → Sending cache paths o → Sending cache paths o
  stored id pattern qos st = on_actor cache paths o (store_pattern cache paths o id pattern qos) st

  -- The cache of a pattern that is stored is no part of what is seen of a subscription.
  pub stored-view :
      (id : SubscriptionId) (pattern : Pattern cache paths o) (qos : QoS)
      (st : Sending cache paths o) (i : SubscriptionId)
      → is_some (Map.lookup id st.actor.topic_router.subscriptions) ≡ true
      → view cache paths o i (stored id pattern qos st) ≡ view cache paths o i st
  stored-view id pattern qos st i there =
      let still : is_some
            (Map.lookup i (Map.insert id (pattern, qos) st.actor.topic_router.subscriptions))
          ≡ is_some (Map.lookup i st.actor.topic_router.subscriptions) =
        elim (Bool-cases (id == i)) [
          | inl same ↦
              ap is_some
                (lookup-insert_at i id (pattern, qos) st.actor.topic_router.subscriptions same)
              ∙ sym (rw (eq_sound {a = id} {b = i} same) at there)
          | inr other ↦ ap is_some (lookup-insert_other i id _ _ other)
        ] in
      same_pipe (ap (λ b. b && not (any (λ j. j == i) st.closed_subscribers)) still) refl refl refl
        refl refl refl

  registered_there : (b c : Bool) → (b && not c) ≡ true → b ≡ true
  registered_there b c h = ground arith

  module _ (path : TopicPath) (meta : MessageMeta) (payload : D) where
    module _ (id : SubscriptionId) (s : Registered cache.Cache) (entry : Entry cache paths o)
        (st : Sending cache paths o) (ready : IsReady id st) where
      there : is_some (Map.lookup id st.actor.topic_router.subscriptions) ≡ true
      there = registered_there _ (any (λ j. j == id) st.closed_subscribers) ready.0

      abbrev kept : Sending cache paths o
      kept = stored id (try_match cache s.0 path).1 s.1 st

      send_one_other :
          (i : SubscriptionId)
          → (id == i) ≡ false
          → view cache paths o i (send_one cache paths o path meta payload (id, s, entry) st)
            ≡ view cache paths o i st
      unfolding send_one
      send_one_other i other =
          let same = stored-view id (try_match cache s.0 path).1 s.1 st i there in
          elim (Result-cases (try_match cache s.0 path).0) [
            | inl (topic_match, e) ↦
                rw (e, send_one)
                  (offer_other cache paths o (topic_match, meta, payload) kept i id entry other
                    ∙ same)
            | inr (failure, e) ↦ rw (e, send_one) same
          ]

      send_one_self :
          IsFine (view cache paths o id st)
          → IsFine
              (view cache paths o id (send_one cache paths o path meta payload (id, s, entry) st))
      unfolding send_one
      send_one_self fine =
          let same = stored-view id (try_match cache s.0 path).1 s.1 st id there in
          elim (Result-cases (try_match cache s.0 path).0) [
            | inl (topic_match, e) ↦
                rw (e, send_one)
                  (rw (offer_self cache paths o (topic_match, meta, payload) kept id entry, same)
                    (offer_to-IsFine _ _ _ _ ready.0 ready.1 (fine)))
            | inr (failure, e) ↦ rw (e, send_one) (rw same (fine))
          ]

      send_one-IsFine :
          AllFine st → AllFine (send_one cache paths o path meta payload (id, s, entry) st)
      send_one-IsFine fine i = elim (Bool-cases (id == i)) [
        | inr other ↦ rw (send_one_other i other) (fine i)
        | inl same ↦ rw (sym (eq_sound {a = id} {b = i} same)) (send_one_self (fine id))
      ]

    new_apart :
        (id j : SubscriptionId) (s : Registered cache.Cache) (entry : Entry cache paths o)
        (l : List (Subscriber cache.Cache (Entry cache paths o)))
        → ((s : Registered cache.Cache) (t : Entry cache paths o) → Memᴰ (id, s, t) l → ⊥)
        → Memᴰ (j, s, entry) l
        → (id == j) ≡ false
    new_apart id j s entry l new m = elim (Bool-cases (id == j)) [
      | inl same ↦ absurd (new s entry (rw (eq_sound {a = id} {b = j} same) m))
      | inr other ↦ other
    ]

    still-IsReady :
        (id : SubscriptionId) (s : Registered cache.Cache) (entry : Entry cache paths o)
        (l : List (Subscriber cache.Cache (Entry cache paths o))) (st : Sending cache paths o)
        → ((s : Registered cache.Cache) (t : Entry cache paths o) → Memᴰ (id, s, t) l → ⊥)
        → IsReady id st
        → ((j : SubscriptionId) (s : Registered cache.Cache) (entry : Entry cache paths o)
            → Memᴰ (j, s, entry) l
            → IsReady j st)
        → (j : SubscriptionId) (s' : Registered cache.Cache) (entry' : Entry cache paths o)
        → Memᴰ (j, s', entry') l
        → IsReady j (send_one cache paths o path meta payload (id, s, entry) st)
    still-IsReady id s entry l st new now ready j s' entry' m =
        IsReady-as st (send_one cache paths o path meta payload (id, s, entry) st) j
          (send_one_other id s entry st now j (new_apart id j s' entry' l new m))
          (ready j s' entry' m)

    pub send_loop-AllFine :
        (l : List (Subscriber cache.Cache (Entry cache paths o))) (st : Sending cache paths o)
        → DistinctIds l
        → ((id : SubscriptionId) (s : Registered cache.Cache) (entry : Entry cache paths o)
            → Memᴰ (id, s, entry) l
            → IsReady id st)
        → AllFine st
        → AllFine (send_loop cache paths o path meta payload l st)
    unfolding send_loop
    send_loop-AllFine [] st distinct ready fine = fine
    send_loop-AllFine ((id, s, entry) ∷ l) st (new, distinct) ready fine =
        let now = ready id s entry (Memᴰ.head refl) in
        send_loop-AllFine l (send_one cache paths o path meta payload (id, s, entry) st) distinct
          (still-IsReady id s entry l st new now (λ j s' entry' m. ready j s' entry' (Memᴰ.tail m)))
          (send_one-IsFine id s entry st now fine)

    -- A subscription that is not among the subscribers sees nothing of the message.
    pub send_loop_other :
        (i : SubscriptionId) (l : List (Subscriber cache.Cache (Entry cache paths o)))
        (st : Sending cache paths o)
        → DistinctIds l
        → ((id : SubscriptionId) (s : Registered cache.Cache) (entry : Entry cache paths o)
            → Memᴰ (id, s, entry) l
            → IsReady id st)
        → ((id : SubscriptionId) (s : Registered cache.Cache) (entry : Entry cache paths o)
            → Memᴰ (id, s, entry) l
            → (id == i) ≡ false)
        → view cache paths o i (send_loop cache paths o path meta payload l st)
          ≡ view cache paths o i st
    unfolding send_loop
    send_loop_other i [] st distinct ready others = refl
    send_loop_other i ((id, s, entry) ∷ l) st (new, distinct) ready others =
        let now = ready id s entry (Memᴰ.head refl) in
        send_loop_other i l (send_one cache paths o path meta payload (id, s, entry) st) distinct
          (still-IsReady id s entry l st new now (λ j s' entry' m. ready j s' entry' (Memᴰ.tail m)))
          (λ j s' entry' m. others j s' entry' (Memᴰ.tail m))
        ∙ send_one_other id s entry st now i (others id s entry (Memᴰ.head refl))
