-- ===== src/Client/Manager/View/Offer.antt =====
-- A message of `handle_send` for one subscription.
use mqtt_typed_client_next.Base.{
  ℕ, Bool, true, false, not, ◌&&◌, ◌||◌, none, some, List, [], ◌∷◌, ◌++◌, any, ◌≡◌, refl, nat_Eq,
  ◌==◌, if◌then◌else◌, ap, sym, ◌∙◌, eq_refl, eq_sound, Bool-cases, Option-cases, inl, inr, arith,
  leb, length,
}
use mqtt_typed_client_next.Base.Map
use mqtt_typed_client_next.Base.Text.{Text}
use mqtt_typed_client_next.Topic.Cache.{LruCache}
use mqtt_typed_client_next.Topic.TopicMatch.{TopicPath, TopicMatch}
use mqtt_typed_client_next.Topic.Router.{SubscriptionId}
use mqtt_typed_client_next.Client.Manager.{
  MessageType, Outside, ParkedState, offered, or_zero, TrySend, sent, full,
}
use mqtt_typed_client_next.Client.Manager.Handlers.{
  Sending, Entry, offer, on_actor, note, hand_over, enqueue,
}
use mqtt_typed_client_next.Client.Manager.Pipe.{is_some, offer_to}
use mqtt_typed_client_next.Client.Manager.View.{queue_of, same_pipe, view}
use mqtt_typed_client_next.Client.Manager.View.Lists.{
  any-append, sends_of-snoc_self, sends_of-snoc_other, accepted_self, offered_self,
  accepted_offered, offered_accepted, accepted_other, offered_other,
}

or_false : (b : Bool) → (b || false) ≡ b
or_false b = ground arith

or_true : (b : Bool) → (b || true) ≡ true
or_true b = ground arith

and_false : (b : Bool) → (b && false) ≡ false
and_false b = ground arith

any-snoc_self :
    (i : SubscriptionId) (ids : List SubscriptionId) → any (λ j. j == i) (ids ++ i ∷ []) ≡ true
any-snoc_self i ids =
    any-append (λ j. j == i) ids (i ∷ []) ∙ rw (eq_refl i) (or_true (any (λ j. j == i) ids))

module _ {V : Type 0} (i id : SubscriptionId) (v : V) (m : List (SubscriptionId × V)) where
  pub lookup-insert_other : (id == i) ≡ false → Map.lookup i (Map.insert id v m) ≡ Map.lookup i m
  lookup-insert_other other = Map.lookup-insert i id v m ∙ rw other refl

module _ {V : Type 0} (i : SubscriptionId) (v : V) (m : List (SubscriptionId × V)) where
  pub lookup-insert_self : Map.lookup i (Map.insert i v m) ≡ some v
  lookup-insert_self = Map.lookup-insert i i v m ∙ rw (eq_refl i) refl

module _ {D : Type 0} (cache : LruCache Text TopicMatch) (paths : LruCache Text TopicPath)
    (o : Outside (MessageType D)) (msg : MessageType D) where
  open o use {World, Sender}

  module _ (st : Sending cache paths o) (i id : SubscriptionId) (entry : Entry cache paths o)
      (other : (id == i) ≡ false) where
    hand_over_other :
        (answer : TrySend × World)
        → view cache paths o i (hand_over cache paths o id entry msg answer st)
          ≡ view cache paths o i st
    hand_over_other (sent, w) =
        same_pipe refl refl refl refl (accepted_other i st.actor.log msg id other)
          (offered_accepted i st.actor.log msg id) refl
    hand_over_other (full, w) =
        same_pipe refl refl (sends_of-snoc_other i st.new_parks id entry msg other) refl refl refl
          refl
    hand_over_other (TrySend.closed, w) =
        same_pipe
          (ap (λ b. is_some (Map.lookup i st.actor.topic_router.subscriptions) && not b)
            (any-append (λ j. j == i) st.closed_subscribers (id ∷ []) ∙ rw other (or_false _)))
          refl refl refl refl refl refl

    enqueue_other :
        (limit : ℕ) (state : ParkedState Sender (MessageType D))
        → view cache paths o i
            (on_actor cache paths o (enqueue cache paths o id limit state msg) st)
          ≡ view cache paths o i st
    enqueue_other limit state = elim (Bool-cases (leb limit (length state.queue))) [
      | inl over ↦ rw over (
          same_pipe refl refl refl refl refl refl
            (ap or_zero (lookup-insert_other i id _ st.actor.dropped_messages other)))
      | inr below ↦ rw below (
          same_pipe refl refl refl (ap queue_of (lookup-insert_other i id _ st.actor.parked other))
            refl refl refl)
    ]

    offered_note_other :
        view cache paths o i (on_actor cache paths o (note cache paths o (offered id msg)) st)
        ≡ view cache paths o i st
    offered_note_other =
        same_pipe refl refl refl refl (accepted_offered i st.actor.log msg id)
          (offered_other i st.actor.log msg id other) refl

  -- A message changes no other subscription.
  pub offer_other :
      (st : Sending cache paths o) (i id : SubscriptionId) (entry : Entry cache paths o)
      → (id == i) ≡ false
      → view cache paths o i (offer cache paths o id entry msg st) ≡ view cache paths o i st
  unfolding offer
  offer_other st i id entry other =
      let noted = on_actor cache paths o (note cache paths o (offered id msg)) st in
      elim (Option-cases (Map.lookup id st.actor.parked)) [
        | inl free ↦
            rw (free, offer)
              (hand_over_other noted i id entry other (o.try_send entry.sender msg st.actor.world)
                ∙ offered_note_other st i id entry other)
        | inr (state, parked) ↦
            rw (parked, offer)
              (enqueue_other noted i id entry other entry.max_parked_messages state
                ∙ offered_note_other st i id entry other)
      ]

  module _ (st : Sending cache paths o) (i : SubscriptionId) (entry : Entry cache paths o) where
    hand_over_self :
        Map.lookup i st.actor.parked ≡ none
        → (answer : TrySend × World)
        → view cache paths o i (
            hand_over cache paths o i entry msg answer
              (on_actor cache paths o (note cache paths o (offered i msg)) st))
          ≡ offer_to entry.max_parked_messages answer.0 msg
              (record (view cache paths o i st) { queue = none })
    hand_over_self free (sent, w) =
        same_pipe refl refl refl (ap queue_of free)
          (accepted_self i (st.actor.log ++ offered i msg ∷ []) msg
            ∙ ap (λ l. l ++ msg ∷ []) (accepted_offered i st.actor.log msg i))
          (offered_accepted i (st.actor.log ++ offered i msg ∷ []) msg i
            ∙ offered_self i st.actor.log msg)
          refl
    hand_over_self free (full, w) =
        same_pipe refl refl (sends_of-snoc_self i st.new_parks entry msg) (ap queue_of free)
          (accepted_offered i st.actor.log msg i) (offered_self i st.actor.log msg) refl
    hand_over_self free (TrySend.closed, w) =
        same_pipe
          (ap (λ b. is_some (Map.lookup i st.actor.topic_router.subscriptions) && not b)
              (any-snoc_self i st.closed_subscribers)
            ∙ and_false _)
          refl refl (ap queue_of free) (accepted_offered i st.actor.log msg i)
          (offered_self i st.actor.log msg) refl

    -- The message is offered to the subscription as its channel answers.
    pub offer_self :
        view cache paths o i (offer cache paths o i entry msg st)
        ≡ offer_to entry.max_parked_messages
            (o.try_send entry.sender msg st.actor.world).0
            msg
            (view cache paths o i st)
    unfolding offer
    offer_self = elim (Option-cases (Map.lookup i st.actor.parked)) [
      | inl free ↦
          rw (free, offer) (hand_over_self free (o.try_send entry.sender msg st.actor.world))
      | inr (state, parked) ↦
          rw (parked, offer)
            (elim (Bool-cases (leb entry.max_parked_messages (length state.queue))) [
              | inl over ↦ rw over (
                  same_pipe refl refl refl (ap queue_of parked)
                    (accepted_offered i st.actor.log msg i) (offered_self i st.actor.log msg)
                    (ap or_zero (lookup-insert_self i _ st.actor.dropped_messages)))
              | inr below ↦ rw below (
                  same_pipe refl refl refl (ap queue_of (lookup-insert_self i _ st.actor.parked))
                    (accepted_offered i st.actor.log msg i) (offered_self i st.actor.log msg) refl)
            ])
    ]

  -- The handling of a message for a subscription refines the step of that subscription alone: its
  -- view takes the abstract step with the answer of its channel, and every other view is as before.
  pub view-offer :
      (id : SubscriptionId) (entry : Entry cache paths o) (st : Sending cache paths o)
      (i : SubscriptionId)
      → view cache paths o i (offer cache paths o id entry msg st) ≡ (
          if id == i
          then offer_to entry.max_parked_messages
              (o.try_send entry.sender msg st.actor.world).0
              msg
              (view cache paths o i st)
          else view cache paths o i st)
  view-offer id entry st i = elim (Bool-cases (id == i)) [
    | inl here ↦ rw here (rw (sym (eq_sound {a = id} {b = i} here)) (offer_self st id entry))
    | inr other ↦ rw other (offer_other st i id entry other)
  ]
