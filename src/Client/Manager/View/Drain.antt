-- ===== src/Client/Manager/View/Drain.antt =====
-- `drain_parked` and its loop.
use mqtt_typed_client_next.Base.{
  true, false, ◌+◌, none, some, List, [], ◌∷◌, ◌++◌, ◌≡◌, refl, nat_Eq, ◌==◌, ap, ◌∙◌, inl, inr,
  length,
}
use mqtt_typed_client_next.Base.Map
use mqtt_typed_client_next.Base.Text.{Text}
use mqtt_typed_client_next.Topic.Cache.{LruCache}
use mqtt_typed_client_next.Topic.TopicMatch.{TopicPath, TopicMatch}
use mqtt_typed_client_next.Topic.Router.{SubscriptionId}
use mqtt_typed_client_next.Client.Manager.{
  MessageType, Outside, ParkedState, or_zero, accepted, TrySend-cases,
}
use mqtt_typed_client_next.Client.Manager.Handlers.{
  State, Entry, handle_unsubscribe, push_slow_send, park, dropping, note, drain, drain_parked,
}
use mqtt_typed_client_next.Client.Manager.Pipe.{IsFine, pipe, gone}
use mqtt_typed_client_next.Client.Manager.Pipe.Drain.{
  IsDraining, drained_nil, drained_sent, drained_full, drained_closed,
}
use mqtt_typed_client_next.Client.Manager.View.{
  sends_of, accepted_by, offered_to, same_pipe, view, queue_of, at_rest,
}
use mqtt_typed_client_next.Client.Manager.View.Lists.{
  sends_of-snoc_self, sends_of-snoc_other, accepted_self, offered_accepted, accepted_other,
}
use mqtt_typed_client_next.Client.Manager.View.Offer.{lookup-insert_other, lookup-insert_self}
use mqtt_typed_client_next.Client.Manager.View.Finish.{
  unsubscribe_self, unsubscribe_other, removed_other,
}

module _ {D : Type 0} (cache : LruCache Text TopicMatch) (paths : LruCache Text TopicPath)
    (o : Outside (MessageType D)) (id : SubscriptionId) (entry : Entry cache paths o) where
  open o use {World, Sender}

  -- A subscription whose queue has been taken out of `parked`.
  pub record IsTakenOut (rest : List (MessageType D)) (a : State cache paths o) : Type 0 where
    pub live : (view cache paths o id (at_rest cache paths o a)).registered ≡ true
    pub out : sends_of id a.slow_send_futures ≡ []
    pub free : Map.lookup id a.parked ≡ none
    pub draining :
        IsDraining rest
          (accepted_by id a.log)
          (offered_to id a.log)
          (or_zero (Map.lookup id a.dropped_messages))

  abbrev in_world : World → State cache paths o → State cache paths o
  in_world w a = record a { world = w }

  abbrev drain_end :
      MessageType D → List (MessageType D) → World → State cache paths o → State cache paths o
  drain_end msg rest w a =
      handle_unsubscribe cache paths o id
        (dropping cache paths o (1 + length rest) id (in_world w a))

  abbrev drain_park :
      MessageType D → List (MessageType D) → World → State cache paths o → State cache paths o
  drain_park msg rest w a =
      push_slow_send cache paths o entry id msg (park cache paths o id entry rest (in_world w a))

  module _ (msg : MessageType D) (rest : List (MessageType D)) (w : World)
      (a : State cache paths o) where
    sent_step :
        IsTakenOut (msg ∷ rest) a
        → IsTakenOut rest (note cache paths o (accepted id msg) (in_world w a))
    sent_step h = record {
      live = h.live;
      out = h.out;
      free = h.free;
      draining =
          rw (accepted_self id a.log msg, offered_accepted id a.log msg id)
            (drained_sent msg (accepted_by id a.log) (offered_to id a.log) _ rest h.draining);
    }

    full_step :
        IsTakenOut (msg ∷ rest) a
        → IsFine (view cache paths o id (at_rest cache paths o (drain_park msg rest w a)))
    unfolding sends_of
    full_step h =
        let e : view cache paths o id (at_rest cache paths o (drain_park msg rest w a))
            ≡ pipe true (msg ∷ []) [] (some rest) (accepted_by id a.log) (offered_to id a.log)
                (or_zero (Map.lookup id a.dropped_messages)) =
          same_pipe h.live
            (sends_of-snoc_self id a.slow_send_futures entry msg ∙ ap (λ l. l ++ msg ∷ []) h.out)
            refl (ap queue_of (lookup-insert_self id _ a.parked)) refl refl refl in
        rw e (drained_full msg (accepted_by id a.log) (offered_to id a.log) _ rest h.draining)

    closed_step :
        IsTakenOut (msg ∷ rest) a
        → IsFine (view cache paths o id (at_rest cache paths o (drain_end msg rest w a)))
    unfolding sends_of
    closed_step h =
        let a' = dropping cache paths o (1 + length rest) id (in_world w a) in
        let e : gone (view cache paths o id (at_rest cache paths o a'))
            ≡ pipe false [] [] none (accepted_by id a.log) (offered_to id a.log)
                (or_zero (Map.lookup id a'.dropped_messages)) =
          same_pipe refl h.out refl refl refl refl refl in
        rw (unsubscribe_self cache paths o id a' [] [], e)
          (drained_closed (accepted_by id a.log) (offered_to id a.log) _ (msg ∷ rest) _ h.draining)

  pub drain-IsFine :
      (rest : List (MessageType D)) (a : State cache paths o)
      → IsTakenOut rest a
      → IsFine (view cache paths o id (at_rest cache paths o (drain cache paths o id entry rest a)))
  unfolding drain sends_of
  drain-IsFine [] a h =
      let e : view cache paths o id (at_rest cache paths o a)
          ≡ pipe true [] [] none (accepted_by id a.log) (offered_to id a.log)
              (or_zero (Map.lookup id a.dropped_messages)) =
        same_pipe h.live h.out refl (ap queue_of h.free) refl refl refl in
      rw e (
        drained_nil (accepted_by id a.log) (offered_to id a.log)
          (or_zero (Map.lookup id a.dropped_messages)) h.draining)
  drain-IsFine (msg ∷ rest) a h =
      let w = (o.try_send entry.sender msg a.world).1 in
      elim (TrySend-cases (o.try_send entry.sender msg a.world).0) [
        | inl e ↦
            rw (e, drain)
              (drain-IsFine rest (note cache paths o (accepted id msg) (in_world w a))
                (sent_step msg rest w a h))
        | inr (inl e) ↦ rw (e, drain) (full_step msg rest w a h)
        | inr (inr e) ↦ rw (e, drain) (closed_step msg rest w a h)
      ]

  -- Other subscriptions are left alone.
  pub drain_other :
      (i : SubscriptionId)
      → (id == i) ≡ false
      → (rest : List (MessageType D)) (a : State cache paths o)
      → view cache paths o i (at_rest cache paths o (drain cache paths o id entry rest a))
        ≡ view cache paths o i (at_rest cache paths o a)
  unfolding drain
  drain_other i other [] a = refl
  drain_other i other (msg ∷ rest) a =
      let w = (o.try_send entry.sender msg a.world).1 in
      elim (TrySend-cases (o.try_send entry.sender msg a.world).0) [
        | inl e ↦
            rw (e, drain)
              (drain_other i other rest (note cache paths o (accepted id msg) (in_world w a))
                ∙ same_pipe refl refl refl refl (accepted_other i a.log msg id other)
                    (offered_accepted i a.log msg id) refl)
        | inr (inl e) ↦
            rw (e, drain)
              (same_pipe refl (sends_of-snoc_other i a.slow_send_futures id entry msg other) refl
                (ap queue_of (lookup-insert_other i id _ a.parked other)) refl refl refl)
        | inr (inr e) ↦
            rw (e, drain)
              (unsubscribe_other cache paths o id
                  (dropping cache paths o (1 + length rest) id (in_world w a)) [] [] i other refl
                ∙ same_pipe refl refl refl refl refl refl
                    (ap or_zero (lookup-insert_other i id _ a.dropped_messages other)))
      ]

  -- The state in which the queue is worked off.
  abbrev pub taken : State cache paths o → State cache paths o
  taken a = record a { parked = Map.remove id a.parked }

module _ {D : Type 0} (cache : LruCache Text TopicMatch) (paths : LruCache Text TopicPath)
    (o : Outside (MessageType D)) (id : SubscriptionId) (a : State cache paths o)
    (state : ParkedState (o.Sender) (MessageType D))
    (parked : Map.lookup id a.parked ≡ some state) where
  pub drain_parked_other :
      (i : SubscriptionId)
      → (id == i) ≡ false
      → view cache paths o i (at_rest cache paths o (drain_parked cache paths o id a))
        ≡ view cache paths o i (at_rest cache paths o a)
  unfolding drain_parked
  drain_parked_other i other =
      rw (parked, drain_parked)
        (drain_other cache paths o id state.entry i other state.queue
            (taken cache paths o id state.entry a)
          ∙ same_pipe refl refl refl (ap queue_of (removed_other id i a.parked other)) refl refl
              refl)

  pub drain_parked-IsFine :
      IsTakenOut cache paths o id state.entry state.queue (taken cache paths o id state.entry a)
      → IsFine (view cache paths o id (at_rest cache paths o (drain_parked cache paths o id a)))
  unfolding drain_parked
  drain_parked-IsFine h =
      rw (parked, drain_parked)
        (drain-IsFine cache paths o id state.entry state.queue
          (taken cache paths o id state.entry a) h)
