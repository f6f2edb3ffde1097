-- ===== src/Client/Manager/View/SlowEnd.antt =====
-- The end of a slow send.
use mqtt_typed_client_next.Base.{
  ℕ, true, false, ◌+◌, ◌%◌, none, some, List, [], ◌∷◌, ◌≡◌, refl, sym, nat_Eq, ◌==◌, ap, ◌∙◌,
  eq_sound, Bool-cases, Option-cases, inl, inr, arith, length, get_elem?,
}
use mqtt_typed_client_next.Base.Map
use mqtt_typed_client_next.Base.Text.{Text}
use mqtt_typed_client_next.Topic.Cache.{LruCache}
use mqtt_typed_client_next.Topic.TopicMatch.{TopicPath, TopicMatch}
use mqtt_typed_client_next.Topic.Router.{SubscriptionId}
use mqtt_typed_client_next.Client.Manager.{
  MessageType, Outside, ParkedState, or_zero, SendResult, delivered, timeout, u64_mod,
}
use mqtt_typed_client_next.Client.Manager.Handlers.{
  State, Entry, dropping, on_parked, handle_slow_send, ended, remove_at,
}
use mqtt_typed_client_next.Client.Manager.Run.{slow_send}
use mqtt_typed_client_next.Client.Manager.Pipe.{IsFine, pipe, is_some, gone}
use mqtt_typed_client_next.Client.Manager.Pipe.Drain.{
  landed, parked_delivered, parked_timeout, parked_closed, unparked-IsFine,
}
use mqtt_typed_client_next.Client.Manager.View.{
  sends_of, accepted_by, offered_to, same_pipe, view, queue_of, at_rest,
}
use mqtt_typed_client_next.Client.Manager.View.Lists.{
  accepted_self, offered_accepted, accepted_other,
}
use mqtt_typed_client_next.Client.Manager.View.Offer.{lookup-insert_other, lookup-insert_self}
use mqtt_typed_client_next.Client.Manager.View.Send.{AllFine}
use mqtt_typed_client_next.Client.Manager.View.Finish.{
  unsubscribe_self, unsubscribe_other, removed_none, removed_other,
}
use mqtt_typed_client_next.Client.Manager.View.Drain.{drain_parked-IsFine, drain_parked_other}
use mqtt_typed_client_next.Client.Manager.View.RemoveAt.{remove_at_other, remove_at_self}

module _ {D : Type 0} (cache : LruCache Text TopicMatch) (paths : LruCache Text TopicPath)
    (o : Outside (MessageType D)) where
  open o use {World, Sender}

  module _ (a : State cache paths o) (k : ℕ) (id : SubscriptionId) (entry : Entry cache paths o)
      (msg : MessageType D) (at : get_elem? a.slow_send_futures k ≡ some (id, entry, msg)) where
    -- The future has left the set.
    abbrev left : State cache paths o
    left = record a { slow_send_futures = remove_at cache paths o a.slow_send_futures k }

    abbrev after : SendResult → State cache paths o
    after result = ended cache paths o (id, entry, msg) result left

    ended_other :
        (result : SendResult) (i : SubscriptionId)
        → (id == i) ≡ false
        → view cache paths o i (at_rest cache paths o (after result))
          ≡ view cache paths o i (at_rest cache paths o a)
    ended_other delivered i other =
        same_pipe refl (remove_at_other cache paths o i a.slow_send_futures k id entry msg at other)
          refl refl (accepted_other i a.log msg id other) (offered_accepted i a.log msg id) refl
    ended_other timeout i other =
        same_pipe refl (remove_at_other cache paths o i a.slow_send_futures k id entry msg at other)
          refl refl refl refl refl
    ended_other SendResult.closed i other =
        same_pipe refl (remove_at_other cache paths o i a.slow_send_futures k id entry msg at other)
          refl refl refl refl refl

    abbrev closing : ParkedState Sender (MessageType D) → State cache paths o
    closing state =
        dropping cache paths o (1 + length state.queue) id
          (record left { parked = Map.remove id a.parked })

    on_parked_other :
        (state : ParkedState Sender (MessageType D)) (result : SendResult) (i : SubscriptionId)
        → (id == i) ≡ false
        → Map.lookup id a.parked ≡ some state
        → view cache paths o i
            (at_rest cache paths o (on_parked cache paths o id state result (after result)))
          ≡ view cache paths o i (at_rest cache paths o a)
    on_parked_other state delivered i other parked =
        drain_parked_other cache paths o id (after delivered) state parked i other
        ∙ ended_other delivered i other
    on_parked_other state timeout i other parked =
        drain_parked_other cache paths o id (dropping cache paths o 1 id left) state parked i other
        ∙ same_pipe refl
            (remove_at_other cache paths o i a.slow_send_futures k id entry msg at other) refl refl
            refl refl (ap or_zero (lookup-insert_other i id _ a.dropped_messages other))
    on_parked_other state SendResult.closed i other parked =
        unsubscribe_other cache paths o id (closing state) [] [] i other refl
        ∙ same_pipe refl
            (remove_at_other cache paths o i a.slow_send_futures k id entry msg at other) refl
            (ap queue_of (removed_other id i a.parked other)) refl refl
            (ap or_zero (lookup-insert_other i id _ a.dropped_messages other))

    module _ (fine : IsFine (view cache paths o id (at_rest cache paths o a))) where
      only :
          (sends_of id a.slow_send_futures ≡ msg ∷ []) × (sends_of id left.slow_send_futures ≡ [])
      only =
          remove_at_self cache paths o id a.slow_send_futures k entry msg at
            (let h = fine.one in omega arith)

      abbrev ac : List (MessageType D)
      ac = accepted_by id a.log

      abbrev off : List (MessageType D)
      off = offered_to id a.log

      abbrev d : ℕ
      d = or_zero (Map.lookup id a.dropped_messages)

      module _ (state : ParkedState Sender (MessageType D))
          (parked : Map.lookup id a.parked ≡ some state) where
        live : (view cache paths o id (at_rest cache paths o a)).registered ≡ true
        live = fine.known (ap (λ q. is_some (queue_of q)) parked)

        parked-IsFine : IsFine (pipe true (msg ∷ []) [] (some state.queue) ac off d)
        unfolding sends_of
        parked-IsFine =
            let e : view cache paths o id (at_rest cache paths o a)
                ≡ pipe true (msg ∷ []) [] (some state.queue) ac off d =
              same_pipe live only.0 refl (ap queue_of parked) refl refl refl in
            rw e at fine

        on_parked-IsFine :
            (result : SendResult)
            → IsFine (
                view cache paths o id
                  (at_rest cache paths o (on_parked cache paths o id state result (after result))))
        unfolding sends_of
        on_parked-IsFine delivered =
            drain_parked-IsFine cache paths o id (after delivered) state parked (record {
              live = live;
              out = only.1;
              free = removed_none id a.parked;
              draining =
                  rw (accepted_self id a.log msg, offered_accepted id a.log msg id)
                    (parked_delivered msg ac off d state.queue parked-IsFine);
            })
        on_parked-IsFine timeout =
            drain_parked-IsFine cache paths o id (dropping cache paths o 1 id left) state parked
              (record {
                live = live;
                out = only.1;
                free = removed_none id a.parked;
                draining =
                    rw (lookup-insert_self id ((d + 1) % u64_mod) a.dropped_messages)
                      (parked_timeout msg ac off d state.queue parked-IsFine);
              })
        on_parked-IsFine SendResult.closed =
            let e : gone (view cache paths o id (at_rest cache paths o (closing state)))
                ≡ pipe false [] [] none ac off
                    (or_zero (Map.lookup id (closing state).dropped_messages)) =
              same_pipe refl only.1 refl refl refl refl refl in
            rw (unsubscribe_self cache paths o id (closing state) [] [], e)
              (parked_closed msg ac off d state.queue parked-IsFine _)

      ended-IsFine :
          Map.lookup id a.parked ≡ none
          → (result : SendResult)
          → IsFine (view cache paths o id (at_rest cache paths o (after result)))
      unfolding sends_of
      ended-IsFine free result =
          let e : view cache paths o id (at_rest cache paths o a)
              ≡ pipe (view cache paths o id (at_rest cache paths o a)).registered (msg ∷ []) [] none
                  ac off d =
            same_pipe refl only.0 refl (ap queue_of free) refl refl refl in
          rw (landed_view result) (
            unparked-IsFine msg ac off d
              (view cache paths o id (at_rest cache paths o a)).registered result (rw e at fine))
        where
          landed_view :
              (result : SendResult)
              → view cache paths o id (at_rest cache paths o (after result))
                ≡ pipe
                    (view cache paths o id (at_rest cache paths o a)).registered
                    []
                    []
                    none
                    (landed result msg ac)
                    off
                    d
          landed_view delivered =
              same_pipe refl only.1 refl (ap queue_of free) (accepted_self id a.log msg)
                (offered_accepted id a.log msg id) refl
          landed_view timeout = same_pipe refl only.1 refl (ap queue_of free) refl refl refl
          landed_view SendResult.closed =
              same_pipe refl only.1 refl (ap queue_of free) refl refl refl

    parked_after :
        (result : SendResult) → Map.lookup id (after result).parked ≡ Map.lookup id a.parked
    parked_after delivered = refl
    parked_after timeout = refl
    parked_after SendResult.closed = refl

    handle_slow_send-AllFine :
        (result : SendResult)
        → AllFine cache paths o (at_rest cache paths o a)
        → AllFine cache paths o
            (at_rest cache paths o (handle_slow_send cache paths o id result (after result)))
    unfolding handle_slow_send
    handle_slow_send-AllFine result fine i = elim (Option-cases (Map.lookup id a.parked)) [
      | inl free ↦
          rw (parked_after result ∙ free, handle_slow_send)
            (elim (Bool-cases (id == i)) [
              | inl here ↦
                  rw (sym (eq_sound {a = id} {b = i} here)) (ended-IsFine (fine id) free result)
              | inr other ↦ rw (ended_other result i other) (fine i)
            ])
      | inr (state, parked) ↦
          rw (parked_after result ∙ parked, handle_slow_send)
            (elim (Bool-cases (id == i)) [
              | inl here ↦
                  rw (sym (eq_sound {a = id} {b = i} here))
                    (on_parked-IsFine (fine id) state parked result)
              | inr other ↦ rw (on_parked_other state result i other parked) (fine i)
            ])
    ]

    handle_slow_send_other :
        (result : SendResult) (i : SubscriptionId)
        → (id == i) ≡ false
        → view cache paths o i
            (at_rest cache paths o (handle_slow_send cache paths o id result (after result)))
          ≡ view cache paths o i (at_rest cache paths o a)
    unfolding handle_slow_send
    handle_slow_send_other result i other = elim (Option-cases (Map.lookup id a.parked)) [
      | inl free ↦ rw (parked_after result ∙ free, handle_slow_send) (ended_other result i other)
      | inr (state, parked) ↦
          rw (parked_after result ∙ parked, handle_slow_send)
            (on_parked_other state result i other parked)
    ]

  -- A subscription without a slow send sees nothing of the end of one.
  pub slow_send_other :
      (k : ℕ) (result : SendResult) (a : State cache paths o) (i : SubscriptionId)
      → sends_of i a.slow_send_futures ≡ []
      → view cache paths o i (at_rest cache paths o (slow_send cache paths o k result a))
        ≡ view cache paths o i (at_rest cache paths o a)
  unfolding slow_send
  slow_send_other k result a i idle = elim (Option-cases (get_elem? a.slow_send_futures k)) [
    | inl e ↦ rw (e, slow_send) refl
    | inr ((id, entry, msg), e) ↦
        rw (e, slow_send)
          (handle_slow_send_other a k id entry msg e result i (elim (Bool-cases (id == i)) [
            | inr other ↦ other
            | inl here ↦ absurd (
                let idle' = rw (sym (eq_sound {a = id} {b = i} here)) at idle in
                let only =
                  remove_at_self cache paths o id a.slow_send_futures k entry msg e
                    (let n = ap length idle' in omega arith) in
                cc)
          ]))
  ]

  -- Whatever slow send ends, and however.
  pub slow_send-AllFine :
      (k : ℕ) (result : SendResult) (a : State cache paths o)
      → AllFine cache paths o (at_rest cache paths o a)
      → AllFine cache paths o (at_rest cache paths o (slow_send cache paths o k result a))
  unfolding slow_send
  slow_send-AllFine k result a fine = elim (Option-cases (get_elem? a.slow_send_futures k)) [
    | inl e ↦ rw (e, slow_send) fine
    | inr ((id, entry, msg), e) ↦
        rw (e, slow_send) (handle_slow_send-AllFine a k id entry msg e result fine)
  ]
