-- ===== src/Client/Manager/Sound/Turn.antt =====
-- The loop of the subscription manager, and the states that it reaches.
use mqtt_typed_client_next.Base.{
  ℕ, ◌&&◌, ◌==◌, suc, ◌+◌, ◌<◌, ◌≤◌, ◌%◌, Bool, true, false, Option, none, some, List, [], ◌∷◌, ok,
  ◌≡◌, refl, sym, nat_Eq, ap, ◌∙◌, Bool-cases, All, inl, inr, arith, length, length-append,
  Sublistᴰ, ok-injective,
}
use mqtt_typed_client_next.Base.Map
use mqtt_typed_client_next.Base.Sublists.{Sublistᴰ-drop_tail}
use mqtt_typed_client_next.Base.Text.{Text}
use mqtt_typed_client_next.Topic.Cache.{LruCache}
use mqtt_typed_client_next.Topic.TopicMatch.{TopicPath, TopicMatch}
use mqtt_typed_client_next.Topic.Router.{SubscriptionId, usize_mod}
use mqtt_typed_client_next.Topic.Router.Invariant.{empty_router-IsLinked}
use mqtt_typed_client_next.Client.Manager.{
  MessageType, Outside, ParkedState, SendResult, or_zero, u64_mod,
}
use mqtt_typed_client_next.Client.Manager.Handlers.{State}
use mqtt_typed_client_next.Client.Manager.Requests.{handle_resubscribe_all}
use mqtt_typed_client_next.Client.Manager.Run.{
  Command, Event, new_actor, turn, run, cleanup_active_subscriptions,
}
use mqtt_typed_client_next.Client.Manager.Pipe.{IsFine, is_some, or_nil}
use mqtt_typed_client_next.Client.Manager.Pipe.Drain.{finished-IsFine}
use mqtt_typed_client_next.Client.Manager.View.{
  view, at_rest, sends_of, accepted_by, offered_to, queue_of,
}
use mqtt_typed_client_next.Client.Manager.Sound.{
  IsSound, handle_unsubscribe-IsSound, slow_send-IsSound, handle_send-IsSound,
}
use mqtt_typed_client_next.Client.Manager.Sound.Channels.{
  CommandOpens, EventFits, EventOpens, fits_opens, turn_opens,
}
use mqtt_typed_client_next.Client.Manager.Sound.Subscribe.{handle_subscribe-opened}

is_some-queue_of :
    {S M : Type 0} (parked : Option (ParkedState S M)) → is_some (queue_of parked) ≡ is_some parked
is_some-queue_of none = refl
is_some-queue_of (some state) = refl

and_true : {b : Bool} → (b && true) ≡ b
and_true {b = true} = refl
and_true {b = false} = refl

parked_where :
    (registered parked : Bool) (out : ℕ)
    → out ≤ 1
    → (parked ≡ true → registered ≡ true)
    → (parked ≡ true → out ≡ 1)
    → (registered ≡ true → parked ≡ false → out ≡ 0)
    → parked ≡ (registered && (out == 1))
parked_where true true out one known busy idle = rw (busy refl) refl
parked_where true false out one known busy idle = rw (idle refl refl) refl
parked_where false true out one known busy idle = absurd (let h = known refl in cc)
parked_where false false out one known busy idle = refl

module _ {D : Type 0} (cache : LruCache Text TopicMatch) (paths : LruCache Text TopicPath)
    (o : Outside (MessageType D)) where
  open o use {World, Sender, Unsubscriber}

  abbrev Turned : ℕ → Event cache paths o → State cache paths o → Type 0
  Turned n event a =
      (a' : State cache paths o) × (go : Bool) × (n' : ℕ) × (turn cache paths o event a
        ≡ ok (a', go))
      × IsSound cache paths o n' a'
      × (n' ≤ n + 1)

  resubscribe_all-IsSound :
      (n : ℕ) (a : State cache paths o)
      → IsSound cache paths o n a
      → IsSound cache paths o n (handle_resubscribe_all cache paths o a).0
  unfolding handle_resubscribe_all
  resubscribe_all-IsSound n a s = record { fine = s.fine; kept = s.kept; unused = s.unused }

  command-Turned :
      (n : ℕ) (c : Command cache paths o) (a : State cache paths o)
      → n + 1 < usize_mod
      → IsSound cache paths o n a
      → CommandOpens cache paths o c a.world
      → Turned n (Event.command c) a
  unfolding turn
  command-Turned n (Command.subscribe topic config listens) a room s (opened, opens) =
      let (a', response, e, s', entries) =
        handle_subscribe-opened cache paths o n a s room topic config listens opened opens in
      (a', true, n + 1, rw (e, turn) refl, s', omega arith)
  command-Turned n (Command.send message) a room s h =
      let (a', e, s') = handle_send-IsSound cache paths o n a s message in
      (a', true, n, rw (e, turn) refl, s', omega arith)
  command-Turned n Command.resubscribe_all a room s h =
      (_, true, n, refl, resubscribe_all-IsSound n a s, omega arith)
  command-Turned n Command.shutdown a room s h = (a, false, n, refl, s, omega arith)

  turn_sound :
      (n : ℕ) (event : Event cache paths o) (a : State cache paths o)
      → n + 1 < usize_mod
      → IsSound cache paths o n a
      → EventOpens cache paths o event a.world
      → Turned n event a
  unfolding turn
  turn_sound n Event.shutdown_signal a room s h = (a, false, n, refl, s, omega arith)
  turn_sound n Event.commands_closed a room s h = (a, false, n, refl, s, omega arith)
  turn_sound n (Event.slow_send_ended k result) a room s h =
      (_, true, n, refl, slow_send-IsSound cache paths o n k result a s, omega arith)
  turn_sound n (Event.command c) a room s h = command-Turned n c a room s h
  turn_sound n (Event.unsubscribe_request id) a room s h =
      (_, true, n, refl, handle_unsubscribe-IsSound cache paths o n id a s, omega arith)

  -- In a sound state whose next id is not the last one, whatever event is next, but that a
  -- subscription asks for a channel capacity that is 0 or above the limit of the channels, the loop
  -- takes it up without a panic and reaches a sound state, whose next id is at most one higher.
  pub turn-IsSound :
      (n : ℕ) (event : Event cache paths o) (a : State cache paths o)
      → n + 1 < usize_mod
      → IsSound cache paths o n a
      → EventFits cache paths o event
      → (a' : State cache paths o) × (go : Bool) × (n' : ℕ) × (turn cache paths o event a
          ≡ ok (a', go))
        × IsSound cache paths o n' a'
        × (n' ≤ n + 1)
  turn-IsSound n event a room s fits =
      turn_sound n event a room s (fits_opens cache paths o event a.world fits)

  pub new_actor-IsSound :
      (capacity : ℕ) (tx : Unsubscriber) (w : World)
      → IsSound cache paths o 0 (new_actor cache paths o capacity tx w)
  unfolding new_actor Map.lookup sends_of accepted_by offered_to
  new_actor-IsSound capacity tx w = record {
    fine = λ i. finished-IsFine [] [] 0 0 Sublistᴰ.slnil;
    kept = (empty_router-IsLinked, refl);
    unused = λ i below. (refl, refl, refl, refl);
  }

  run_from-ok :
      (n : ℕ) (events : List (Event cache paths o)) (grace : List (ℕ × SendResult))
      (a : State cache paths o)
      → n + length events < usize_mod
      → IsSound cache paths o n a
      → All (EventFits cache paths o) events
      → (a' : State cache paths o) × (run cache paths o events grace a ≡ ok a')
  unfolding run
  run_from-ok n [] grace a room s fits = (a, refl)
  run_from-ok n (event ∷ events) grace a room s (fits, more) =
      let (a', go, n', e, s', h) = turn-IsSound n event a (omega arith) s fits in
      elim (Bool-cases go) [
        | inl on ↦
            let (b, e') = run_from-ok n' events grace a' (omega arith) s' more in
            (b, rw (e, run, on) e')
        | inr off ↦ (cleanup_active_subscriptions cache paths o grace a', rw (e, run, off) refl)
      ]

  -- From the start of the actor, whatever fewer than 2^64 events come, in which no subscription asks
  -- for a channel capacity that is 0 or above the limit of the channels, and however the slow sends
  -- and the calls of the broker end, the loop never panics.
  pub run-ok :
      (capacity : ℕ) (tx : Unsubscriber) (w : World) (events : List (Event cache paths o))
      (grace : List (ℕ × SendResult))
      → length events < usize_mod
      → All (EventFits cache paths o) events
      → (a : State cache paths o) × (run cache paths o events grace
            (new_actor cache paths o capacity tx w)
          ≡ ok a)
  run-ok capacity tx w events grace room fits =
      run_from-ok 0 events grace (new_actor cache paths o capacity tx w) (omega arith)
        (new_actor-IsSound capacity tx w) fits

  -- The states that an actor reaches in so many turns.
  pub data Reachable (a : State cache paths o) : ℕ → State cache paths o → Type 0 where
    start : Reachable a 0 a
    step :
        {k : ℕ} {b c : State cache paths o} (event : Event cache paths o) (go : Bool)
        → Reachable a k b
        → turn cache paths o event b ≡ ok (c, go)
        → Reachable a (suc k) c

  module _ (capacity : ℕ) (tx : Unsubscriber) (w : World) where
    pub reachable-IsSound :
        (k : ℕ) (a : State cache paths o)
        → Reachable (new_actor cache paths o capacity tx w) k a
        → k < usize_mod
        → (n : ℕ) × IsSound cache paths o n a × (n ≤ k)
    reachable-IsSound k a start room = (0, new_actor-IsSound capacity tx w, omega arith)
    reachable-IsSound k' a (step {k = k} {b = b} event go r e) room =
        let (n, s, below) = reachable-IsSound k b r (omega arith) in
        let (a', go', n', e', s', h) =
          turn_sound n event b (omega arith) s (turn_opens cache paths o event b (a, go) e) in
        let same : a' ≡ a = ap (λ x. x.0) (ok-injective (sym e' ∙ e)) in
        (n', rw (sym same) s', omega arith)

    module _ (k : ℕ) (a : State cache paths o)
        (r : Reachable (new_actor cache paths o capacity tx w) k a) (room : k < usize_mod)
        (i : SubscriptionId) where
      seen-IsFine : IsFine (view cache paths o i (at_rest cache paths o a))
      seen-IsFine = let (n, s, h) = reachable-IsSound k a r room in s.fine i

      -- In every state that the actor reaches in fewer than 2^64 turns, the messages that the channel
      -- of a subscription has accepted are some of those offered to it, in the order in which they
      -- were offered, each at most as often: slow sends, queues and drops reorder nothing.
      pub reachable_in_order : Sublistᴰ (accepted_by i a.log) (offered_to i a.log)
      reachable_in_order = Sublistᴰ-drop_tail (accepted_by i a.log) _ seen-IsFine.order

      -- In every such state, a registered subscription has lost no message unseen: those accepted,
      -- those of its slow send and of the queue behind it, and the drop counter make up those
      -- offered, modulo the width of the counter.
      pub reachable_counted :
          is_some (Map.lookup i a.topic_router.subscriptions) ≡ true
          → (length (accepted_by i a.log)
                + length (sends_of i a.slow_send_futures)
                + length (or_nil (queue_of (Map.lookup i a.parked)))
                + or_zero (Map.lookup i a.dropped_messages))
              % u64_mod
            ≡ length (offered_to i a.log) % u64_mod
      unfolding sends_of
      reachable_counted there =
          let h = seen-IsFine.count (rw there refl) in
          let l =
            length-append (sends_of i a.slow_send_futures)
              (or_nil (queue_of (Map.lookup i a.parked))) in
          omega arith

      registered_queue :
          is_some (queue_of (Map.lookup i a.parked)) ≡ is_some (Map.lookup i a.parked)
      registered_queue = is_some-queue_of (Map.lookup i a.parked)

      -- In every such state, at most one slow send of a subscription is out, and a subscription is
      -- parked exactly where it is registered and one is out.
      pub reachable_parked :
          (length (sends_of i a.slow_send_futures) ≤ 1)
          × (is_some (Map.lookup i a.parked) ≡ (
              is_some (Map.lookup i a.topic_router.subscriptions)
              && (length (sends_of i a.slow_send_futures) == 1)))
      unfolding sends_of
      reachable_parked = (
        (let h = seen-IsFine.one in omega arith),
        sym registered_queue
            ∙ parked_where (is_some (Map.lookup i a.topic_router.subscriptions))
                (is_some (queue_of (Map.lookup i a.parked)))
                (length (sends_of i a.slow_send_futures)) (let h = seen-IsFine.one in omega arith)
                (λ q. rw and_true at (seen-IsFine.known q)) seen-IsFine.busy
                (λ there. seen-IsFine.idle (rw there refl)),
      )
