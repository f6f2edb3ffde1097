-- ===== src/Client/Manager/Sound.antt =====
-- What holds of the actor between two events.
pub mod Subscribe
pub mod Channels
pub mod Turn
use mqtt_typed_client_next.Base.{
  ℕ, ◌+◌, ◌<◌, ◌≤◌, Bool, true, false, Option, none, some, List, [], ◌∷◌, Result, ok, err, ◌>>=◌,
  ◌≡◌, refl, sym, nat_Eq, ◌==◌, ap, ◌∙◌, Bool-cases, Option-cases, inl, inr, Memᴰ, arith, eq_sound,
  eq_refl, nat_eq_iff,
}
use mqtt_typed_client_next.Base.Map
use mqtt_typed_client_next.Base.Text.{Text}
use mqtt_typed_client_next.Topic.Cache.{LruCache}
use mqtt_typed_client_next.Topic.TopicMatch.{TopicPath, TopicMatch, texts}
use mqtt_typed_client_next.Topic.Router.{
  SubscriptionId, Registered, Subscriber, get_subscribers, concat,
}
use mqtt_typed_client_next.Topic.Router.Invariant.{IsLinked}
use mqtt_typed_client_next.Topic.Router.Delivery.{get_subscribers_iff}
use mqtt_typed_client_next.Topic.Router.Distinct.{
  DistinctIds, get_subscribers-DistinctIds, with_patterns-Memᴰ,
}
use mqtt_typed_client_next.Client.Manager.{
  MessageType, RawMessageType, RawMeta, MessageMeta, new_meta, Outside, SendResult,
}
use mqtt_typed_client_next.Client.Manager.Handlers.{
  State, Sending, Entry, handle_unsubscribe, handle_send, send_loop, finish_send, topic_path_of,
  unsubscribe_all, start_parks,
}
use mqtt_typed_client_next.Client.Manager.Kept.{
  IsKept, AreHeld, handle_unsubscribe_kept, unsubscribe_all_kept, start_parks_kept, slow_send_kept,
  send_loop_kept,
}
use mqtt_typed_client_next.Client.Manager.Run.{slow_send}
use mqtt_typed_client_next.Client.Manager.View.{view, at_rest, sends_of}
use mqtt_typed_client_next.Client.Manager.View.Send.{
  AllFine, IsReady, send_loop-AllFine, send_loop_other,
}
use mqtt_typed_client_next.Client.Manager.View.Finish.{
  finish_send-AllFine, handle_unsubscribe-keeps,
}
use mqtt_typed_client_next.Client.Manager.View.SlowEnd.{slow_send-AllFine, slow_send_other}
use mqtt_typed_client_next.Client.Manager.View.Unused.{
  IsUnused, IsUnused-as, IsUnused-unsubscribe, IsUnused-finish,
}

module _ {D : Type 0} (cache : LruCache Text TopicMatch) (paths : LruCache Text TopicPath)
    (o : Outside (MessageType D)) where
  open o use {World, Sender}

  -- Every subscription is fine, the router is linked, and ids from the next one on are unused.
  pub record IsSound (n : ℕ) (a : State cache paths o) : Type 0 where
    pub fine : AllFine cache paths o (at_rest cache paths o a)
    pub kept : IsKept cache paths o n a
    pub unused :
        (i : SubscriptionId) → n ≤ i → IsUnused (view cache paths o i (at_rest cache paths o a))

  pub handle_unsubscribe-IsSound :
      (n : ℕ) (id : SubscriptionId) (a : State cache paths o)
      → IsSound n a
      → IsSound n (handle_unsubscribe cache paths o id a)
  handle_unsubscribe-IsSound n id a s = record {
    fine = handle_unsubscribe-keeps cache paths o id a s.fine;
    kept = handle_unsubscribe_kept cache paths o n id a s.kept;
    unused = λ i below. IsUnused-unsubscribe cache paths o i id [] [] a (s.unused i below);
  }

  pub slow_send-IsSound :
      (n k : ℕ) (result : SendResult) (a : State cache paths o)
      → IsSound n a
      → IsSound n (slow_send cache paths o k result a)
  slow_send-IsSound n k result a s = record {
    fine = slow_send-AllFine cache paths o k result a s.fine;
    kept = slow_send_kept cache paths o n k result a s.kept;
    unused = λ i below.
        let u = s.unused i below in
        IsUnused-as
          (view cache paths o i (at_rest cache paths o (slow_send cache paths o k result a)))
          (view cache paths o i (at_rest cache paths o a))
          (slow_send_other cache paths o k result a i u.0) u;
  }

  module _ (n : ℕ) (a : State cache paths o) (s : IsSound n a) (topic : List Text)
      (l : List (Subscriber cache.Cache (Entry cache paths o)))
      (run : get_subscribers a.topic_router topic ≡ ok l) where
    registered_as :
        (id : SubscriptionId) (r : Registered cache.Cache) (entry : Entry cache paths o)
        → Memᴰ (id, r, entry) l
        → Map.lookup id a.topic_router.subscriptions ≡ some r
    unfolding get_subscribers
    registered_as id r entry m =
        (with_patterns-Memᴰ a.topic_router.subscriptions _ l run id r entry m).1

    all-IsReady :
        (id : SubscriptionId) (r : Registered cache.Cache) (entry : Entry cache paths o)
        → Memᴰ (id, r, entry) l
        → IsReady cache paths o id (at_rest cache paths o a)
    unfolding sends_of
    all-IsReady id r entry m = (rw (registered_as id r entry m) refl, refl)

    below_next :
        (id : SubscriptionId) (r : Registered cache.Cache) (entry : Entry cache paths o)
        → Memᴰ (id, r, entry) l
        → id < n
    below_next id r entry m = rw (sym s.kept.1) (s.kept.0.fresh id r (registered_as id r entry m))

    module _ (path : TopicPath) (meta : MessageMeta) (payload : D) (c : paths.Cache) where
      -- The state in which the loop of `handle_send` starts, and the one in which it ends.
      abbrev first : Sending cache paths o
      first = record {
        actor = record a { topic_path_cache = c };
        closed_subscribers = [];
        new_parks = [];
      }

      abbrev last : Sending cache paths o
      last = send_loop cache paths o path meta payload l first

      distinct : DistinctIds l
      distinct = get_subscribers-DistinctIds a.topic_router s.kept.0 topic l run

      last-IsUnused : (i : SubscriptionId) → n ≤ i → IsUnused (view cache paths o i last)
      last-IsUnused i below =
          IsUnused-as (view cache paths o i last) (view cache paths o i first)
            (send_loop_other cache paths o path meta payload i l first distinct all-IsReady
              (λ id r entry m. let h = below_next id r entry m in ground (arith, nat_eq_iff id i)))
            (s.unused i below)

      last_kept : IsKept cache paths o n last.actor
      last_kept =
          send_loop_kept cache paths o n path meta payload l first
            (λ id r entry m. (r, registered_as id r entry m, refl)) s.kept

      sending-IsSound : IsSound n (finish_send cache paths o last)
      sending-IsSound = record {
        fine =
            finish_send-AllFine cache paths o last (
              send_loop-AllFine cache paths o path meta payload l first distinct all-IsReady
                s.fine);
        kept =
            unsubscribe_all_kept cache paths o n last.closed_subscribers
              (start_parks cache paths o last.new_parks last.actor)
              (start_parks_kept cache paths o n last.new_parks last.actor last_kept);
        unused = λ i below. IsUnused-finish cache paths o i last (last-IsUnused i below);
      }

  -- In a sound state, `handle_send` does not panic, and the state after it is sound.
  pub handle_send-IsSound :
      (n : ℕ) (a : State cache paths o)
      → IsSound n a
      → (message : RawMessageType D)
      → (a' : State cache paths o) × (handle_send cache paths o message a ≡ ok a') × IsSound n a'
  unfolding handle_send
  handle_send-IsSound n a s (topic_str, raw_meta, payload) =
      let (path, c) = topic_path_of cache paths o topic_str a.topic_path_cache in
      let (l, run, iff) = get_subscribers_iff a.topic_router s.kept.0 (texts path) in
      let meta = new_meta raw_meta.qos raw_meta.retain raw_meta.dup in
      (
        finish_send cache paths o (last n a s (texts path) l run path meta payload c),
        rw (run, handle_send) refl,
        sending-IsSound n a s (texts path) l run path meta payload c,
      )
