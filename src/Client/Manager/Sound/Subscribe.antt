-- ===== src/Client/Manager/Sound/Subscribe.antt =====
-- `handle_subscribe` in a sound state.
use mqtt_typed_client_next.Base.{
  ℕ, ◌&&◌, ◌+◌, ◌<◌, Bool, true, false, none, some, [], Result, ok, err, ◌≡◌, refl, sym, nat_Eq,
  ◌==◌, ap, ◌∙◌, Bool-cases, Option-cases, inl, inr, arith, eq_sound, eq_refl, if◌then◌else◌,
}
use mathlib.Core.List.Sublistᴰ
use mqtt_typed_client_next.Base.Map
use mqtt_typed_client_next.Base.Text.{Text}
use mqtt_typed_client_next.Topic.Cache.{LruCache}
use mqtt_typed_client_next.Topic.TopicMatch.{TopicPath, TopicMatch}
use mqtt_typed_client_next.Topic.Router.{
  SubscriptionId, Registered, TopicRouter, usize_mod, add_subscription,
}
use mqtt_typed_client_next.Topic.Router.Invariant.{IsLinked}
use mqtt_typed_client_next.Topic.Router.Store.{unsubscribe_kept}
use mqtt_typed_client_next.Topic.Router.Subscribe.{
  add_subscription-IsLinked, next_id-add_subscription,
}
use mqtt_typed_client_next.Topic.Router.Unsubscribe.{lookup-unsubscribe}
use mqtt_typed_client_next.Topic.Router
use mqtt_typed_client_next.Topic.PatternPath.Binding.{mqtt_pattern}
use mqtt_typed_client_next.Client.Manager.{MessageType, Outside, SubscriptionConfig, or_zero}
use mqtt_typed_client_next.Client.Manager.Handlers.{State, Entry, Pattern, handle_unsubscribe}
use mqtt_typed_client_next.Client.Manager.Requests.{Response, handle_subscribe, asked, respond}
use mqtt_typed_client_next.Client.Manager.Pipe.{IsFine, pipe, is_some, gone}
use mqtt_typed_client_next.Client.Manager.Pipe.Laws.{gone-IsFine}
use mqtt_typed_client_next.Client.Manager.Pipe.Drain.{drained_nil}
use mqtt_typed_client_next.Client.Manager.View.{view, at_rest, sends_of, same_pipe, queue_of}
use mqtt_typed_client_next.Client.Manager.View.Offer.{lookup-insert_other, lookup-insert_self}
use mqtt_typed_client_next.Client.Manager.Sound.{IsSound, handle_unsubscribe-IsSound}

abbrev pub succeeded : {A E : Type 0} → Result A E → Bool
succeeded (ok _) = true
succeeded (err _) = false

module _ {D : Type 0} (cache : LruCache Text TopicMatch) (paths : LruCache Text TopicPath)
    (o : Outside (MessageType D)) (n : ℕ) (a : State cache paths o)
    (s : IsSound cache paths o n a) where
  open o use {World, Sender}

  -- The next id has no entry yet.
  not_registered : Map.lookup n a.topic_router.subscriptions ≡ none
  not_registered = elim (Option-cases (Map.lookup n a.topic_router.subscriptions)) [
    | inl e ↦ e
    | inr (u, e) ↦ absurd (let h = s.kept.0.fresh n u e in let k = s.kept.1 in omega arith)
  ]

  not_parked : Map.lookup n a.parked ≡ none
  not_parked = elim (Option-cases (Map.lookup n a.parked)) [
    | inl e ↦ e
    | inr (state, e) ↦ absurd (
        let h = (s.fine n).known (ap (λ q. is_some (queue_of q)) e) in
        let h' = rw not_registered at h in cc)
  ]

  module _ (r' : TopicRouter cache.Cache (Entry cache paths o)) (new : Registered cache.Cache)
      (linked : IsLinked r') (next : r'.next_id ≡ n + 1)
      (entries : (id : SubscriptionId)
        → Map.lookup id r'.subscriptions
          ≡ (if n == id then some new else Map.lookup id a.topic_router.subscriptions)) where
    -- The state with the new subscription.
    abbrev added : World → State cache paths o
    added w = record a {
      topic_router = r';
      dropped_messages = Map.insert n 0 a.dropped_messages;
      world = w;
    }

    new-IsFine : (w : World) → IsFine (view cache paths o n (at_rest cache paths o (added w)))
    unfolding sends_of
    new-IsFine w =
        let (f, st, ac, off) = s.unused n (omega arith) in
        let e : view cache paths o n (at_rest cache paths o (added w))
            ≡ pipe true [] [] none [] [] 0 =
          same_pipe (rw (entries n, eq_refl n) refl) f refl (ap queue_of not_parked) ac off
            (ap or_zero (lookup-insert_self n 0 a.dropped_messages)) in
        rw e (drained_nil [] [] 0 (record { order = Sublistᴰ.slnil; count = refl }))

    added-IsSound : (w : World) → IsSound cache paths o (n + 1) (added w)
    added-IsSound w = record {
      fine = λ i. elim (Bool-cases (n == i)) [
        | inl here ↦ rw (sym (eq_sound {a = n} {b = i} here)) (new-IsFine w)
        | inr other ↦
            let e : view cache paths o i (at_rest cache paths o (added w))
                ≡ view cache paths o i (at_rest cache paths o a) =
              same_pipe (rw (entries i, other) refl) refl refl refl refl refl
                (ap or_zero (lookup-insert_other i n 0 a.dropped_messages other)) in
            rw e (s.fine i)
      ];
      kept = (linked, next);
      unused = λ i below. s.unused i (omega arith);
    }

    -- The broker has refused.
    abbrev refused : World → State cache paths o
    refused w = record (added w) { topic_router = (Router.unsubscribe r' n).1 }

    refused-IsSound : (w : World) → IsSound cache paths o (n + 1) (refused w)
    unfolding sends_of
    refused-IsSound w =
        let s' = added-IsSound w in
        let (linked', next') = unsubscribe_kept r' linked n in
        record {
          fine = λ i. elim (Bool-cases (n == i)) [
            | inl here ↦
                let e : view cache paths o n (at_rest cache paths o (refused w))
                    ≡ gone (view cache paths o n (at_rest cache paths o (added w))) =
                  same_pipe (rw (lookup-unsubscribe r' n n, eq_refl n) refl) refl refl
                    (ap queue_of not_parked) refl refl refl in
                rw (sym (eq_sound {a = n} {b = i} here)) (
                  rw e (
                    gone-IsFine (view cache paths o n (at_rest cache paths o (added w))) refl
                      (s'.fine n)))
            | inr other ↦
                let e : view cache paths o i (at_rest cache paths o (refused w))
                    ≡ view cache paths o i (at_rest cache paths o (added w)) =
                  same_pipe (rw (lookup-unsubscribe r' n i, other) refl) refl refl refl refl refl
                    refl in
                rw e (s'.fine i)
          ];
          kept = (linked', next' ∙ next);
          unused = s'.unused;
        }

    entries_gone :
        (id : SubscriptionId)
        → Map.lookup id (Router.unsubscribe r' n).1.subscriptions
          ≡ (if n == id then none else Map.lookup id a.topic_router.subscriptions)
    entries_gone id = lookup-unsubscribe r' n id ∙ elim (Bool-cases (n == id)) [
      | inl here ↦ rw here refl
      | inr other ↦ rw (entries id, other) refl
    ]

    -- The state after `handle_subscribe` and its answer.
    abbrev IsOutcome : Bool → State cache paths o × Response cache paths o → Type 0
    IsOutcome listens (a', response) =
        IsSound cache paths o (n + 1) a'
        × ((id : SubscriptionId)
            → Map.lookup id a'.topic_router.subscriptions ≡ (
                if n == id
                then (if succeeded response && listens then some new else none)
                else Map.lookup id a.topic_router.subscriptions))

    respond-IsOutcome :
        (w : World) (listens : Bool) (rx : o.Receiver)
        → IsOutcome listens (respond cache paths o listens n rx (added w))
    unfolding respond handle_unsubscribe
    respond-IsOutcome w true rx = (added-IsSound w, entries)
    respond-IsOutcome w false rx = (
      handle_unsubscribe-IsSound cache paths o (n + 1) n (added w) (added-IsSound w),
      entries_gone,
    )

    asked-IsOutcome :
        (answer : Bool × World) (w : World) (listens : Bool) (rx : o.Receiver)
        → IsOutcome listens (asked cache paths o answer listens n rx (added w))
    asked-IsOutcome (true, w') w listens rx = respond-IsOutcome w' listens rx
    asked-IsOutcome (false, w') w listens rx = (refused-IsSound w', entries_gone)

    tried-IsOutcome :
        (needs : Bool) (answer : Bool × World) (w : World) (listens : Bool) (rx : o.Receiver)
        → IsOutcome listens (
            if needs
            then asked cache paths o answer listens n rx (added w)
            else respond cache paths o listens n rx (added w))
    tried-IsOutcome true answer w listens rx = asked-IsOutcome answer w listens rx
    tried-IsOutcome false answer w listens rx = respond-IsOutcome w listens rx

  -- What `handle_subscribe` does once its channel is made.
  pub handle_subscribe-opened :
      n + 1 < usize_mod
      → (topic : Pattern cache paths o) (config : SubscriptionConfig) (listens : Bool)
        (opened : (o.Sender × o.Receiver) × World)
      → o.channel config.channel_capacity a.world ≡ some opened
      → (a' : State cache paths o) × (response : Response cache paths o) × (handle_subscribe cache
            paths o topic config listens a
          ≡ ok (a', response))
        × IsSound cache paths o (n + 1) a'
        × ((id : SubscriptionId)
            → Map.lookup id a'.topic_router.subscriptions ≡ (
                if n == id
                then (if succeeded response && listens then some (topic, config.qos) else none)
                else Map.lookup id a.topic_router.subscriptions))
  unfolding handle_subscribe
  handle_subscribe-opened room topic config listens ((tx, rx), w) opens =
      let entry : Entry cache paths o = record {
        sender = tx;
        slow_send_timeout = config.slow_send_timeout;
        max_parked_messages = config.max_parked_messages;
      } in
      let (linked, next) = s.kept in
      let room' : a.topic_router.next_id + 1 < usize_mod = rw next room in
      let (needs, r', run, linked', entries, iff) =
        add_subscription-IsLinked a.topic_router linked topic config.qos entry room' in
      let next' : r'.next_id ≡ n + 1 =
        next_id-add_subscription a.topic_router topic config.qos entry
          (needs, a.topic_router.next_id) r' run room'
        ∙ ap (λ k. k + 1) next in
      let answer = o.subscribe (mqtt_pattern topic) config.qos w in
      let out =
        tried-IsOutcome r' (topic, config.qos) linked' next' (rw next at entries) needs answer w
          listens rx in
      (_, _, rw (opens, run, handle_subscribe, next) refl, out.0, out.1)
