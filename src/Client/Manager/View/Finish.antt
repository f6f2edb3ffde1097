-- ===== src/Client/Manager/View/Finish.antt =====
-- The two loops at the end of `handle_send`, and `handle_unsubscribe`.
use mqtt_typed_client_next.Base.{
  false, none, List, [], ◌∷◌, any, ◌≡◌, refl, sym, nat_Eq, ◌==◌, ap, ◌∙◌, eq_refl, eq_sound,
  Bool-cases, inl, inr, arith, length,
}
use mqtt_typed_client_next.Base.Map
use mqtt_typed_client_next.Base.Text.{Text}
use mqtt_typed_client_next.Topic.Cache.{LruCache}
use mqtt_typed_client_next.Topic.TopicMatch.{TopicPath, TopicMatch}
use mqtt_typed_client_next.Topic.Router.{SubscriptionId}
use mqtt_typed_client_next.Topic.Router.Unsubscribe.{lookup-unsubscribe}
use mqtt_typed_client_next.Client.Manager.{MessageType, Outside, SlowSend}
use mqtt_typed_client_next.Client.Manager.Handlers.{
  State, Sending, Entry, handle_unsubscribe, push_slow_send, park, start_parks, unsubscribe_all,
  finish_send,
}
use mqtt_typed_client_next.Client.Manager.Pipe.{IsFine, start, gone}
use mqtt_typed_client_next.Client.Manager.Pipe.Laws.{start-IsFine, gone-IsFine, nil_of_length}
use mqtt_typed_client_next.Client.Manager.View.{sends_of, same_pipe, view, queue_of, at_rest}
use mqtt_typed_client_next.Client.Manager.View.Lists.{sends_of-snoc_self, sends_of-snoc_other}
use mqtt_typed_client_next.Client.Manager.View.Offer.{lookup-insert_other, lookup-insert_self}
use mqtt_typed_client_next.Client.Manager.View.Send.{AllFine}

pub removed_none :
    {V : Type 0} (id : SubscriptionId) (m : List (SubscriptionId × V))
    → Map.lookup id (Map.remove id m) ≡ none
removed_none id m = Map.lookup-remove id id m ∙ rw (eq_refl id) refl

pub removed_other :
    {V : Type 0} (id i : SubscriptionId) (m : List (SubscriptionId × V))
    → (id == i) ≡ false
    → Map.lookup i (Map.remove id m) ≡ Map.lookup i m
removed_other id i m other = Map.lookup-remove i id m ∙ rw other refl

module _ {D : Type 0} (cache : LruCache Text TopicMatch) (paths : LruCache Text TopicPath)
    (o : Outside (MessageType D)) where
  open o use {World, Sender}

  abbrev pub between :
      State cache paths o
      → List SubscriptionId
      → List (SlowSend Sender (MessageType D))
      → Sending cache paths o
  between a ids parks = record { actor = a; closed_subscribers = ids; new_parks = parks }

  module _ (id : SubscriptionId) (a : State cache paths o) (ids ids' : List SubscriptionId) where
    pub unsubscribe_self :
        view cache paths o id (between (handle_unsubscribe cache paths o id a) ids [])
        ≡ gone (view cache paths o id (between a ids' []))
    unfolding handle_unsubscribe
    unsubscribe_self =
        same_pipe (rw (lookup-unsubscribe a.topic_router id id, eq_refl id) refl) refl refl
          (ap queue_of (removed_none id a.parked)) refl refl refl

    pub unsubscribe_other :
        (i : SubscriptionId)
        → (id == i) ≡ false
        → any (λ j. j == i) ids ≡ any (λ j. j == i) ids'
        → view cache paths o i (between (handle_unsubscribe cache paths o id a) ids [])
          ≡ view cache paths o i (between a ids' [])
    unfolding handle_unsubscribe
    unsubscribe_other i other same =
        same_pipe (rw (lookup-unsubscribe a.topic_router id i, other, same) refl) refl refl
          (ap queue_of (removed_other id i a.parked other)) refl refl refl

    handle_unsubscribe-AllFine :
        ((i : SubscriptionId) → (id == i) ≡ false → any (λ j. j == i) ids ≡ any (λ j. j == i) ids')
        → AllFine cache paths o (between a ids' [])
        → AllFine cache paths o (between (handle_unsubscribe cache paths o id a) ids [])
    unfolding sends_of
    handle_unsubscribe-AllFine same fine i = elim (Bool-cases (id == i)) [
      | inl here ↦ rw (sym (eq_sound {a = id} {b = i} here)) (
          rw unsubscribe_self
            (gone-IsFine (view cache paths o id (between a ids' [])) refl (fine id)))
      | inr other ↦ rw (unsubscribe_other i other (same i other)) (fine i)
    ]

  any_passed :
      (id i : SubscriptionId) (ids : List SubscriptionId)
      → (id == i) ≡ false
      → any (λ j. j == i) ids ≡ any (λ j. j == i) (id ∷ ids)
  any_passed id i ids other = rw other refl

  unsubscribe_all-AllFine :
      (ids : List SubscriptionId) (a : State cache paths o)
      → AllFine cache paths o (between a ids [])
      → AllFine cache paths o (at_rest cache paths o (unsubscribe_all cache paths o ids a))
  unfolding unsubscribe_all
  unsubscribe_all-AllFine [] a fine = fine
  unsubscribe_all-AllFine (id ∷ ids) a fine =
      unsubscribe_all-AllFine ids (handle_unsubscribe cache paths o id a)
        (handle_unsubscribe-AllFine id a ids (id ∷ ids) (λ i other. any_passed id i ids other) fine)

  module _ (id : SubscriptionId) (entry : Entry cache paths o) (msg : MessageType D)
      (parks : List (SlowSend Sender (MessageType D))) (a : State cache paths o)
      (ids : List SubscriptionId) where
    abbrev started : State cache paths o
    started = push_slow_send cache paths o entry id msg (park cache paths o id entry [] a)

    start_other :
        (i : SubscriptionId)
        → (id == i) ≡ false
        → view cache paths o i (between started ids parks)
          ≡ view cache paths o i (between a ids ((id, entry, msg) ∷ parks))
    unfolding sends_of
    start_other i other =
        same_pipe refl (sends_of-snoc_other i a.slow_send_futures id entry msg other)
          (rw (other, sends_of) refl) (ap queue_of (lookup-insert_other i id _ a.parked other)) refl
          refl refl

    start_self :
        length (sends_of id parks) ≡ 0
        → view cache paths o id (between started ids parks)
          ≡ start (view cache paths o id (between a ids ((id, entry, msg) ∷ parks)))
    unfolding sends_of
    start_self none_left =
        let e = nil_of_length (sends_of id parks) none_left in
        rw (eq_refl id, sends_of)
          (same_pipe refl (sends_of-snoc_self id a.slow_send_futures entry msg ∙ rw e refl) e
            (ap queue_of (lookup-insert_self id _ a.parked)) refl refl refl)

    none_left :
        IsFine (view cache paths o id (between a ids ((id, entry, msg) ∷ parks)))
        → length (sends_of id parks) ≡ 0
    unfolding sends_of
    none_left fine = let h = rw (eq_refl id, sends_of) at fine.one in omega arith

    start-AllFine :
        AllFine cache paths o (between a ids ((id, entry, msg) ∷ parks))
        → AllFine cache paths o (between started ids parks)
    start-AllFine fine i = elim (Bool-cases (id == i)) [
      | inl here ↦ rw (sym (eq_sound {a = id} {b = i} here)) (
          rw (start_self (none_left (fine id))) (
            start-IsFine (view cache paths o id (between a ids ((id, entry, msg) ∷ parks)))
              (fine id)))
      | inr other ↦ rw (start_other i other) (fine i)
    ]

  start_parks-AllFine :
      (parks : List (SlowSend Sender (MessageType D))) (a : State cache paths o)
      (ids : List SubscriptionId)
      → AllFine cache paths o (between a ids parks)
      → AllFine cache paths o (between (start_parks cache paths o parks a) ids [])
  unfolding start_parks
  start_parks-AllFine [] a ids fine = fine
  start_parks-AllFine ((id, entry, msg) ∷ parks) a ids fine =
      start_parks-AllFine parks (started id entry msg parks a ids) ids
        (start-AllFine id entry msg parks a ids fine)

  -- The end of `handle_send`.
  pub finish_send-AllFine :
      (st : Sending cache paths o)
      → AllFine cache paths o st
      → AllFine cache paths o (at_rest cache paths o (finish_send cache paths o st))
  finish_send-AllFine st fine =
      unsubscribe_all-AllFine st.closed_subscribers
        (start_parks cache paths o st.new_parks st.actor)
        (start_parks-AllFine st.new_parks st.actor st.closed_subscribers fine)

  -- `handle_unsubscribe` between two events.
  pub handle_unsubscribe-keeps :
      (id : SubscriptionId) (a : State cache paths o)
      → AllFine cache paths o (at_rest cache paths o a)
      → AllFine cache paths o (at_rest cache paths o (handle_unsubscribe cache paths o id a))
  handle_unsubscribe-keeps id a fine = handle_unsubscribe-AllFine id a [] [] (λ i other. refl) fine
