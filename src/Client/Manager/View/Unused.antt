-- ===== src/Client/Manager/View/Unused.antt =====
-- An id that no subscription has had yet.
use mqtt_typed_client_next.Base.{List, [], ◌∷◌, ◌≡◌, nat_Eq, ◌==◌, ap, ◌∙◌, Bool-cases, inl, inr}
use mqtt_typed_client_next.Base.Text.{Text}
use mqtt_typed_client_next.Topic.Cache.{LruCache}
use mqtt_typed_client_next.Topic.TopicMatch.{TopicPath, TopicMatch}
use mqtt_typed_client_next.Topic.Router.{SubscriptionId}
use mqtt_typed_client_next.Client.Manager.{MessageType, Outside, SlowSend}
use mqtt_typed_client_next.Client.Manager.Handlers.{
  State, Sending, handle_unsubscribe, push_slow_send, park, start_parks, unsubscribe_all,
  finish_send,
}
use mqtt_typed_client_next.Client.Manager.Pipe.{Pipe}
use mqtt_typed_client_next.Client.Manager.View.{sends_of, view, at_rest}
use mqtt_typed_client_next.Client.Manager.View.Lists.{sends_of-snoc_other}
use mqtt_typed_client_next.Client.Manager.View.Finish.{between}

-- Nothing has been offered to the subscription, and nothing is under way to it.
abbrev pub IsUnused : {M : Type 0} → Pipe M → Type 0
IsUnused p = (p.flight ≡ []) × (p.starting ≡ []) × (p.accepted ≡ []) × (p.offered ≡ [])

pub IsUnused-as : {M : Type 0} (p q : Pipe M) → p ≡ q → IsUnused q → IsUnused p
IsUnused-as p q e (a, b, c, d) = (
  ap (λ r. r.flight) e ∙ a,
  ap (λ r. r.starting) e ∙ b,
  ap (λ r. r.accepted) e ∙ c,
  ap (λ r. r.offered) e ∙ d,
)

module _ {D : Type 0} (cache : LruCache Text TopicMatch) (paths : LruCache Text TopicPath)
    (o : Outside (MessageType D)) (i : SubscriptionId) where
  open o use {World, Sender}

  pub IsUnused-unsubscribe :
      (id : SubscriptionId) (ids ids' : List SubscriptionId) (a : State cache paths o)
      → IsUnused (view cache paths o i (between cache paths o a ids []))
      → IsUnused (
          view cache paths o i
            (between cache paths o (handle_unsubscribe cache paths o id a) ids' []))
  unfolding handle_unsubscribe
  IsUnused-unsubscribe id ids ids' a h = h

  IsUnused-all :
      (ids : List SubscriptionId) (a : State cache paths o)
      → IsUnused (view cache paths o i (between cache paths o a ids []))
      → IsUnused
          (view cache paths o i (at_rest cache paths o (unsubscribe_all cache paths o ids a)))
  unfolding unsubscribe_all
  IsUnused-all [] a h = h
  IsUnused-all (id ∷ ids) a h =
      IsUnused-all ids (handle_unsubscribe cache paths o id a)
        (IsUnused-unsubscribe id (id ∷ ids) ids a h)

  IsUnused-start :
      (parks : List (SlowSend Sender (MessageType D))) (a : State cache paths o)
      (ids : List SubscriptionId)
      → IsUnused (view cache paths o i (between cache paths o a ids parks))
      → IsUnused
          (view cache paths o i (between cache paths o (start_parks cache paths o parks a) ids []))
  unfolding start_parks sends_of
  IsUnused-start [] a ids h = h
  IsUnused-start ((id, entry, msg) ∷ parks) a ids (f, s, c, d) = elim (Bool-cases (id == i)) [
    | inl here ↦ absurd (let s' = rw (here, sends_of) at s in cc)
    | inr other ↦
        IsUnused-start parks
          (push_slow_send cache paths o entry id msg (park cache paths o id entry [] a)) ids
          (
            sends_of-snoc_other i a.slow_send_futures id entry msg other ∙ f,
            rw (other, sends_of) at s,
            c,
            d,
          )
  ]

  pub IsUnused-finish :
      (st : Sending cache paths o)
      → IsUnused (view cache paths o i st)
      → IsUnused (view cache paths o i (at_rest cache paths o (finish_send cache paths o st)))
  IsUnused-finish st h =
      IsUnused-all st.closed_subscribers (start_parks cache paths o st.new_parks st.actor)
        (IsUnused-start st.new_parks st.actor st.closed_subscribers h)
