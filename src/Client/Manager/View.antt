-- ===== src/Client/Manager/View.antt =====
-- One subscription in the state of the actor.
pub mod Lists
pub mod Offer
pub mod Send
pub mod Finish
pub mod Drain
pub mod RemoveAt
pub mod SlowEnd
pub mod Unused
use mqtt_typed_client_next.Base.{
  ℕ, Bool, true, false, not, ◌&&◌, Option, none, some, List, [], ◌∷◌, ◌++◌, any, ◌≡◌, refl, nat_Eq,
  ◌==◌, if◌then◌else◌,
}
use mqtt_typed_client_next.Base.Map
use mqtt_typed_client_next.Base.Text.{Text}
use mqtt_typed_client_next.Topic.Cache.{LruCache}
use mqtt_typed_client_next.Topic.TopicMatch.{TopicPath, TopicMatch}
use mqtt_typed_client_next.Topic.Router.{SubscriptionId}
use mqtt_typed_client_next.Client.Manager.{
  MessageType, Outside, ParkedState, SlowSend, Note, offered, accepted, or_zero,
}
use mqtt_typed_client_next.Client.Manager.Handlers.{State, Sending, Message}
use mqtt_typed_client_next.Client.Manager.Pipe.{Pipe, is_some}

module _ {S M : Type 0} where
  -- The messages of the slow sends of a subscription.
  unfoldable pub sends_of : SubscriptionId → List (SlowSend S M) → List M
  sends_of i [] = []
  sends_of i ((id, entry, msg) ∷ sends) =
      let rest = sends_of i sends in if id == i then msg ∷ rest else rest

  abbrev pub queue_of : Option (ParkedState S M) → Option (List M)
  queue_of none = none
  queue_of (some state) = some state.queue

module _ {M : Type 0} where
  unfoldable pub accepted_by : SubscriptionId → List (Note M) → List M
  accepted_by i [] = []
  accepted_by i (offered id msg ∷ notes) = accepted_by i notes
  accepted_by i (accepted id msg ∷ notes) =
      let rest = accepted_by i notes in if id == i then msg ∷ rest else rest

  unfoldable pub offered_to : SubscriptionId → List (Note M) → List M
  offered_to i [] = []
  offered_to i (accepted id msg ∷ notes) = offered_to i notes
  offered_to i (offered id msg ∷ notes) =
      let rest = offered_to i notes in if id == i then msg ∷ rest else rest

  pub same_pipe :
      {p q : Pipe M}
      → p.registered ≡ q.registered
      → p.flight ≡ q.flight
      → p.starting ≡ q.starting
      → p.queue ≡ q.queue
      → p.accepted ≡ q.accepted
      → p.offered ≡ q.offered
      → p.drops ≡ q.drops
      → p ≡ q
  same_pipe a b c d e f g = λ i. record {
    registered = a i;
    flight = b i;
    starting = c i;
    queue = d i;
    accepted = e i;
    offered = f i;
    drops = g i;
  }

module _ {D : Type 0} (cache : LruCache Text TopicMatch) (paths : LruCache Text TopicPath)
    (o : Outside (MessageType D)) where
  abbrev pub view : SubscriptionId → Sending cache paths o → Pipe (MessageType D)
  view i st = record {
    registered =
        is_some (Map.lookup i st.actor.topic_router.subscriptions)
        && not (any (λ id. id == i) st.closed_subscribers);
    flight = sends_of i st.actor.slow_send_futures;
    starting = sends_of i st.new_parks;
    queue = queue_of (Map.lookup i st.actor.parked);
    accepted = accepted_by i st.actor.log;
    offered = offered_to i st.actor.log;
    drops = or_zero (Map.lookup i st.actor.dropped_messages);
  }

  -- Between two events.
  abbrev pub at_rest : State cache paths o → Sending cache paths o
  at_rest a = record { actor = a; closed_subscribers = []; new_parks = [] }
