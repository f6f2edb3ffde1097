-- ===== src/Client/Subscriber/Cancel.antt =====
-- How often a handle asks for its cancellation (core/src/routing/subscriber.rs).
use mqtt_typed_client_next.Base.{Result, ok, err, ◌≡◌, arith}
use mqtt_typed_client_next.Topic.Router.{SubscriptionId}
use mqtt_typed_client_next.Client.Subscriber.{
  Subscriber, unsubscribe_immediate, unsubscribe, drop_handle, Done, done,
}

module _ {R S W E : Type 0} (sends : S → SubscriptionId → W → Result Done E × W) where
  -- After `unsubscribe_immediate` has succeeded, neither it nor `unsubscribe` nor dropping the handle
  -- sends anything, and both calls succeed.
  pub unsubscribe_immediate-ok :
      (s s' : Subscriber R S) (w w' : W)
      → unsubscribe_immediate sends s w ≡ (ok done, s', w')
      → (later : W)
      → (unsubscribe_immediate sends s' later ≡ (ok done, s', later))
        × (unsubscribe sends s' later ≡ (ok done, later))
        × (drop_handle sends s' later ≡ later)
  unfolding unsubscribe_immediate unsubscribe drop_handle
  unsubscribe_immediate-ok s s' w w' h later = ground arith

  -- Where `unsubscribe_immediate` fails the handle is as before, and dropping it before the call would
  -- have had the same effect on the channel.
  pub unsubscribe_immediate-err :
      (s s' : Subscriber R S) (w w' : W) (e : E)
      → unsubscribe_immediate sends s w ≡ (err e, s', w')
      → (s' ≡ s) × (drop_handle sends s w ≡ w')
  unfolding unsubscribe_immediate drop_handle
  unsubscribe_immediate-err s s' w w' e h = ground arith
