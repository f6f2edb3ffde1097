-- ===== src/Client/Bootstrap/Decision.antt =====
-- How `establish_connection` of core/src/client/async_client.rs ends.
use mqtt_typed_client_next.Base.{
  Bool, true, false, List, [], ◌∷◌, ◌++◌, all, ◌≡◌, refl, if◌then◌else◌,
}
use mqtt_typed_client_next.Client.Bootstrap.{
  Poll, conn_ack, notification, failed, waiting, established, broker_rejected, from_backend,
  establish_connection,
}

abbrev pub undecided : {K E : Type 0} → Poll K E → Bool
undecided (conn_ack _ _ _) = false
undecided notification = true
undecided (failed _) = false

module _ {K E : Type 0} where
  -- Notifications that decide nothing, however many, leave the loop waiting, and then the next
  -- acknowledgement decides: a connection where it is a success, its code where not; or the next
  -- error.
  pub establish_connection-append :
      (before : List (Poll K E)) (success : Bool) (code : K) (session_present : Bool)
      (after : List (Poll K E))
      → all undecided before ≡ true
      → (establish_connection before ≡ waiting)
        × (establish_connection (before ++ conn_ack success code session_present ∷ after)
            ≡ (if success then established session_present else broker_rejected code))
        × ((e : E) → establish_connection (before ++ failed e ∷ after) ≡ from_backend e)
  unfolding establish_connection
  establish_connection-append [] success code session_present after h = (refl, refl, λ e. refl)
  establish_connection-append (conn_ack _ _ _ ∷ before) success code session_present after h =
      absurd (cc)
  establish_connection-append (notification ∷ before) success code session_present after h =
      establish_connection-append before success code session_present after h
  establish_connection-append (failed _ ∷ before) success code session_present after h = absurd (cc)
