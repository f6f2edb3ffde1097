-- ===== src/Client/Bootstrap.antt =====
-- `establish_connection` of core/src/client/async_client.rs. `K` is the broker's return code and
-- `E` the client library's error, whose conversions are left out.
pub mod Decision
use mqtt_typed_client_next.Base.{Bool, true, false, List, [], ◌∷◌, if◌then◌else◌}

-- What `event_loop.poll()` yields before there is a connection.
pub data Poll (K E : Type 0) : Type 0 where
  conn_ack : (success : Bool) (code : K) (session_present : Bool) → Poll K E
  notification : Poll K E
  failed : E → Poll K E

-- The loop still waits, or has returned.
pub data Outcome (K E : Type 0) : Type 0 where
  waiting : Outcome K E
  established : (session_present : Bool) → Outcome K E
  broker_rejected : K → Outcome K E
  from_backend : E → Outcome K E

module _ {K E : Type 0} where
  unfoldable pub establish_connection : List (Poll K E) → Outcome K E
  establish_connection [] = waiting
  establish_connection (conn_ack success code session_present ∷ polls) =
      if success then established session_present else broker_rejected code
  establish_connection (notification ∷ polls) = establish_connection polls
  establish_connection (failed e ∷ polls) = from_backend e
