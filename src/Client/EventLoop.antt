-- ===== src/Client/EventLoop.antt =====
-- `run` of core/src/client/async_client.rs and core/src/connection_state.rs. What the polled event
-- loop yields is a list of events; the calls that `run` makes of other components are effects, in
-- the order it makes them. Delays are in milliseconds.
pub mod Counting
pub mod Termination
pub mod Published
use mqtt_typed_client_next.Base.{
  ℕ, ◌+◌, ◌-◌, ◌*◌, ◌^◌, ◌%◌, min, Bool, true, false, Option, none, some, List, [], ◌∷◌, ◌++◌,
  if◌then◌else◌, leb,
}

pub data DisconnectReason : Type 0 where
  clean_shutdown broker_disconnected : DisconnectReason
  max_errors_exceeded : (errors : ℕ) → DisconnectReason

pub data ConnectionState : Type 0 where
  connected : (session_present : Bool) → ConnectionState
  reconnecting : (attempt : ℕ) → ConnectionState
  disconnected : DisconnectReason → ConnectionState

-- The cases of `event_loop.poll()` that `run` tells apart; `P` is a delivered message.
pub data Poll (P : Type 0) : Type 0 where
  conn_ack : (success session_present : Bool) → Poll P
  publish : P → Poll P
  incoming_disconnect outgoing_disconnect notification failed : Poll P

pub data Effect (P : Type 0) : Type 0 where
  resubscribe_all : Effect P
  send : ConnectionState → Effect P
  dispatch_incoming_message : P → Effect P
  sleep : (delay : ℕ) → Effect P
  shutdown : Effect P

pub record Counters : Type 0 where
  pub error_count : ℕ
  pub reconnect_attempt : ℕ

abbrev pub max_consecutive_errors : ℕ
max_consecutive_errors = 10

abbrev pub initial_retry_delay : ℕ
initial_retry_delay = 100

abbrev pub max_retry_delay : ℕ
max_retry_delay = 30000

abbrev pub u32_mod : ℕ
u32_mod = 2 ^ 32

-- The wait after the `error_count`-th error.
unfoldable pub retry_delay : ℕ → ℕ
retry_delay error_count = min (initial_retry_delay * 2 ^ min (error_count - 1) 10) max_retry_delay

-- How one turn of the loop ends.
pub data Turn : Type 0 where
  again : Counters → Turn
  break : DisconnectReason → Turn

abbrev pub no_errors : Counters
no_errors = record { error_count = 0; reconnect_attempt = 0 }

module _ {P : Type 0} where
  -- The `Err` arm, after both counters have gone up.
  abbrev pub after_error : Counters → List (Effect P) × Turn
  after_error c =
      if leb max_consecutive_errors c.error_count
      then ([], break (max_errors_exceeded c.error_count))
      else (
        send (reconnecting c.reconnect_attempt) ∷ sleep (retry_delay c.error_count) ∷ [],
        again c,
      )

  unfoldable pub turn : Poll P → Counters → List (Effect P) × Turn
  turn (conn_ack true true) c =
      (send (connected true) ∷ [], again (record c { reconnect_attempt = 0 }))
  turn (conn_ack true false) c =
      (resubscribe_all ∷ send (connected false) ∷ [], again (record c { reconnect_attempt = 0 }))
  turn (conn_ack false session_present) c = ([], again c)
  turn (publish p) c = (dispatch_incoming_message p ∷ [], again no_errors)
  turn incoming_disconnect c = ([], break broker_disconnected)
  turn outgoing_disconnect c = ([], break clean_shutdown)
  turn notification c = ([], again no_errors)
  turn failed c = after_error (record {
    error_count = (c.error_count + 1) % u32_mod;
    reconnect_attempt = (c.reconnect_attempt + 1) % u32_mod;
  })

  -- The effects of the events so far, and the counters where the loop still runs.
  unfoldable pub run_from : List (Poll P) → Counters → List (Effect P) × Turn
  unfolding turn
  run_from [] c = ([], again c)
  run_from (event ∷ events) c =
      let (effects, next) = turn event c in
      elim next [
        | break reason ↦ (effects ++ (send (disconnected reason) ∷ shutdown ∷ []), break reason)
        | again c' ↦ let (more, last) = run_from events c' in (effects ++ more, last)
      ]

  unfoldable pub run : List (Poll P) → List (Effect P) × Turn
  unfolding run_from
  run events = run_from events no_errors
