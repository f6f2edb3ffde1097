-- ===== src/Tests/Clients.antt =====
-- Runs of the event loop and of a subscription's handle.
use mqtt_typed_client_next.Base.{
  ℕ, ◌+◌, ◌≤◌, true, Option, none, some, List, [], ◌∷◌, ◌++◌, false, all, Result, ok, err, ◌≡◌,
  refl, arith,
}
use mqtt_typed_client_next.Topic.Router.{SubscriptionId}
use mqtt_typed_client_next.Client.EventLoop.{
  Poll, failed, conn_ack, Counters, Effect, again, break, max_errors_exceeded, turn, run_from,
  no_errors,
}
use mqtt_typed_client_next.Client.EventLoop.Counting.{InBounds, turn-InBounds}
use mqtt_typed_client_next.Client.EventLoop.Termination.{run_from-gives_up, run_from-keeps_on}
use mqtt_typed_client_next.Client.EventLoop.Published.{run_from-in_limits, ending, in_limits}
use mqtt_typed_client_next.Client.Subscriber.{Subscriber, Done, done, unsubscribe_immediate}
use mqtt_typed_client_next.Client.Subscriber.Lag.{Act, dropped, receives, trace, trace-exact}

abbrev eight : Counters
eight = record { error_count = 8; reconnect_attempt = 2 }

eight-InBounds : InBounds eight
eight-InBounds = (omega arith, omega arith)

-- Two errors with a bare reconnection between them.
abbrev flapping : List (Poll ℕ)
flapping = failed ∷ conn_ack true false ∷ failed ∷ []

run_from-gives_up_example : (run_from flapping eight).1 ≡ break (max_errors_exceeded 10)
run_from-gives_up_example = run_from-gives_up flapping eight eight-InBounds refl (omega arith)

run_from-keeps_on_example :
    (c' : Counters) × ((run_from flapping no_errors).1 ≡ again c') × (c'.error_count ≡ 2)
run_from-keeps_on_example =
    run_from-keeps_on flapping no_errors (omega arith, omega arith) refl (omega arith)

run_from-in_limits_example :
    (before : List (Effect ℕ)) × ((run_from flapping eight).0
      ≡ before ++ ending (run_from flapping eight).1)
    × (all in_limits before ≡ true)
run_from-in_limits_example = run_from-in_limits flapping eight eight-InBounds

failed_run :
    (turn {P = ℕ} failed eight).1 ≡ again (record { error_count = 9; reconnect_attempt = 3 })
unfolding turn
failed_run = refl

turn-InBounds_example : InBounds (record { error_count = 9; reconnect_attempt = 3 })
turn-InBounds_example =
    turn-InBounds {P = ℕ} failed eight (record { error_count = 9; reconnect_attempt = 3 })
      eight-InBounds failed_run

abbrev handle : Subscriber (List ℕ) ℕ
handle = record { receiver = 5 ∷ []; unsubscribe_tx = some 1; id = 3; last_seen_drops = 0 }

abbrev next_message : List ℕ → Option ℕ × List ℕ
next_message [] = (none, [])
next_message (m ∷ ms) = (some m, ms)

abbrev acts : List Act
acts = dropped 2 ∷ receives ∷ receives ∷ dropped 1 ∷ []

trace-exact_example :
    (reported : ℕ) × (s' : Subscriber (List ℕ) ℕ) × (trace next_message acts 0 handle
      ≡ (reported, 3, s'))
    × (reported + 0 ≡ s'.last_seen_drops)
    × (s'.last_seen_drops ≤ 3)
trace-exact_example = trace-exact next_message acts 0 handle (omega arith) (omega arith)

-- A command channel with room for one id.
abbrev one_place : ℕ → SubscriptionId → List ℕ → Result Done ℕ × List ℕ
one_place tx id [] = (ok done, id ∷ [])
one_place tx id (x ∷ xs) = (err 0, x ∷ xs)

abbrev cancelled : Subscriber (List ℕ) ℕ
cancelled = record handle { unsubscribe_tx = none }

sent : unsubscribe_immediate one_place handle [] ≡ (ok done, cancelled, 3 ∷ [])
unfolding unsubscribe_immediate
sent = refl

refused : unsubscribe_immediate one_place handle (9 ∷ []) ≡ (err 0, handle, 9 ∷ [])
unfolding unsubscribe_immediate
refused = refl
