-- ===== src/Client/EventLoop/Counting.antt =====
-- The two counters of `run` in core/src/client/async_client.rs.
use mqtt_typed_client_next.Base.{
  ◌+◌, ◌≤◌, ◌<◌, ◌%◌, true, false, List, [], ◌∷◌, ◌++◌, if◌then◌else◌, leb, ◌≡◌, refl, sym, ◌∙◌, ap,
  arith, inl, inr, Bool-cases,
}
use mathlib.Core.Path.{subst}
use mqtt_typed_client_next.Client.EventLoop.{
  Poll, conn_ack, publish, incoming_disconnect, outgoing_disconnect, notification, failed, Counters,
  again, break, turn, run_from, DisconnectReason, max_errors_exceeded, retry_delay, send, sleep,
  shutdown, reconnecting, disconnected, max_consecutive_errors, u32_mod,
}

-- The counters of a loop that runs.
abbrev pub InBounds : Counters → Type 0
InBounds c = (c.reconnect_attempt ≤ c.error_count) × (c.error_count < max_consecutive_errors)

again-injective : {a b : Counters} → again a ≡ again b → a ≡ b
again-injective h = cc

abbrev pub one_more : Counters → Counters
one_more c = record { error_count = c.error_count + 1; reconnect_attempt = c.reconnect_attempt + 1 }

module _ {P : Type 0} (c : Counters) (bound : InBounds c) where
  counted : turn {P = P} failed c ≡ (
      if leb max_consecutive_errors (c.error_count + 1)
      then ([], break (max_errors_exceeded (c.error_count + 1)))
      else (
        send (reconnecting (c.reconnect_attempt + 1))
            ∷ sleep (retry_delay (c.error_count + 1))
            ∷ [],
        again (one_more c),
      ))
  unfolding turn
  counted =
      let low = bound.0 in
      let high = bound.1 in
      let e : (c.error_count + 1) % u32_mod ≡ c.error_count + 1 = omega arith in
      let a : (c.reconnect_attempt + 1) % u32_mod ≡ c.reconnect_attempt + 1 = omega arith in
      rw (e, a) refl

  pub failed-break :
      9 ≤ c.error_count
      → turn {P = P} failed c ≡ ([], break (max_errors_exceeded max_consecutive_errors))
  failed-break last =
      let high = bound.1 in let nine : c.error_count ≡ 9 = omega arith in counted ∙ rw nine refl

  pub failed-again :
      c.error_count < 9
      → turn {P = P} failed c ≡ (
        send (reconnecting (c.reconnect_attempt + 1))
            ∷ sleep (retry_delay (c.error_count + 1))
            ∷ [],
        again (one_more c),
      )
  failed-again early =
      let more : leb max_consecutive_errors (c.error_count + 1) ≡ false = ground arith in
      counted ∙ rw more refl

module _ {P : Type 0} where
  -- A turn after which the loop goes on keeps counters in bounds: the observable attempt at most the
  -- error count, and that below 10.
  pub turn-InBounds :
      (event : Poll P) (c c' : Counters) → InBounds c → (turn event c).1 ≡ again c' → InBounds c'
  unfolding turn
  turn-InBounds (conn_ack true true) c c' (a, b) h =
      subst InBounds (again-injective h) (omega arith, b)
  turn-InBounds (conn_ack true false) c c' (a, b) h =
      subst InBounds (again-injective h) (omega arith, b)
  turn-InBounds (conn_ack false s) c c' b h = subst InBounds (again-injective h) b
  turn-InBounds (publish p) c c' b h = subst InBounds (again-injective h) (omega arith, omega arith)
  turn-InBounds incoming_disconnect c c' b h = absurd (cc)
  turn-InBounds outgoing_disconnect c c' b h = absurd (cc)
  turn-InBounds notification c c' b h =
      subst InBounds (again-injective h) (omega arith, omega arith)
  turn-InBounds failed c c' b h = elim (Bool-cases (leb 9 c.error_count)) [
    | inl last ↦ absurd (cc (failed-break {P = P} c b (ground arith)))
    | inr early ↦
        let low = b.0 in
        let small : c.error_count < 9 = ground arith in
        let same : again (one_more c) ≡ again c' =
          sym (ap (λ x. x.1) (failed-again {P = P} c b small)) ∙ h in
        subst InBounds (again-injective same) (omega arith, omega arith)
  ]

  pub run_from-break :
      (event : Poll P) (events : List (Poll P)) (c : Counters) (reason : DisconnectReason)
      → (turn event c).1 ≡ break reason
      → run_from (event ∷ events) c
        ≡ ((turn event c).0 ++ (send (disconnected reason) ∷ shutdown ∷ []), break reason)
  unfolding run_from
  run_from-break event events c reason e = rw (e, run_from) refl

  pub run_from-again :
      (event : Poll P) (events : List (Poll P)) (c c' : Counters)
      → (turn event c).1 ≡ again c'
      → run_from (event ∷ events) c
        ≡ ((turn event c).0 ++ (run_from events c').0, (run_from events c').1)
  unfolding run_from
  run_from-again event events c c' e = rw (e, run_from) refl
