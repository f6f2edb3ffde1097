-- ===== src/Client/EventLoop/Published.antt =====
-- What `run` of core/src/client/async_client.rs publishes, and how long it waits.
use mqtt_typed_client_next.Base.{
  ℕ, zero, suc, ◌+◌, ◌≤◌, ◌<◌, ◌^◌, min, Bool, true, false, ◌&&◌, List, [], ◌∷◌, ◌++◌, all, leb,
  ◌≡◌, refl, sym, ◌∙◌, ap, arith, append_assoc, inl, inr, ◌⊎◌, ◌-◌, Bool-cases,
}
use mqtt_typed_client_next.Client.EventLoop.{
  Poll, conn_ack, publish, incoming_disconnect, outgoing_disconnect, notification, failed, Counters,
  Turn, again, break, turn, run_from, DisconnectReason, retry_delay, Effect, send, sleep,
  resubscribe_all, dispatch_incoming_message, shutdown, connected, reconnecting, disconnected,
}
use mqtt_typed_client_next.Client.EventLoop.Counting.{
  InBounds, failed-break, failed-again, run_from-break, run_from-again, turn-InBounds,
}

Turn-cases :
    (t : Turn)
    → ((reason : DisconnectReason) × (t ≡ break reason)) ⊎ ((c : Counters) × (t ≡ again c))
Turn-cases (again c) = inr (c, refl)
Turn-cases (break reason) = inl (reason, refl)

pow_pos : (k : ℕ) → 1 ≤ 2 ^ k
pow_pos zero = omega arith
pow_pos (suc k) = omega (arith, pow_pos k)

retry_delay-bounds : (n : ℕ) → (100 ≤ retry_delay n) × (retry_delay n ≤ 30000)
unfolding retry_delay
retry_delay-bounds n = let p = pow_pos (min (n - 1) 10) in (omega arith, omega arith)

all-append :
    {A : Type 0} (p : A → Bool) (xs ys : List A)
    → all p xs ≡ true
    → all p ys ≡ true
    → all p (xs ++ ys) ≡ true
all-append p [] ys a b = b
all-append p (x ∷ xs) ys a b = ground (arith, all-append p xs ys)

module _ {P : Type 0} where
  -- What `run` publishes and waits before it ends.
  abbrev pub in_limits : Effect P → Bool
  in_limits (send (connected _)) = true
  in_limits (send (reconnecting attempt)) = leb 1 attempt && leb attempt 9
  in_limits (send (disconnected _)) = false
  in_limits resubscribe_all = true
  in_limits (dispatch_incoming_message _) = true
  in_limits (sleep delay) = leb 100 delay && leb delay 30000
  in_limits shutdown = false

  -- What `run` does at its end.
  abbrev pub ending : Turn → List (Effect P)
  ending (again _) = []
  ending (break reason) = send (disconnected reason) ∷ shutdown ∷ []

  turn-in_limits :
      (event : Poll P) (c : Counters) → InBounds c → all in_limits (turn event c).0 ≡ true
  unfolding turn
  turn-in_limits (conn_ack true true) c b = refl
  turn-in_limits (conn_ack true false) c b = refl
  turn-in_limits (conn_ack false _) c b = refl
  turn-in_limits (publish p) c b = refl
  turn-in_limits incoming_disconnect c b = refl
  turn-in_limits outgoing_disconnect c b = refl
  turn-in_limits notification c b = refl
  turn-in_limits failed c b = elim (Bool-cases (leb 9 c.error_count)) [
    | inl last ↦ ap (λ x. all in_limits x.0) (failed-break c b (ground arith))
    | inr early ↦
        let low = b.0 in
        let small : c.error_count < 9 = ground arith in
        let (least, most) = retry_delay-bounds (c.error_count + 1) in
        ap (λ x. all in_limits x.0) (failed-again c b small) ∙ ground arith
  ]

  -- From counters in bounds, what the loop does is, for any events, a list of effects in which every
  -- published attempt is between 1 and 9, every wait between 100 and 30000 ms, and nothing is
  -- published as disconnected or shut down; then, where the loop ended, its reason is published
  -- and the manager is shut down.
  pub run_from-in_limits :
      (events : List (Poll P)) (c : Counters)
      → InBounds c
      → (before : List (Effect P)) × ((run_from events c).0
          ≡ before ++ ending (run_from events c).1)
        × (all in_limits before ≡ true)
  run_from-in_limits [] c b = ([], unfold run_from in refl, refl)
  run_from-in_limits (event ∷ events) c b = elim (Turn-cases (turn event c).1) [
    | inl (reason, e) ↦ (
      (turn event c).0,
      rw (run_from-break event events c reason e) refl,
      turn-in_limits event c b,
    )
    | inr (c', e) ↦
        let (before, same, fine) = run_from-in_limits events c' (turn-InBounds event c c' b e) in
        (
          (turn event c).0 ++ before,
          rw (run_from-again event events c c' e)
              (ap (λ l. (turn event c).0 ++ l) same ∙ sym (append_assoc (turn event c).0 before _)),
          all-append in_limits (turn event c).0 before (turn-in_limits event c b) fine,
        )
  ]
