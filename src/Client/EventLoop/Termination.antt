-- ===== src/Client/EventLoop/Termination.antt =====
-- When `run` of core/src/client/async_client.rs gives up.
use mqtt_typed_client_next.Base.{
  ℕ, suc, ◌+◌, ◌≤◌, ◌<◌, Bool, true, false, List, [], ◌∷◌, all, leb, ◌≡◌, refl, ◌∙◌, ap, arith, inl,
  inr, Bool-cases,
}
use mqtt_typed_client_next.Client.EventLoop.{
  Poll, conn_ack, publish, incoming_disconnect, outgoing_disconnect, notification, failed, Counters,
  again, break, turn, run_from, max_errors_exceeded, max_consecutive_errors,
}
use mqtt_typed_client_next.Client.EventLoop.Counting.{
  InBounds, one_more, failed-break, failed-again, run_from-break, run_from-again,
}

-- A refused or failed attempt, and a bare reconnection, are no progress.
abbrev pub no_progress : {P : Type 0} → Poll P → Bool
no_progress (conn_ack _ _) = true
no_progress failed = true
no_progress (publish _) = false
no_progress incoming_disconnect = false
no_progress outgoing_disconnect = false
no_progress notification = false

abbrev pub errors : {P : Type 0} → List (Poll P) → ℕ
errors [] = 0
errors (failed ∷ events) = suc (errors events)
errors (conn_ack _ _ ∷ events) = errors events
errors (publish _ ∷ events) = errors events
errors (incoming_disconnect ∷ events) = errors events
errors (outgoing_disconnect ∷ events) = errors events
errors (notification ∷ events) = errors events

module _ {P : Type 0} where
  -- From counters in bounds, events without progress in which the errors reach 10 with those counted
  -- before end the loop, with the reason that 10 errors were counted.
  pub run_from-gives_up :
      (events : List (Poll P)) (c : Counters)
      → InBounds c
      → all no_progress events ≡ true
      → max_consecutive_errors ≤ c.error_count + errors events
      → (run_from events c).1 ≡ break (max_errors_exceeded max_consecutive_errors)
  unfolding run_from turn
  run_from-gives_up [] c b h many = let high = b.1 in absurd (omega arith)
  run_from-gives_up (conn_ack true true ∷ events) c b h many =
      run_from-gives_up events _ (omega arith, b.1) h many
  run_from-gives_up (conn_ack true false ∷ events) c b h many =
      run_from-gives_up events _ (omega arith, b.1) h many
  run_from-gives_up (conn_ack false s ∷ events) c b h many = run_from-gives_up events c b h many
  run_from-gives_up (publish p ∷ events) c b h many = absurd (cc)
  run_from-gives_up (incoming_disconnect ∷ events) c b h many = absurd (cc)
  run_from-gives_up (outgoing_disconnect ∷ events) c b h many = absurd (cc)
  run_from-gives_up (notification ∷ events) c b h many = absurd (cc)
  run_from-gives_up (failed ∷ events) c b h many = elim (Bool-cases (leb 9 c.error_count)) [
    | inl last ↦
        ap (λ x. x.1)
          (run_from-break failed events c _ (ap (λ x. x.1) (failed-break c b (ground arith))))
    | inr early ↦
        let low = b.0 in
        ap (λ x. x.1)
          (run_from-again failed events c (one_more c)
            (ap (λ x. x.1) (failed-again c b (ground arith))))
        ∙ (run_from-gives_up events (one_more c) (omega arith, ground arith) h (omega arith))
  ]

  -- From counters in bounds, events without progress whose errors stay below 10 with those counted
  -- before leave the loop running, with all of them counted.
  pub run_from-keeps_on :
      (events : List (Poll P)) (c : Counters)
      → InBounds c
      → all no_progress events ≡ true
      → c.error_count + errors events < max_consecutive_errors
      → (c' : Counters) × ((run_from events c).1 ≡ again c')
        × (c'.error_count ≡ c.error_count + errors events)
  unfolding run_from turn
  run_from-keeps_on [] c b h few = (c, refl, omega arith)
  run_from-keeps_on (conn_ack true true ∷ events) c b h few =
      run_from-keeps_on events _ (omega arith, b.1) h few
  run_from-keeps_on (conn_ack true false ∷ events) c b h few =
      run_from-keeps_on events _ (omega arith, b.1) h few
  run_from-keeps_on (conn_ack false s ∷ events) c b h few = run_from-keeps_on events c b h few
  run_from-keeps_on (publish p ∷ events) c b h few = absurd (cc)
  run_from-keeps_on (incoming_disconnect ∷ events) c b h few = absurd (cc)
  run_from-keeps_on (outgoing_disconnect ∷ events) c b h few = absurd (cc)
  run_from-keeps_on (notification ∷ events) c b h few = absurd (cc)
  run_from-keeps_on (failed ∷ events) c b h few =
      let low = b.0 in
      let small : c.error_count < 9 = omega arith in
      let (c', ends, total) =
        run_from-keeps_on events (one_more c) (omega arith, omega arith) h (omega arith) in
      (
        c',
        ap (λ x. x.1)
              (run_from-again failed events c (one_more c) (ap (λ x. x.1) (failed-again c b small)))
            ∙ ends,
        omega arith,
      )
