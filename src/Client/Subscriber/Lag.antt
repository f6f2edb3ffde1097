-- ===== src/Client/Subscriber/Lag.antt =====
-- What a subscription's consumer is told of dropped messages (core/src/routing/subscriber.rs).
use mqtt_typed_client_next.Base.{
  ℕ, ◌+◌, ◌-◌, ◌≤◌, ◌<◌, ◌%◌, ◌^◌, Option, none, some, List, [], ◌∷◌, ◌≡◌, refl, arith, inl, inr,
  Bool-cases, ltb, Option-cases, sym, ap, ◌∙◌,
}
use mqtt_typed_client_next.Client.Subscriber.{
  Subscriber, ReceiveEvent, message, decode_failed, lagged, take_lag, recv, receive,
}

abbrev pub u64_mod : ℕ
u64_mod = 2 ^ 64

-- The manager's `fetch_add`, and a call of `recv` by the consumer.
pub data Act : Type 0 where
  dropped : ℕ → Act
  receives : Act

abbrev pub missed_in : {M E : Type 0} → Option (ReceiveEvent M E) → ℕ
missed_in none = 0
missed_in (some (message _)) = 0
missed_in (some (decode_failed _)) = 0
missed_in (some (lagged missed)) = missed

abbrev pub drops : List Act → ℕ
drops [] = 0
drops (dropped n ∷ acts) = n + drops acts
drops (receives ∷ acts) = drops acts

module _ {R S M : Type 0} (channel_recv : R → Option M × R) where
  -- The sum of all reports, the drop counter and the handle after the acts.
  unfoldable pub trace : List Act → ℕ → Subscriber R S → ℕ × ℕ × Subscriber R S
  unfolding recv
  trace [] counter s = (0, counter, s)
  trace (dropped n ∷ acts) counter s = trace acts ((counter + n) % u64_mod) s
  trace (receives ∷ acts) counter s =
      let (event, s') = recv channel_recv counter s in
      let (reported, after, last) = trace acts counter s' in
      (missed_in event + reported, after, last)

  recv_lag :
      (counter : ℕ) (s : Subscriber R S)
      → s.last_seen_drops < counter
      → recv channel_recv counter s
        ≡ (some (lagged (counter - s.last_seen_drops)), record s { last_seen_drops = counter })
  unfolding recv take_lag
  recv_lag counter s h = ground arith

  recv_message :
      (counter : ℕ) (s : Subscriber R S)
      → counter ≡ s.last_seen_drops
      → recv channel_recv counter s ≡ receive channel_recv s
  unfolding recv take_lag
  recv_message counter s h = ground arith

  receive-missed : (s : Subscriber R S) → missed_in (receive channel_recv s).0 ≡ 0
  receive-missed s = elim (Option-cases (channel_recv s.receiver).0) [
    | inl e ↦ rw e refl
    | inr (m, e) ↦ rw e refl
  ]

  recv-last_seen :
      (counter : ℕ) (s : Subscriber R S)
      → s.last_seen_drops ≤ counter
      → (missed_in (recv channel_recv counter s).0 + s.last_seen_drops ≡ counter)
        × ((recv channel_recv counter s).1.last_seen_drops ≡ counter)
  recv-last_seen counter s h = elim (Bool-cases (ltb s.last_seen_drops counter)) [
    | inl some_lag ↦ rw (recv_lag counter s (ground arith)) (omega arith, refl)
    | inr no_lag ↦
        let same : counter ≡ s.last_seen_drops = ground arith in
        rw (recv_message counter s same) (omega (arith, receive-missed s), sym same)
  ]

  -- From a handle that has not seen more drops than the counter says, and while the counter does not
  -- overflow: after any acts the counter has gone up by the drops, the reports add up to the advance
  -- of what the handle has seen, and that is never more than the counter.
  pub trace-exact :
      (acts : List Act) (counter : ℕ) (s : Subscriber R S)
      → s.last_seen_drops ≤ counter
      → counter + drops acts < u64_mod
      → (reported : ℕ) × (s' : Subscriber R S) × (trace acts counter s
          ≡ (reported, counter + drops acts, s'))
        × (reported + s.last_seen_drops ≡ s'.last_seen_drops)
        × (s'.last_seen_drops ≤ counter + drops acts)
  unfolding trace
  trace-exact [] counter s h room =
      (0, s, ap (λ n. (0, n, s)) (omega arith), omega arith, omega arith)
  trace-exact (dropped n ∷ acts) counter s h room =
      let wrapped : (counter + n) % u64_mod ≡ counter + n = omega arith in
      let (reported, s', run, sum, low) =
        trace-exact acts (counter + n) s (omega arith) (omega arith) in
      let total : (counter + n) + drops acts ≡ counter + (n + drops acts) = omega arith in
      (
        reported,
        s',
        ap (λ k. trace acts k s) wrapped ∙ run ∙ ap (λ k. (reported, k, s')) total,
        sum,
        omega arith,
      )
  trace-exact (receives ∷ acts) counter s h room =
      let (seen, last) = recv-last_seen counter s h in
      let (reported, s', run, sum, low) =
        trace-exact acts counter (recv channel_recv counter s).1 (omega arith) room in
      (
        missed_in (recv channel_recv counter s).0 + reported,
        s',
        ap
            (λ (x : ℕ × ℕ × Subscriber R S).
              (missed_in (recv channel_recv counter s).0 + x.0, x.1, x.2))
            run,
        omega arith,
        low,
      )
