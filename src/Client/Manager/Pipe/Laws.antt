-- ===== src/Client/Manager/Pipe/Laws.antt =====
-- The steps of a subscription.
use mqtt_typed_client_next.Base.{
  ℕ, Bool, true, false, Option, none, some, List, [], ◌∷◌, ◌++◌, length, leb, ◌≡◌, refl, sym, ap,
  arith, append-nil, append_assoc, Bool-cases, inl, inr,
}
use mqtt_typed_client_next.Base.Sublists.{Sublistᴰ-drop_tail}
use mqtt_typed_client_next.Client.Manager.{TrySend, sent, full}
use mqtt_typed_client_next.Client.Manager.Pipe.Steps.{
  queue-IsFine, overflow-IsFine, sent-IsFine, full-IsFine, closed-IsFine,
}
use mqtt_typed_client_next.Client.Manager.Pipe.{Pipe, IsFine, or_nil, offer_to, start, gone, pipe}

module _ {M : Type 0} where
  pub nil_of_length : (xs : List M) → length xs ≡ 0 → xs ≡ []
  nil_of_length [] h = refl
  nil_of_length (x ∷ xs) h = absurd (omega arith)

  offer-IsFine :
      (limit : ℕ) (answer : TrySend) (m : M) (fl : List M) (q : Option (List M)) (ac off : List M)
      (d : ℕ)
      → IsFine (pipe true fl [] q ac off d)
      → IsFine (offer_to limit answer m (pipe true fl [] q ac off d))
  offer-IsFine limit answer m fl (some q) ac off d f = elim (Bool-cases (leb limit (length q))) [
    | inl over ↦ rw over (overflow-IsFine m fl q ac off d true f)
    | inr below ↦ rw below (queue-IsFine m fl q ac off d true f)
  ]
  offer-IsFine limit sent m fl none ac off d f =
      let e = nil_of_length fl (f.idle refl refl) in rw e (sent-IsFine m fl [] ac off d (rw e at f))
  offer-IsFine limit full m fl none ac off d f =
      let e = nil_of_length fl (f.idle refl refl) in rw e (full-IsFine m fl [] ac off d (rw e at f))
  offer-IsFine limit TrySend.closed m fl none ac off d f = closed-IsFine m fl [] ac off d f

  offer_any :
      (limit : ℕ) (answer : TrySend) (m : M) (r : Bool) (fl : List M) (st : List M)
      (q : Option (List M)) (ac off : List M) (d : ℕ)
      → r ≡ true
      → st ≡ []
      → IsFine (pipe r fl st q ac off d)
      → IsFine (offer_to limit answer m (pipe r fl st q ac off d))
  offer_any limit answer m false fl st q ac off d reg none_due f = absurd (cc)
  offer_any limit answer m true fl (x ∷ st) q ac off d reg none_due f = absurd (cc)
  offer_any limit answer m true fl [] q ac off d reg none_due f =
      offer-IsFine limit answer m fl q ac off d f

  -- A message keeps a registered subscription fine that has no slow send about to start.
  pub offer_to-IsFine :
      (limit : ℕ) (answer : TrySend) (m : M) (p : Pipe M)
      → p.registered ≡ true
      → p.starting ≡ []
      → IsFine p
      → IsFine (offer_to limit answer m p)
  offer_to-IsFine limit answer m p =
      offer_any limit answer m p.registered p.flight p.starting p.queue p.accepted p.offered p.drops

  start_fields-IsFine :
      (r : Bool) (fl : List M) (st : List M) (q : Option (List M)) (ac off : List M) (d : ℕ)
      → IsFine (pipe r fl st q ac off d)
      → IsFine (start (pipe r fl st q ac off d))
  start_fields-IsFine r fl [] q ac off d f = f
  start_fields-IsFine r (x ∷ fl) (m ∷ st) q ac off d f = absurd (let h = f.one in omega arith)
  start_fields-IsFine r [] (m ∷ n ∷ st) q ac off d f = absurd (let h = f.one in omega arith)
  start_fields-IsFine r [] (m ∷ []) (some q) ac off d f =
      absurd (let h = f.busy refl in omega arith)
  start_fields-IsFine r [] (m ∷ []) none ac off d f = record {
    order = f.order;
    one = omega arith;
    busy = λ h. refl;
    idle = λ h k. absurd (cc);
    known = λ h. f.due refl;
    due = λ h. absurd (omega arith);
    count = f.count;
  }

  -- So does the start of a slow send.
  pub start-IsFine : (p : Pipe M) → IsFine p → IsFine (start p)
  start-IsFine p =
      start_fields-IsFine p.registered p.flight p.starting p.queue p.accepted p.offered p.drops

  -- And the end of the subscription, where no slow send is about to start.
  pub gone-IsFine : (p : Pipe M) → p.starting ≡ [] → IsFine p → IsFine (gone p)
  gone-IsFine p none_due f = record {
    order =
        rw (append-nil p.starting, sym (append_assoc p.accepted p.flight p.starting))
          (Sublistᴰ-drop_tail (p.accepted ++ p.flight ++ p.starting) (or_nil p.queue) (
            rw
              (
                sym (append_assoc p.accepted p.flight (p.starting ++ or_nil p.queue)),
                sym (append_assoc (p.accepted ++ p.flight) p.starting (or_nil p.queue)),
              )
              at f.order));
    one = f.one;
    busy = λ h. absurd (cc);
    idle = λ h k. absurd (cc);
    known = λ h. absurd (cc);
    due = λ h. absurd (let k = ap length none_due in omega arith);
    count = λ h. absurd (cc);
  }
