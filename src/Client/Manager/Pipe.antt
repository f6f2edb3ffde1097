-- ===== src/Client/Manager/Pipe.antt =====
-- What the subscription manager promises of one subscription: its messages are a queue from which
-- some are dropped, and the others arrive in order.
pub mod Steps
pub mod Laws
pub mod Drain
use mqtt_typed_client_next.Base.{
  ℕ, ◌+◌, ◌≤◌, ◌%◌, Bool, true, false, Option, none, some, List, [], ◌∷◌, ◌++◌, length, leb,
  if◌then◌else◌, ◌≡◌, Sublistᴰ,
}
use mqtt_typed_client_next.Client.Manager.{TrySend, sent, full, u64_mod}

-- A subscription: whether it is registered, its slow sends, those about to start, the queue
-- behind them where it is parked, what its channel has accepted and what it was offered, and the
-- drop counter.
pub record Pipe (M : Type 0) : Type 0 where
  pub registered : Bool
  pub flight : List M
  pub starting : List M
  pub queue : Option (List M)
  pub accepted : List M
  pub offered : List M
  pub drops : ℕ

abbrev pub or_nil {ℓ} : {A : Type ℓ} → Option (List A) → List A
or_nil none = []
or_nil (some xs) = xs

abbrev pub is_some {ℓ} : {A : Type ℓ} → Option A → Bool
is_some none = false
is_some (some _) = true

-- What waits, oldest first.
abbrev pub waiting : {M : Type 0} → Pipe M → List M
waiting p = p.flight ++ (p.starting ++ or_nil p.queue)

-- The messages accepted and waiting are some of those offered, in order. At most one slow send is
-- out or about to start, exactly one is out where the subscription is parked, and none where it is
-- registered and not parked. Only a registered subscription is parked or about to be, and every
-- message that it was offered has been accepted, waits, or is counted as dropped.
pub record IsFine {M : Type 0} (p : Pipe M) : Type 0 where
  pub order : Sublistᴰ (p.accepted ++ waiting p) p.offered
  pub one : length p.flight + length p.starting ≤ 1
  pub busy : is_some p.queue ≡ true → length p.flight ≡ 1
  pub idle : p.registered ≡ true → is_some p.queue ≡ false → length p.flight ≡ 0
  pub known : is_some p.queue ≡ true → p.registered ≡ true
  pub due : length p.starting ≡ 1 → p.registered ≡ true
  pub count :
      p.registered ≡ true
      → (length p.accepted + length (waiting p) + p.drops) % u64_mod ≡ length p.offered % u64_mod

module _ {M : Type 0} where
  abbrev pub pipe : Bool → List M → List M → Option (List M) → List M → List M → ℕ → Pipe M
  pipe r fl st q ac off d = record {
    registered = r;
    flight = fl;
    starting = st;
    queue = q;
    accepted = ac;
    offered = off;
    drops = d;
  }

  -- A message for a subscription, with the answer of its channel where that is asked.
  abbrev pub offer_to : ℕ → TrySend → M → Pipe M → Pipe M
  offer_to limit answer m p = elim p.queue [
    | some q ↦
        if leb limit (length q)
        then record p { offered = p.offered ++ m ∷ []; drops = (p.drops + 1) % u64_mod }
        else record p { offered = p.offered ++ m ∷ []; queue = some (q ++ m ∷ []) }
    | none ↦ elim answer [
      | sent ↦ record p { offered = p.offered ++ m ∷ []; accepted = p.accepted ++ m ∷ [] }
      | full ↦ record p { offered = p.offered ++ m ∷ []; starting = p.starting ++ m ∷ [] }
      | TrySend.closed ↦ record p { offered = p.offered ++ m ∷ []; registered = false }
    ]
  ]

  -- The slow send that was about to start is out.
  abbrev pub start : Pipe M → Pipe M
  start p = elim p.starting [
    | [] ↦ p
    | _ ∷ _ ↦ record p { flight = p.flight ++ p.starting; starting = []; queue = some [] }
  ]

  -- The subscription ends.
  abbrev pub gone : Pipe M → Pipe M
  gone p = record p { registered = false; queue = none }
