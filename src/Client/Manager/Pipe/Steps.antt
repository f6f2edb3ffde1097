-- ===== src/Client/Manager/Pipe/Steps.antt =====
-- A message for a subscription, case by case.
use mqtt_typed_client_next.Base.{
  ℕ, ◌+◌, ◌%◌, Bool, true, false, none, some, List, [], ◌∷◌, ◌++◌, length-append, refl, sym, arith,
  append-nil, append_assoc,
}
use mqtt_typed_client_next.Base.Sublists.{snoc-Sublistᴰ, snoc_both-Sublistᴰ}
use mqtt_typed_client_next.Client.Manager.{u64_mod}
use mqtt_typed_client_next.Client.Manager.Pipe.{IsFine}

module _ {M : Type 0} where
  module _ (m : M) (fl qu ac off : List M) (d : ℕ) where
    pub queue-IsFine :
        (r : Bool)
        → IsFine (record {
          registered = r;
          flight = fl;
          starting = [];
          queue = some qu;
          accepted = ac;
          offered = off;
          drops = d;
        })
        → IsFine (record {
          registered = r;
          flight = fl;
          starting = [];
          queue = some (qu ++ m ∷ []);
          accepted = ac;
          offered = off ++ m ∷ [];
          drops = d;
        })
    queue-IsFine r f = record {
      order =
          rw (sym (append_assoc fl qu (m ∷ [])), sym (append_assoc ac (fl ++ qu) (m ∷ [])))
            (snoc_both-Sublistᴰ m f.order);
      one = f.one;
      busy = f.busy;
      idle = f.idle;
      known = f.known;
      due = f.due;
      count = λ h.
          let old = f.count h in
          let a = length-append off (m ∷ []) in
          let b = length-append fl (qu ++ m ∷ []) in
          let c = length-append qu (m ∷ []) in let e = length-append fl qu in omega arith;
    }

    pub overflow-IsFine :
        (r : Bool)
        → IsFine (record {
          registered = r;
          flight = fl;
          starting = [];
          queue = some qu;
          accepted = ac;
          offered = off;
          drops = d;
        })
        → IsFine (record {
          registered = r;
          flight = fl;
          starting = [];
          queue = some qu;
          accepted = ac;
          offered = off ++ m ∷ [];
          drops = (d + 1) % u64_mod;
        })
    overflow-IsFine r f = record {
      order = snoc-Sublistᴰ m f.order;
      one = f.one;
      busy = f.busy;
      idle = f.idle;
      known = f.known;
      due = f.due;
      count = λ h. let old = f.count h in let a = length-append off (m ∷ []) in omega arith;
    }

    pub sent-IsFine :
        IsFine (record {
          registered = true;
          flight = [];
          starting = [];
          queue = none;
          accepted = ac;
          offered = off;
          drops = d;
        })
        → IsFine (record {
          registered = true;
          flight = [];
          starting = [];
          queue = none;
          accepted = ac ++ m ∷ [];
          offered = off ++ m ∷ [];
          drops = d;
        })
    sent-IsFine f = record {
      order = rw (append-nil (ac ++ m ∷ [])) (snoc_both-Sublistᴰ m (rw (append-nil ac) at f.order));
      one = f.one;
      busy = f.busy;
      idle = f.idle;
      known = f.known;
      due = f.due;
      count = λ h.
          let old = f.count h in
          let a = length-append off (m ∷ []) in let b = length-append ac (m ∷ []) in omega arith;
    }

    pub full-IsFine :
        IsFine (record {
          registered = true;
          flight = [];
          starting = [];
          queue = none;
          accepted = ac;
          offered = off;
          drops = d;
        })
        → IsFine (record {
          registered = true;
          flight = [];
          starting = m ∷ [];
          queue = none;
          accepted = ac;
          offered = off ++ m ∷ [];
          drops = d;
        })
    full-IsFine f = record {
      order = snoc_both-Sublistᴰ m (rw (append-nil ac) at f.order);
      one = omega arith;
      busy = f.busy;
      idle = f.idle;
      known = f.known;
      due = λ h. refl;
      count = λ h. let old = f.count h in let a = length-append off (m ∷ []) in omega arith;
    }

    pub closed-IsFine :
        IsFine (record {
          registered = true;
          flight = fl;
          starting = [];
          queue = none;
          accepted = ac;
          offered = off;
          drops = d;
        })
        → IsFine (record {
          registered = false;
          flight = fl;
          starting = [];
          queue = none;
          accepted = ac;
          offered = off ++ m ∷ [];
          drops = d;
        })
    closed-IsFine f = record {
      order = snoc-Sublistᴰ m f.order;
      one = f.one;
      busy = f.busy;
      idle = λ h k. absurd (cc);
      known = λ h. absurd (cc);
      due = λ h. absurd (omega arith);
      count = λ h. absurd (cc);
    }
