-- ===== src/Client/Manager/Pipe/Drain.antt =====
-- The end of a slow send, and the queue behind it that is worked off.
use mqtt_typed_client_next.Base.{
  ℕ, ◌+◌, ◌%◌, Bool, true, false, none, some, List, [], ◌∷◌, ◌++◌, length, length-append, ◌≡◌, refl,
  arith, Sublistᴰ, append-nil, append_assoc,
}
use mqtt_typed_client_next.Base.Sublists.{Sublistᴰ-drop_tail, Sublistᴰ-drop_one}
use mqtt_typed_client_next.Client.Manager.{u64_mod, SendResult, delivered, timeout}
use mqtt_typed_client_next.Client.Manager.Pipe.{IsFine, pipe}

-- A registered subscription whose queue has been taken out.
pub record IsDraining {M : Type 0} (rest accepted offered : List M) (drops : ℕ) : Type 0 where
  pub order : Sublistᴰ (accepted ++ rest) offered
  pub count : (length accepted + length rest + drops) % u64_mod ≡ length offered % u64_mod

module _ {M : Type 0} where
  -- What the channel has accepted after a slow send.
  abbrev pub landed : SendResult → M → List M → List M
  landed delivered m ac = ac ++ m ∷ []
  landed timeout m ac = ac
  landed SendResult.closed m ac = ac

  module _ (ac off : List M) (d : ℕ) where
    pub drained_nil : IsDraining [] ac off d → IsFine (pipe true [] [] none ac off d)
    drained_nil f = record {
      order = f.order;
      one = omega arith;
      busy = λ h. absurd (cc);
      idle = λ h k. refl;
      known = λ h. absurd (cc);
      due = λ h. absurd (omega arith);
      count = λ h. f.count;
    }

    pub finished-IsFine :
        (d' : ℕ) → Sublistᴰ (ac ++ []) off → IsFine (pipe false [] [] none ac off d')
    finished-IsFine d' s = record {
      order = s;
      one = omega arith;
      busy = λ h. absurd (cc);
      idle = λ h k. absurd (cc);
      known = λ h. absurd (cc);
      due = λ h. absurd (omega arith);
      count = λ h. absurd (cc);
    }

    pub drained_closed :
        (rest : List M) (d' : ℕ)
        → IsDraining rest ac off d
        → IsFine (pipe false [] [] none ac off d')
    drained_closed rest d' f =
        finished-IsFine d' (rw (append-nil ac) (Sublistᴰ-drop_tail ac rest f.order))

  module _ (m : M) (ac off : List M) (d : ℕ) where
    module _ (rest : List M) where
      pub drained_sent : IsDraining (m ∷ rest) ac off d → IsDraining rest (ac ++ m ∷ []) off d
      drained_sent f = record {
        order = rw (append_assoc ac (m ∷ []) rest) f.order;
        count = let h = f.count in let l = length-append ac (m ∷ []) in omega arith;
      }

      pub drained_full :
          IsDraining (m ∷ rest) ac off d → IsFine (pipe true (m ∷ []) [] (some rest) ac off d)
      drained_full f = record {
        order = f.order;
        one = omega arith;
        busy = λ h. refl;
        idle = λ h k. absurd (cc);
        known = λ h. refl;
        due = λ h. absurd (omega arith);
        count = λ h. f.count;
      }

    module _ (q : List M) (f : IsFine (pipe true (m ∷ []) [] (some q) ac off d)) where
      pub parked_delivered : IsDraining q (ac ++ m ∷ []) off d
      parked_delivered = record {
        order = rw (append_assoc ac (m ∷ []) q) f.order;
        count = let h = f.count refl in let l = length-append ac (m ∷ []) in omega arith;
      }

      pub parked_timeout : IsDraining q ac off ((d + 1) % u64_mod)
      parked_timeout = record {
        order = Sublistᴰ-drop_one ac m q f.order;
        count = let h = f.count refl in omega arith;
      }

      pub parked_closed : (d' : ℕ) → IsFine (pipe false [] [] none ac off d')
      parked_closed d' =
          finished-IsFine ac off d d' (rw (append-nil ac) (Sublistᴰ-drop_tail ac (m ∷ q) f.order))

    -- A slow send of a subscription that is not parked: it is not registered.
    pub unparked-IsFine :
        (r : Bool) (result : SendResult)
        → IsFine (pipe r (m ∷ []) [] none ac off d)
        → IsFine (pipe r [] [] none (landed result m ac) off d)
    unparked-IsFine true result f = absurd (let h = f.idle refl refl in omega arith)
    unparked-IsFine false result f = record {
      order = landed_order result;
      one = omega arith;
      busy = λ h. absurd (cc);
      idle = λ h k. absurd (cc);
      known = λ h. absurd (cc);
      due = λ h. absurd (omega arith);
      count = λ h. absurd (cc);
    }
      where
        landed_order : (result : SendResult) → Sublistᴰ (landed result m ac ++ []) off
        landed_order delivered = rw (append-nil (ac ++ m ∷ [])) f.order
        landed_order timeout = Sublistᴰ-drop_one ac m [] f.order
        landed_order SendResult.closed = Sublistᴰ-drop_one ac m [] f.order
