-- ===== src/Client/Manager/View/Lists.antt =====
-- The slow sends and the notes of one subscription in longer lists.
use mqtt_typed_client_next.Base.{
  Bool, false, ◌||◌, List, [], ◌∷◌, ◌++◌, any, ◌≡◌, refl, ap, ◌∙◌, nat_Eq, ◌==◌, Bool-cases, inl,
  inr, arith, eq_refl, append-nil,
}
use mqtt_typed_client_next.Topic.Router.{SubscriptionId}
use mqtt_typed_client_next.Client.Manager.{SubscriberEntry, SlowSend, Note, offered, accepted}
use mqtt_typed_client_next.Client.Manager.View.{sends_of, accepted_by, offered_to}

pub any-append :
    {A : Type 0} (p : A → Bool) (xs ys : List A) → any p (xs ++ ys) ≡ (any p xs || any p ys)
any-append p [] ys = refl
any-append p (x ∷ xs) ys = ground (arith, any-append p xs ys)

module _ {S M : Type 0} (i : SubscriptionId) where
  pub sends_of-append :
      (xs ys : List (SlowSend S M)) → sends_of i (xs ++ ys) ≡ sends_of i xs ++ sends_of i ys
  unfolding sends_of
  sends_of-append [] ys = refl
  sends_of-append ((id, entry, msg) ∷ xs) ys = elim (Bool-cases (id == i)) [
    | inl same ↦ rw (same, sends_of) (ap (λ l. msg ∷ l) (sends_of-append xs ys))
    | inr other ↦ rw (other, sends_of) (sends_of-append xs ys)
  ]

  pub sends_of-snoc_self :
      (xs : List (SlowSend S M)) (entry : SubscriberEntry S) (msg : M)
      → sends_of i (xs ++ (i, entry, msg) ∷ []) ≡ sends_of i xs ++ msg ∷ []
  unfolding sends_of
  sends_of-snoc_self xs entry msg =
      sends_of-append xs ((i, entry, msg) ∷ []) ∙ rw (eq_refl i, sends_of) refl

  pub sends_of-snoc_other :
      (xs : List (SlowSend S M)) (id : SubscriptionId) (entry : SubscriberEntry S) (msg : M)
      → (id == i) ≡ false
      → sends_of i (xs ++ (id, entry, msg) ∷ []) ≡ sends_of i xs
  unfolding sends_of
  sends_of-snoc_other xs id entry msg other =
      sends_of-append xs ((id, entry, msg) ∷ []) ∙ rw (other, sends_of) (append-nil (sends_of i xs))

module _ {M : Type 0} (i : SubscriptionId) where
  accepted_by-append :
      (xs ys : List (Note M)) → accepted_by i (xs ++ ys) ≡ accepted_by i xs ++ accepted_by i ys
  unfolding accepted_by
  accepted_by-append [] ys = refl
  accepted_by-append (offered id msg ∷ xs) ys = accepted_by-append xs ys
  accepted_by-append (accepted id msg ∷ xs) ys = elim (Bool-cases (id == i)) [
    | inl same ↦ rw (same, accepted_by) (ap (λ l. msg ∷ l) (accepted_by-append xs ys))
    | inr other ↦ rw (other, accepted_by) (accepted_by-append xs ys)
  ]

  offered_to-append :
      (xs ys : List (Note M)) → offered_to i (xs ++ ys) ≡ offered_to i xs ++ offered_to i ys
  unfolding offered_to
  offered_to-append [] ys = refl
  offered_to-append (accepted id msg ∷ xs) ys = offered_to-append xs ys
  offered_to-append (offered id msg ∷ xs) ys = elim (Bool-cases (id == i)) [
    | inl same ↦ rw (same, offered_to) (ap (λ l. msg ∷ l) (offered_to-append xs ys))
    | inr other ↦ rw (other, offered_to) (offered_to-append xs ys)
  ]

  module _ (xs : List (Note M)) (msg : M) where
    pub accepted_self : accepted_by i (xs ++ accepted i msg ∷ []) ≡ accepted_by i xs ++ msg ∷ []
    unfolding accepted_by
    accepted_self = accepted_by-append xs (accepted i msg ∷ []) ∙ rw (eq_refl i, accepted_by) refl

    pub offered_self : offered_to i (xs ++ offered i msg ∷ []) ≡ offered_to i xs ++ msg ∷ []
    unfolding offered_to
    offered_self = offered_to-append xs (offered i msg ∷ []) ∙ rw (eq_refl i, offered_to) refl

    pub accepted_offered :
        (id : SubscriptionId) → accepted_by i (xs ++ offered id msg ∷ []) ≡ accepted_by i xs
    unfolding accepted_by
    accepted_offered id =
        accepted_by-append xs (offered id msg ∷ []) ∙ append-nil (accepted_by i xs)

    pub offered_accepted :
        (id : SubscriptionId) → offered_to i (xs ++ accepted id msg ∷ []) ≡ offered_to i xs
    unfolding offered_to
    offered_accepted id = offered_to-append xs (accepted id msg ∷ []) ∙ append-nil (offered_to i xs)

    module _ (id : SubscriptionId) (other : (id == i) ≡ false) where
      pub accepted_other : accepted_by i (xs ++ accepted id msg ∷ []) ≡ accepted_by i xs
      unfolding accepted_by
      accepted_other =
          accepted_by-append xs (accepted id msg ∷ [])
          ∙ rw (other, accepted_by) (append-nil (accepted_by i xs))

      pub offered_other : offered_to i (xs ++ offered id msg ∷ []) ≡ offered_to i xs
      unfolding offered_to
      offered_other =
          offered_to-append xs (offered id msg ∷ [])
          ∙ rw (other, offered_to) (append-nil (offered_to i xs))
