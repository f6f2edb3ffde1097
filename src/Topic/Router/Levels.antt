-- ===== src/Topic/Router/Levels.antt =====
-- The levels that `add_subscription` of topic_router.rs compares the new one with.
use mqtt_typed_client_next.Base.{
  true, some, List, [], ◌∷◌, ok, ◌≡◌, refl, arith, nat_Eq, Memᴰ, ◌↔◌, ◌∙◌, sym, ap, inl, inr,
  Option-cases,
}
use mathlib.Core.List.Memᴰ
use mathlib.Core.Option.{some-injective}
use mqtt_typed_client_next.Base.Map
use mqtt_typed_client_next.Topic.Qos.{QoS, qos_lt}
use mqtt_typed_client_next.Topic.Router.{
  SubscriptionId, SubscriptionTable, Registered, qos_of, max_qos, exceeds,
}
use mqtt_typed_client_next.Topic.Router.Invariant.{expect-some}

-- Being above a level and above the maximum of others.
exceeds-cons :
    (qos q : QoS) (qs : List QoS)
    → exceeds qos (max_qos (q ∷ qs)) ≡ true
    → (qos_lt q qos ≡ true) × (exceeds qos (max_qos qs) ≡ true)
unfolding max_qos
exceeds-cons qos q qs h = elim (Option-cases (max_qos qs)) [
  | inl e ↦ (rw (e, max_qos) at h, rw e refl)
  | inr (m, e) ↦ rw e (ground (arith, h, e))
]

exceeds_cons :
    (qos q : QoS) (qs : List QoS)
    → qos_lt q qos ≡ true
    → exceeds qos (max_qos qs) ≡ true
    → exceeds qos (max_qos (q ∷ qs)) ≡ true
unfolding max_qos
exceeds_cons qos q qs below h = ground arith

pub exceeds-max_qos :
    (qos : QoS) (qs : List QoS)
    → (exceeds qos (max_qos qs) ≡ true) ↔ ((q : QoS) → Memᴰ q qs → qos_lt q qos ≡ true)
unfolding max_qos
exceeds-max_qos qos [] = ((λ h q m. elim m [ ]), (λ h. refl))
exceeds-max_qos qos (q ∷ qs) = (
  λ h x m.
      let (a, b) = exceeds-cons qos q qs h in
      elim (Memᴰ.cases_cons m) [ inl e ↦ rw e a | inr m' ↦ (exceeds-max_qos qos qs).0 b x m' ],
  λ h.
      exceeds_cons qos q qs (h q (Memᴰ.head refl))
        ((exceeds-max_qos qos qs).1 (λ x m. h x (Memᴰ.tail m))),
)

module _ {C T : Type 0} (subscriptions : SubscriptionTable (Registered C)) where
  -- The levels of a table are those of the subscriptions with the ids of its entries.
  abbrev pub AreLevels : SubscriptionTable T → List QoS → Type 0
  AreLevels table qs =
      (q : QoS)
      → Memᴰ q qs ↔ (
          (id : SubscriptionId) × (t : T) × (s : Registered C) × Memᴰ (id, t) table
          × (Map.lookup id subscriptions ≡ some s)
          × (s.1 ≡ q))

  qos_of-cons :
      (id : SubscriptionId) (t : T) (s : Registered C) (table : SubscriptionTable T) (qs : List QoS)
      → Map.lookup id subscriptions ≡ some s
      → qos_of subscriptions table ≡ ok qs
      → qos_of subscriptions ((id, t) ∷ table) ≡ ok (s.1 ∷ qs)
  unfolding qos_of
  qos_of-cons id t s table qs found run =
      rw (expect-some subscriptions id s found, qos_of, run) refl

  AreLevels-cons :
      (id : SubscriptionId) (t : T) (s : Registered C) (table : SubscriptionTable T) (qs : List QoS)
      → Map.lookup id subscriptions ≡ some s
      → AreLevels table qs
      → AreLevels ((id, t) ∷ table) (s.1 ∷ qs)
  AreLevels-cons id t s table qs found levels q = (
    λ m. elim (Memᴰ.cases_cons m) [
      | inl e ↦ (id, t, s, Memᴰ.head refl, found, sym e)
      | inr m' ↦ let (j, u, z, a, b, c) = (levels q).0 m' in (j, u, z, Memᴰ.tail a, b, c)
    ],
    λ (j, u, z, m, found', same). elim (Memᴰ.cases_cons m) [
      | inl e ↦ Memᴰ.head (
          sym same
          ∙ ap (λ (z : Registered C). z.1)
              (some-injective _ _ (
                sym found'
                ∙ ap (λ (x : SubscriptionId × T). Map.lookup x.0 subscriptions) e
                ∙ found)))
      | inr m' ↦ Memᴰ.tail ((levels q).1 (j, u, z, m', found', same))
    ],
  )

  -- Where every entry of a table is registered no lookup panics.
  pub qos_of-AreLevels :
      (table : SubscriptionTable T)
      → ((id : SubscriptionId) (t : T)
          → Memᴰ (id, t) table
          → (s : Registered C) × (Map.lookup id subscriptions ≡ some s))
      → (qs : List QoS) × (qos_of subscriptions table ≡ ok qs) × AreLevels table qs
  unfolding qos_of
  qos_of-AreLevels [] registered =
      ([], refl, λ q. ((λ m. elim m [ ]), λ (id, t, s, m, _, _). elim m [ ]))
  qos_of-AreLevels ((id, t) ∷ table) registered =
      let (s, found) = registered id t (Memᴰ.head refl) in
      let (qs, run, levels) = qos_of-AreLevels table (λ i u m. registered i u (Memᴰ.tail m)) in
      (s.1 ∷ qs, qos_of-cons id t s table qs found run, AreLevels-cons id t s table qs found levels)
