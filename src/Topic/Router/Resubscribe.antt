-- ===== src/Topic/Router/Resubscribe.antt =====
-- `get_topics_for_resubscribe` of topic_router.rs: the level per topic pattern.
use mqtt_typed_client_next.Base.{
  false, Option, none, some, List, [], ◌∷◌, ◌≡◌, refl, arith, ◌==◌, Memᴰ, ◌⊎◌, inl, inr, Bool-cases,
  ◌∙◌, sym, ap,
}
use mathlib.Core.List.Memᴰ
use mathlib.Core.Option.{some-injective}
use mqtt_typed_client_next.Base.Map
use mqtt_typed_client_next.Base.Map.{lookup-insert}
use mqtt_typed_client_next.Base.Text.{Text, text_Eq, text_eq_iff}
use mqtt_typed_client_next.Topic.Qos.{QoS, qos_lt}
use mqtt_typed_client_next.Topic.PatternPath.Binding.{mqtt_pattern}
use mqtt_typed_client_next.Topic.Router.{
  SubscriptionId, SubscriptionTable, Registered, TopicRouter, resubscribe_loop,
  get_topics_for_resubscribe, raise,
}

not_below_trans : (a b c : QoS) → qos_lt a b ≡ false → qos_lt b c ≡ false → qos_lt a c ≡ false
not_below_trans a b c h k = ground arith

raise-new : (q : QoS) (o : Option QoS) → qos_lt (raise q o) q ≡ false
raise-new q none = ground arith
raise-new q (some old) = ground arith

raise-old : (q old : QoS) → qos_lt (raise q (some old)) old ≡ false
raise-old q old = ground arith

raise-cases : (q : QoS) (o : Option QoS) → (raise q o ≡ q) ⊎ (o ≡ some (raise q o))
raise-cases q none = inl refl
raise-cases q (some old) = elim (Bool-cases (qos_lt old q)) [
  | inl e ↦ inl (rw e refl)
  | inr e ↦ inr (rw e refl)
]

module _ {C : Type 0} where
  -- A level that is there is never lowered.
  kept_level :
      (subs : SubscriptionTable (Registered C)) (result : List (Text × QoS)) (k : Text) (q : QoS)
      → Map.lookup k result ≡ some q
      → (m : QoS) × (Map.lookup k (resubscribe_loop subs result) ≡ some m) × (qos_lt m q ≡ false)
  unfolding resubscribe_loop
  kept_level [] result k q h = (q, h, ground arith)
  kept_level ((_, (topic, qos)) ∷ subs) result k q h =
      let p = mqtt_pattern topic in
      let o = Map.lookup p result in
      elim (Bool-cases (p == k)) [
        | inl e ↦
            let same : o ≡ some q = ap (λ x. Map.lookup x result) ((text_eq_iff p k).0 e) ∙ h in
            let (m, found, above) =
              kept_level subs (Map.insert p (raise qos o) result) k (raise qos o)
                (lookup-insert k p (raise qos o) result ∙ rw e refl) in
            let old : qos_lt (raise qos o) q ≡ false = rw same (raise-old qos q) in
            (m, found, not_below_trans m (raise qos o) q above old)
        | inr e ↦
            kept_level subs (Map.insert p (raise qos o) result) k q
              (lookup-insert k p (raise qos o) result ∙ rw e h)
      ]

  reached :
      (subs : SubscriptionTable (Registered C)) (result : List (Text × QoS)) (id : SubscriptionId)
      (s : Registered C)
      → Memᴰ (id, s) subs
      → (m : QoS) × (Map.lookup (mqtt_pattern s.0) (resubscribe_loop subs result) ≡ some m)
        × (qos_lt m s.1 ≡ false)
  unfolding resubscribe_loop
  reached [] result id s mem = elim mem [ ]
  reached ((j, (topic, qos)) ∷ subs) result id s mem =
      let p = mqtt_pattern topic in
      let o = Map.lookup p result in
      elim (Memᴰ.cases_cons mem) [
        | inl e ↦
            let here : s ≡ (topic, qos) = ap (λ (x : SubscriptionId × Registered C). x.1) e in
            rw here (
              let (m, found, above) =
                kept_level subs (Map.insert p (raise qos o) result) p (raise qos o)
                  (lookup-insert p p (raise qos o) result ∙ rw ((text_eq_iff p p).1 refl) refl) in
              (m, found, not_below_trans m (raise qos o) qos above (raise-new qos o)))
        | inr rest ↦ reached subs (Map.insert p (raise qos o) result) id s rest
      ]

  stems :
      (subs : SubscriptionTable (Registered C)) (result : List (Text × QoS)) (k : Text) (q : QoS)
      → Map.lookup k (resubscribe_loop subs result) ≡ some q
      → (Map.lookup k result ≡ some q)
        ⊎ ((id : SubscriptionId) × (s : Registered C) × Memᴰ (id, s) subs
            × (mqtt_pattern s.0 ≡ k)
            × (s.1 ≡ q))
  unfolding resubscribe_loop
  stems [] result k q h = inl h
  stems ((j, (topic, qos)) ∷ subs) result k q h =
      let p = mqtt_pattern topic in
      let o = Map.lookup p result in
      elim (stems subs (Map.insert p (raise qos o) result) k q h) [
        | inr (id, s, mem, pat, lv) ↦ inr (id, s, Memᴰ.tail mem, pat, lv)
        | inl found ↦ elim (Bool-cases (p == k)) [
          | inr e ↦ inl (rw e at (sym (lookup-insert k p (raise qos o) result) ∙ found))
          | inl e ↦
              let same : p ≡ k = (text_eq_iff p k).0 e in
              let top : raise qos o ≡ q =
                some-injective _ _
                  (rw e at (sym (lookup-insert k p (raise qos o) result) ∙ found)) in
              elim (raise-cases qos o) [
                | inl new ↦ inr (j, (topic, qos), Memᴰ.head refl, same, sym new ∙ top)
                | inr old ↦ inl (ap (λ x. Map.lookup x result) (sym same) ∙ old ∙ ap some top)
              ]
        ]
      ]

module _ {C T : Type 0} (r : TopicRouter C T) where
  -- The topic pattern of every subscription is among those to subscribe to again, with a level not
  -- below that of the subscription.
  pub get_topics_for_resubscribe_covers :
      (id : SubscriptionId) (s : Registered C)
      → Memᴰ (id, s) r.subscriptions
      → (m : QoS) × (Map.lookup (mqtt_pattern s.0) (get_topics_for_resubscribe r) ≡ some m)
        × (qos_lt m s.1 ≡ false)
  unfolding get_topics_for_resubscribe
  get_topics_for_resubscribe_covers = reached r.subscriptions []

  -- Every topic pattern to subscribe to again is that of a subscription with just this level.
  pub get_topics_for_resubscribe_stems :
      (pattern : Text) (q : QoS)
      → Map.lookup pattern (get_topics_for_resubscribe r) ≡ some q
      → (id : SubscriptionId) × (s : Registered C) × Memᴰ (id, s) r.subscriptions
        × (mqtt_pattern s.0 ≡ pattern)
        × (s.1 ≡ q)
  unfolding get_topics_for_resubscribe
  get_topics_for_resubscribe_stems pattern q h = elim (stems r.subscriptions [] pattern q h) [
    | inl none_yet ↦ absurd (unfold Map.lookup in cc)
    | inr found ↦ found
  ]
