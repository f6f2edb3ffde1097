-- ===== src/Topic/Router/Patterns.antt =====
-- `get_topics_for_unsubscribe` of topic_router.rs: the set of the topic patterns.
use mqtt_typed_client_next.Base.{
  Bool, false, List, [], ◌∷◌, any, ◌≡◌, ◌≢◌, refl, arith, ◌==◌, All, Bool-cases, inl, inr,
}
use mqtt_typed_client_next.Base.Text.{Text, text_Eq, text_eq_iff}
use mqtt_typed_client_next.Topic.PatternPath.{is_named}
use mqtt_typed_client_next.Topic.PatternPath.Binding.{mqtt_pattern}
use mqtt_typed_client_next.Topic.PatternPath.Validation.{Distinct}
use mqtt_typed_client_next.Topic.Router.{
  SubscriptionTable, Registered, TopicRouter, patterns_of, get_topics_for_unsubscribe,
}

-- A text that is not among others differs from each.
not_named : (t : Text) (ts : List Text) → is_named t ts ≡ false → All (λ m. m ≢ t) ts
not_named t [] h = tt
not_named t (m ∷ ts) h = ((λ e. ground (arith, text_eq_iff m t)), not_named t ts (ground arith))

module _ {C : Type 0} where
  abbrev pub has_topic : Text → SubscriptionTable (Registered C) → Bool
  has_topic t subscriptions = any (λ s. mqtt_pattern s.1.0 == t) subscriptions

  patterns_of-named :
      (t : Text) (subscriptions : SubscriptionTable (Registered C))
      → is_named t (patterns_of subscriptions) ≡ has_topic t subscriptions
  unfolding patterns_of
  patterns_of-named t [] = refl
  patterns_of-named t ((id, (topic, qos)) ∷ rest) =
      let p = mqtt_pattern topic in
      let later = patterns_of-named t rest in
      elim (Bool-cases (is_named p (patterns_of rest))) [
        | inr new ↦ rw (new, later) refl
        | inl old ↦ elim (Bool-cases (p == t)) [
          | inr other ↦ rw (old, other) later
          | inl same ↦ rw (old, same) (rw ((text_eq_iff p t).0 same) at old)
        ]
      ]

  patterns_of-Distinct :
      (subscriptions : SubscriptionTable (Registered C)) → Distinct (patterns_of subscriptions)
  unfolding patterns_of
  patterns_of-Distinct [] = tt
  patterns_of-Distinct ((id, (topic, qos)) ∷ rest) =
      let p = mqtt_pattern topic in
      let later = patterns_of-Distinct rest in
      elim (Bool-cases (is_named p (patterns_of rest))) [
        | inl old ↦ rw old later
        | inr new ↦ rw new (not_named p (patterns_of rest) new, later)
      ]

  -- The set has the topic pattern of each subscription once, and no other.
  pub get_topics_for_unsubscribe_lem :
      {T : Type 0} (r : TopicRouter C T)
      → Distinct (get_topics_for_unsubscribe r)
        × ((t : Text) → is_named t (get_topics_for_unsubscribe r) ≡ has_topic t r.subscriptions)
  unfolding get_topics_for_unsubscribe
  get_topics_for_unsubscribe_lem r =
      (patterns_of-Distinct r.subscriptions, λ t. patterns_of-named t r.subscriptions)
