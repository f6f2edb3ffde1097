-- ===== src/Topic/Router/Invariant.antt =====
-- How the trie and the map of subscriptions of a router belong together.
use mqtt_typed_client_next.Base.{◌<◌, some, List, [], ◌∷◌, ok, ◌≡◌, refl, inl, inr, nat_Eq, Memᴰ}
use mathlib.Core.List.Memᴰ
use mqtt_typed_client_next.Base.Map
use mqtt_typed_client_next.Topic.Filter.{TopicFilter, filter_of}
use mqtt_typed_client_next.Topic.Matcher.Change.{table_at-new}
use mqtt_typed_client_next.Topic.Matcher.Lookup.{table_at}
use mqtt_typed_client_next.Topic.Matcher.Update.{IsClean}
use mqtt_typed_client_next.Topic.PatternPath.Binding.{resolve_bound_segments}
use mqtt_typed_client_next.Topic.Router.{
  SubscriptionId, SubscriptionTable, Registered, TopicRouter, empty_router, concat, table_Payload,
  expect,
}

-- The filter under which a subscription is stored.
abbrev pub filter_at : {C : Type 0} → Registered C → TopicFilter
filter_at s = filter_of (resolve_bound_segments s.0)

-- Every subscription has its payload under its filter, every payload belongs to a subscription
-- with that filter, no table is empty or has an id
-- twice, and ids are below the next one.
pub record IsLinked {C T : Type 0} (r : TopicRouter C T) : Type 0 where
  pub linked :
      (id : SubscriptionId) (s : Registered C)
      → Map.lookup id r.subscriptions ≡ some s
      → (table : SubscriptionTable T) × (t : T) × (table_at (filter_at s) r.topic_matcher
          ≡ some table)
        × (Map.lookup id table ≡ some t)
  pub owned :
      (f : TopicFilter) (table : SubscriptionTable T) (id : SubscriptionId) (t : T)
      → table_at f r.topic_matcher ≡ some table
      → Memᴰ (id, t) table
      → (s : Registered C) × (Map.lookup id r.subscriptions ≡ some s) × (filter_at s ≡ f)
  pub clean : IsClean r.topic_matcher
  pub keyed :
      (f : TopicFilter) (table : SubscriptionTable T)
      → table_at f r.topic_matcher ≡ some table
      → Map.DistinctKeys table
  pub fresh :
      (id : SubscriptionId) (s : Registered C)
      → Map.lookup id r.subscriptions ≡ some s
      → id < r.next_id

-- The router that is new is linked.
pub empty_router-IsLinked : {C T : Type 0} → IsLinked (empty_router {C = C} {T = T})
unfolding Map.lookup
empty_router-IsLinked = record {
  linked = λ id s h. absurd (cc);
  owned = λ f table id t h m. absurd (cc (table_at-new {T = SubscriptionTable _} f));
  clean = λ f d h. absurd (cc (table_at-new {T = SubscriptionTable _} f));
  keyed = λ f table h. absurd (cc (table_at-new {T = SubscriptionTable _} f));
  fresh = λ id s h. absurd (cc);
}

-- The lookup of an id that is there does not panic.
pub expect-some :
    {A : Type 0} (entries : SubscriptionTable A) (id : SubscriptionId) (s : A)
    → Map.lookup id entries ≡ some s
    → expect entries id ≡ ok s
unfolding expect
expect-some entries id s found = rw (found, expect) refl

module _ {ℓ} {A : Type ℓ} where
  pub Memᴰ-concat :
      (xss : List (List A)) {x : A} → Memᴰ x (concat xss) → (xs : List A) × Memᴰ xs xss × Memᴰ x xs
  Memᴰ-concat [] h = elim h [ ]
  Memᴰ-concat (xs ∷ xss) h = elim (Memᴰ.append_cases xs h) [
    | inl a ↦ (xs, Memᴰ.head refl, a)
    | inr b ↦ let (ys, m, i) = Memᴰ-concat xss b in (ys, Memᴰ.tail m, i)
  ]

  pub concat-Memᴰ :
      (xss : List (List A)) {xs : List A} {x : A} → Memᴰ xs xss → Memᴰ x xs → Memᴰ x (concat xss)
  concat-Memᴰ [] m h = elim m [ ]
  concat-Memᴰ (ys ∷ xss) (Memᴰ.head e) h = Memᴰ.append_left _ (rw e at h)
  concat-Memᴰ (ys ∷ xss) (Memᴰ.tail m) h = Memᴰ.append_right ys (concat-Memᴰ xss m h)
