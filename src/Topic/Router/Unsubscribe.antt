-- ===== src/Topic/Router/Unsubscribe.antt =====
-- `unsubscribe` of topic_router.rs.
use mqtt_typed_client_next.Base.{
  ◌<◌, Bool, true, false, none, some, [], ◌∷◌, ok, ◌≡◌, refl, arith, nat_Eq, ◌==◌, if◌then◌else◌,
  Memᴰ, ◌∙◌, sym, ap, inl, inr, Bool-cases, Option-cases, Result-cases, eq_sound,
}
use mathlib.Core.Option.{some-injective}
use mathlib.Core.Path.{subst}
use mqtt_typed_client_next.Base.Map
use mqtt_typed_client_next.Base.Map.{lookup-remove, Memᴰ-remove}
use mqtt_typed_client_next.Topic.Filter.{TopicFilter, filter_eq, filter_eq_iff}
use mqtt_typed_client_next.Topic.Matcher.{is_empty, update_node, unless_empty}
use mqtt_typed_client_next.Topic.Matcher.Change.{Writes}
use mqtt_typed_client_next.Topic.Matcher.Children.{TopicMatcherNode}
use mqtt_typed_client_next.Topic.Matcher.Lookup.{table_at}
use mqtt_typed_client_next.Topic.Matcher.Update.{update_node-Applied}
use mqtt_typed_client_next.Topic.PatternPath.Binding.{resolve_bound_segments}
use mqtt_typed_client_next.Topic.PatternPath.{TopicPatternPath}
use mqtt_typed_client_next.Topic.Router.{
  SubscriptionId, SubscriptionTable, Registered, TopicRouter, unsubscribe, unlink, table_Payload,
  no_entry,
}
use mqtt_typed_client_next.Topic.Router.Invariant.{IsLinked, filter_at}

-- A table that has an entry left is kept.
lookup-no_entry :
    {T : Type 0} (id : SubscriptionId) (table : SubscriptionTable T) (u : T)
    → Map.lookup id table ≡ some u
    → no_entry table ≡ false
unfolding Map.lookup
lookup-no_entry id [] u h = absurd (cc)
lookup-no_entry id (e ∷ table) u h = refl

module _ {C T : Type 0} (r : TopicRouter C T) (linked : IsLinked r) (id : SubscriptionId)
    (s : Registered C) (found : Map.lookup id r.subscriptions ≡ some s)
    (table : SubscriptionTable T) (at : table_at (filter_at s) r.topic_matcher ≡ some table)
    (matcher : TopicMatcherNode (SubscriptionTable T))
    (writes : Writes
      (filter_at s)
      (unless_empty (Map.remove id table))
      r.topic_matcher
      matcher) where
  abbrev removed : TopicRouter C T
  removed = record r { topic_matcher = matcher; subscriptions = Map.remove id r.subscriptions }

  found_removed :
      (j : SubscriptionId)
      → Map.lookup j removed.subscriptions
        ≡ (if id == j then none else Map.lookup j r.subscriptions)
  found_removed j = lookup-remove j id r.subscriptions

  linked_removed :
      (j : SubscriptionId) (z : Registered C)
      → Map.lookup j removed.subscriptions ≡ some z
      → (d : SubscriptionTable T) × (u : T) × (table_at (filter_at z) matcher ≡ some d)
        × (Map.lookup j d ≡ some u)
  linked_removed j z h = elim (Bool-cases (id == j)) [
    | inl e ↦ absurd (cc (found_removed j))
    | inr other ↦
        let (d, u, at', has) = linked.linked j z (rw other at (sym (found_removed j) ∙ h)) in
        elim (Bool-cases (filter_eq (filter_at s) (filter_at z))) [
          | inl here ↦
              let same : table ≡ d = some-injective _ _ (
                sym at ∙ ap (λ f. table_at f r.topic_matcher) ((filter_eq_iff _ _).0 here) ∙ at') in
              let left : Map.lookup j (Map.remove id table) ≡ some u =
                lookup-remove j id table ∙ rw (other, same) has in
              (
                Map.remove id table,
                u,
                writes (filter_at z)
                    ∙ rw (here, lookup-no_entry j (Map.remove id table) u left) refl,
                left,
              )
          | inr elsewhere ↦ (d, u, writes (filter_at z) ∙ rw elsewhere at', has)
        ]
  ]

  other_id :
      (f : TopicFilter) (j : SubscriptionId) (z : Registered C)
      → Map.lookup j r.subscriptions ≡ some z
      → filter_at z ≡ f
      → filter_eq (filter_at s) f ≡ false
      → (if id == j then none else Map.lookup j r.subscriptions) ≡ some z
  other_id f j z found' own elsewhere = elim (Bool-cases (id == j)) [
    | inl e ↦
        let same : s ≡ z = some-injective _ _ (
          sym found
          ∙ ap (λ i. Map.lookup i r.subscriptions) ((nat_Eq.beq_iff id j).0 e)
          ∙ found') in
        let hit : filter_eq (filter_at s) f ≡ true =
          (filter_eq_iff _ _).1 (ap filter_at same ∙ own) in
        absurd (cc)
    | inr e ↦ rw e found'
  ]

  owned_removed :
      (f : TopicFilter) (d : SubscriptionTable T) (j : SubscriptionId) (u : T)
      → table_at f matcher ≡ some d
      → Memᴰ (j, u) d
      → (z : Registered C) × (Map.lookup j removed.subscriptions ≡ some z) × (filter_at z ≡ f)
  owned_removed f d j u h m = elim (Bool-cases (filter_eq (filter_at s) f)) [
    | inl here ↦
        let same : filter_at s ≡ f = (filter_eq_iff _ _).0 here in
        let shrunk : Map.remove id table ≡ d = ground (arith, writes f, h, here) in
        let (m', other) = Memᴰ-remove id table (rw (sym shrunk) at m) in
        let (z, found', own) = linked.owned (filter_at s) table j u at m' in
        (z, found_removed j ∙ ground (arith, nat_Eq.beq_iff id j, nat_Eq.beq_iff j id), own ∙ same)
    | inr elsewhere ↦
        let (z, found', own) = linked.owned f d j u (rw elsewhere at (sym (writes f) ∙ h)) m in
        (z, found_removed j ∙ other_id f j z found' own elsewhere, own)
  ]

  keyed_removed :
      (g : TopicFilter) (d : SubscriptionTable T) → table_at g matcher ≡ some d → Map.DistinctKeys d
  keyed_removed g d h = elim (Bool-cases (filter_eq (filter_at s) g)) [
    | inl here ↦
        let shrunk : Map.remove id table ≡ d = ground (arith, writes g, h, here) in
        subst Map.DistinctKeys shrunk
          (Map.remove-DistinctKeys id table (linked.keyed (filter_at s) table at))
    | inr elsewhere ↦ linked.keyed g d (rw elsewhere at (sym (writes g) ∙ h))
  ]

  removed-IsLinked : IsLinked removed
  removed-IsLinked = record {
    linked = linked_removed;
    owned = owned_removed;
    clean = λ g d h. ground (arith, writes g, h, linked.clean g d);
    keyed = keyed_removed;
    fresh = λ j z h.
        let old : Map.lookup j r.subscriptions ≡ some z → j < r.next_id = linked.fresh j z in
        ground (arith, found_removed j, old, h);
  }

unlink-ok :
    {C T : Type 0} (r : TopicRouter C T) (id : SubscriptionId) (s : Registered C)
    (matcher : TopicMatcherNode (SubscriptionTable T)) (flag : Bool)
    → update_node (resolve_bound_segments s.0) (Map.remove id) r.topic_matcher ≡ ok (matcher, flag)
    → unlink r id s.0 ≡ (
      ok (flag, s.0),
      record r { topic_matcher = matcher; subscriptions = Map.remove id r.subscriptions },
    )
unlink-ok r id s matcher flag run = rw (run, unlink) refl

unsubscribe-ok :
    {C T : Type 0} (r : TopicRouter C T) (id : SubscriptionId) (s : Registered C)
    (matcher : TopicMatcherNode (SubscriptionTable T)) (flag : Bool)
    → Map.lookup id r.subscriptions ≡ some s
    → update_node (resolve_bound_segments s.0) (Map.remove id) r.topic_matcher ≡ ok (matcher, flag)
    → unsubscribe r id ≡ (
      ok (flag, s.0),
      record r { topic_matcher = matcher; subscriptions = Map.remove id r.subscriptions },
    )
unfolding unsubscribe
unsubscribe-ok r id s matcher flag found run =
    rw (found, unsubscribe) (unlink-ok r id s matcher flag run)

-- In a linked router, removing a subscription that is there succeeds with its pattern, keeps the
-- router linked, removes that subscription and no other, and leaves the next id. The flag says
-- that the whole trie has become empty, whatever the pattern of the removed subscription.
pub unsubscribe-IsLinked :
    {C T : Type 0} (r : TopicRouter C T) (id : SubscriptionId) (s : Registered C)
    → IsLinked r
    → Map.lookup id r.subscriptions ≡ some s
    → (r' : TopicRouter C T) × (unsubscribe r id ≡ (ok (is_empty r'.topic_matcher, s.0), r'))
      × IsLinked r'
      × ((j : SubscriptionId)
          → Map.lookup j r'.subscriptions
            ≡ (if id == j then none else Map.lookup j r.subscriptions))
      × (r'.next_id ≡ r.next_id)
unfolding unsubscribe
unsubscribe-IsLinked r id s linked found =
    let (table, t, at, has) = linked.linked id s found in
    let ((matcher, flag), run, writes, same) =
      update_node-Applied (Map.remove id) (resolve_bound_segments s.0) r.topic_matcher table
        linked.clean at in
    (
      removed r linked id s found table at matcher writes,
      unsubscribe-ok r id s matcher flag found run ∙ rw same refl,
      removed-IsLinked r linked id s found table at matcher writes,
      found_removed r linked id s found table at matcher writes,
      refl,
    )

lookup-unlink :
    {C T : Type 0} (r : TopicRouter C T) (id j : SubscriptionId) (topic : TopicPatternPath C)
    → Map.lookup j (unlink r id topic).1.subscriptions
      ≡ (if id == j then none else Map.lookup j r.subscriptions)
lookup-unlink r id j topic =
    elim (Result-cases
      (update_node (resolve_bound_segments topic) (Map.remove id) r.topic_matcher)) [
        | inl (done, run) ↦ rw (run, unlink) (Map.lookup-remove j id r.subscriptions)
        | inr (e, run) ↦ rw (run, unlink) (Map.lookup-remove j id r.subscriptions)
      ]

-- Removing a subscription takes its entry out of the map, and no other, whatever the outcome.
pub lookup-unsubscribe :
    {C T : Type 0} (r : TopicRouter C T) (id j : SubscriptionId)
    → Map.lookup j (unsubscribe r id).1.subscriptions
      ≡ (if id == j then none else Map.lookup j r.subscriptions)
unfolding unsubscribe
lookup-unsubscribe r id j = elim (Option-cases (Map.lookup id r.subscriptions)) [
  | inl missing ↦
      rw (missing, unsubscribe)
        (elim (Bool-cases (id == j)) [
          | inl same ↦ rw same (rw (eq_sound {a = id} {b = j} same) at missing)
          | inr other ↦ rw other refl
        ])
  | inr (s, found) ↦ rw (found, unsubscribe) (lookup-unlink r id j s.0)
]
