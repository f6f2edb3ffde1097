-- ===== src/Topic/Router/Subscribe.antt =====
-- `add_subscription` of topic_router.rs.
use mqtt_typed_client_next.Base.{
  ◌+◌, ◌<◌, ◌%◌, Bool, true, false, some, List, [], ◌∷◌, ok, ◌≡◌, refl, arith, nat_Eq, ◌==◌, ◌↔◌,
  if◌then◌else◌, Memᴰ, ◌∙◌, sym, ap, inl, inr, Option-cases, Bool-cases, >>=-eq-ok, ok-injective,
}
use mathlib.Core.Option.{some-injective}
use mathlib.Core.Path.{subst}
use mqtt_typed_client_next.Base.Map
use mqtt_typed_client_next.Base.Map.{lookup-insert, Memᴰ-insert, lookup-Memᴰ}
use mqtt_typed_client_next.Topic.Qos.{QoS, qos_lt}
use mqtt_typed_client_next.Topic.Filter.{TopicFilter, filter_eq, filter_eq_iff}
use mqtt_typed_client_next.Topic.Matcher.{get_or_create_subscription_table, or_new}
use mqtt_typed_client_next.Topic.Matcher.Lookup.{table_at}
use mqtt_typed_client_next.Topic.Matcher.Update.{table-get_or_create, get_or_create-Writes}
use mqtt_typed_client_next.Topic.PatternPath.{TopicPatternPath}
use mqtt_typed_client_next.Topic.PatternPath.Binding.{resolve_bound_segments}
use mqtt_typed_client_next.Topic.Router.{
  SubscriptionId, SubscriptionTable, Registered, TopicRouter, add_subscription, qos_of, max_qos,
  exceeds, usize_mod, table_Payload, no_entry,
}
use mqtt_typed_client_next.Topic.Router.Invariant.{IsLinked, filter_at}
use mqtt_typed_client_next.Topic.Router.Levels.{exceeds-max_qos, qos_of-AreLevels}

module _ {C T : Type 0} (r : TopicRouter C T) (linked : IsLinked r) (topic : TopicPatternPath C)
    (qos : QoS) (t : T) where
  abbrev target : TopicFilter
  target = filter_at (topic, qos)

  abbrev old_table : SubscriptionTable T
  old_table = or_new [] (table_at target r.topic_matcher)

  abbrev written : TopicRouter C T
  written = record {
    topic_matcher =
        (get_or_create_subscription_table (resolve_bound_segments topic) r.topic_matcher).1
          (Map.insert r.next_id t old_table);
    subscriptions = Map.insert r.next_id (topic, qos) r.subscriptions;
    next_id = r.next_id + 1;
  }

  written_at :
      (g : TopicFilter)
      → table_at g written.topic_matcher ≡ (
          if filter_eq target g
          then some (Map.insert r.next_id t old_table)
          else table_at g r.topic_matcher)
  written_at g =
      get_or_create-Writes (resolve_bound_segments topic) r.topic_matcher
        (Map.insert r.next_id t old_table) g

  old_table_owned :
      (id : SubscriptionId) (u : T)
      → Memᴰ (id, u) old_table
      → (s : Registered C) × (Map.lookup id r.subscriptions ≡ some s) × (filter_at s ≡ target)
  old_table_owned id u m = elim (Option-cases (table_at target r.topic_matcher)) [
    | inl e ↦ elim (rw e at m) [ ]
    | inr (d, e) ↦ linked.owned target d id u e (rw e at m)
  ]

  found_after :
      (id : SubscriptionId)
      → Map.lookup id written.subscriptions
        ≡ (if r.next_id == id then some (topic, qos) else Map.lookup id r.subscriptions)
  found_after id = lookup-insert id r.next_id (topic, qos) r.subscriptions

  -- A table that an old subscription is in, after the insertion.
  kept :
      (g : TopicFilter) (table : SubscriptionTable T) (id : SubscriptionId) (u : T)
      → r.next_id == id ≡ false
      → table_at g r.topic_matcher ≡ some table
      → Map.lookup id table ≡ some u
      → (table' : SubscriptionTable T) × (v : T) × (table_at g written.topic_matcher ≡ some table')
        × (Map.lookup id table' ≡ some v)
  kept g table id u other at has = elim (Bool-cases (filter_eq target g)) [
    | inl here ↦ (
      Map.insert r.next_id t old_table,
      u,
      written_at g ∙ rw here refl,
      ground (arith, (filter_eq_iff target g).0 here, lookup-insert id r.next_id t old_table),
    )
    | inr elsewhere ↦ (table, u, written_at g ∙ rw elsewhere at, has)
  ]

  linked_after :
      (id : SubscriptionId) (s : Registered C)
      → Map.lookup id written.subscriptions ≡ some s
      → (table : SubscriptionTable T) × (u : T) × (table_at (filter_at s) written.topic_matcher
          ≡ some table)
        × (Map.lookup id table ≡ some u)
  linked_after id s found = elim (Bool-cases (r.next_id == id)) [
    | inl newest ↦
        let same : (topic, qos) ≡ s =
          some-injective _ _ (rw newest at (sym (found_after id) ∙ found)) in
        (
          Map.insert r.next_id t old_table,
          t,
          written_at (filter_at s)
              ∙ rw ((filter_eq_iff target (filter_at s)).1 (ap filter_at same)) refl,
          lookup-insert id r.next_id t old_table ∙ rw newest refl,
        )
    | inr old ↦
        let (table, u, at, has) = linked.linked id s (rw old at (sym (found_after id) ∙ found)) in
        kept (filter_at s) table id u old at has
  ]

  old_owner :
      (f : TopicFilter) (id : SubscriptionId) (s : Registered C)
      → Map.lookup id r.subscriptions ≡ some s
      → filter_at s ≡ f
      → (s : Registered C) × (Map.lookup id written.subscriptions ≡ some s) × (filter_at s ≡ f)
  old_owner f id s found same =
      let below : id < r.next_id = linked.fresh id s found in
      (s, found_after id ∙ ground arith, same)

  owned_after :
      (f : TopicFilter) (table : SubscriptionTable T) (id : SubscriptionId) (u : T)
      → table_at f written.topic_matcher ≡ some table
      → Memᴰ (id, u) table
      → (s : Registered C) × (Map.lookup id written.subscriptions ≡ some s) × (filter_at s ≡ f)
  owned_after f table id u at m = elim (Bool-cases (filter_eq target f)) [
    | inl here ↦
        let same : target ≡ f = (filter_eq_iff target f).0 here in
        let grown : Map.insert r.next_id t old_table ≡ table =
          some-injective _ _ (rw here at (sym (written_at f) ∙ at)) in
        elim (Memᴰ-insert r.next_id t old_table (rw (sym grown) at m)) [
          | inl e ↦ (
            (topic, qos),
            found_after id
                ∙ rw
                    ((nat_Eq.beq_iff r.next_id id).1 (sym (ap (λ (x : SubscriptionId × T). x.0) e)))
                    refl,
            same,
          )
          | inr m' ↦
              let (s, found, own) = old_table_owned id u m' in old_owner f id s found (own ∙ same)
        ]
    | inr elsewhere ↦
        let (s, found, own) =
          linked.owned f table id u (rw elsewhere at (sym (written_at f) ∙ at)) m in
        old_owner f id s found own
  ]

  old_table-DistinctKeys : Map.DistinctKeys old_table
  old_table-DistinctKeys = elim (Option-cases (table_at target r.topic_matcher)) [
    | inl e ↦ rw e tt
    | inr (d, e) ↦ rw e (linked.keyed target d e)
  ]

  keyed_after :
      (g : TopicFilter) (d : SubscriptionTable T)
      → table_at g written.topic_matcher ≡ some d
      → Map.DistinctKeys d
  keyed_after g d at = elim (Bool-cases (filter_eq target g)) [
    | inl here ↦
        subst Map.DistinctKeys (some-injective _ _ (rw here at (sym (written_at g) ∙ at)))
          (Map.insert-DistinctKeys r.next_id t old_table old_table-DistinctKeys)
    | inr elsewhere ↦ linked.keyed g d (rw elsewhere at (sym (written_at g) ∙ at))
  ]

  insert-no_entry :
      (id : SubscriptionId) (u : T) (table : SubscriptionTable T)
      → no_entry (Map.insert id u table) ≡ false
  unfolding Map.insert
  insert-no_entry id u [] = refl
  insert-no_entry id u ((j, v) ∷ table) = ground arith

  written-IsLinked : IsLinked written
  written-IsLinked = record {
    linked = linked_after;
    owned = owned_after;
    clean = λ g d at.
        ground (arith, written_at g, at, linked.clean g d, insert-no_entry r.next_id t old_table);
    keyed = keyed_after;
    fresh = λ id s found.
        let old : Map.lookup id r.subscriptions ≡ some s → id < r.next_id = linked.fresh id s in
        ground (arith, found_after id, old, found);
  }

  add_subscription-written :
      (levels : List QoS)
      → qos_of r.subscriptions old_table ≡ ok levels
      → r.next_id + 1 < usize_mod
      → add_subscription r topic qos t ≡ ok ((exceeds qos (max_qos levels), r.next_id), written)
  unfolding add_subscription
  add_subscription-written levels run room =
      let wrapped : (r.next_id + 1) % usize_mod ≡ r.next_id + 1 = omega arith in
      rw (table-get_or_create (resolve_bound_segments topic) r.topic_matcher, run) (rw wrapped refl)

  -- In a linked router whose next id is not the last one, a subscription is added without a panic
  -- under the next id. The new router is linked, has the new subscription and the old ones, and the
  -- flag asks for a subscription at the broker exactly where every subscription with the same
  -- filter has a lower level than the new one.
  pub add_subscription-IsLinked :
      r.next_id + 1 < usize_mod
      → (needs : Bool) × (r' : TopicRouter C T) × (add_subscription r topic qos t
          ≡ ok ((needs, r.next_id), r'))
        × IsLinked r'
        × ((id : SubscriptionId)
            → Map.lookup id r'.subscriptions
              ≡ (if r.next_id == id then some (topic, qos) else Map.lookup id r.subscriptions))
        × ((needs ≡ true) ↔ (
            (id : SubscriptionId) (s : Registered C)
            → Map.lookup id r.subscriptions ≡ some s
            → filter_at s ≡ filter_at (topic, qos)
            → qos_lt s.1 qos ≡ true))
  add_subscription-IsLinked room =
      let (levels, run, are) =
        qos_of-AreLevels r.subscriptions old_table
          (λ id u m. let (s, found, own) = old_table_owned id u m in (s, found)) in
      (
        exceeds qos (max_qos levels),
        written,
        add_subscription-written levels run room,
        written-IsLinked,
        found_after,
        (
          λ h id s found same.
              let (table, u, at, has) = linked.linked id s found in
              (exceeds-max_qos qos levels).0 h s.1
                ((are s.1).1 (id, u, s, rw (sym same, at) (lookup-Memᴰ id table has), found, refl)),
          λ h. (exceeds-max_qos qos levels).1 (λ q m.
              let (id, u, s, m', found, lv) = (are q).0 m in
              let (s', found', own) = old_table_owned id u m' in
              rw (sym lv)
                (h id s found (ap filter_at (some-injective _ _ (sym found ∙ found')) ∙ own))),
        ),
      )

pub next_id-add_subscription :
    {C T : Type 0} (r : TopicRouter C T) (topic : TopicPatternPath C) (qos : QoS) (t : T)
    (out : Bool × SubscriptionId) (r' : TopicRouter C T)
    → add_subscription r topic qos t ≡ ok (out, r')
    → r.next_id + 1 < usize_mod
    → r'.next_id ≡ r.next_id + 1
unfolding add_subscription
next_id-add_subscription r topic qos t out r' run room =
    let table =
      (get_or_create_subscription_table (resolve_bound_segments topic) r.topic_matcher).0 in
    let (levels, e, done) = >>=-eq-ok (qos_of r.subscriptions table) _ run in
    sym (ap (λ x. x.1.next_id) (ok-injective done)) ∙ omega arith
