-- ===== src/Topic/Router/Distinct.antt =====
-- The ids that `get_subscribers` of topic_router.rs names.
use mqtt_typed_client_next.Base.{
  some, List, [], ◌∷◌, ◌++◌, ok, ◌≡◌, refl, nat_Eq, Memᴰ, ◌∙◌, sym, ap, inl, inr, Option-cases,
  ok-injective, Memᴰ-filter_map, >>=-eq-ok,
}
use mathlib.Core.List.{filter_map}
use mathlib.Core.List.Memᴰ
use mathlib.Core.Option.{some-injective}
use mqtt_typed_client_next.Base.Map
use mqtt_typed_client_next.Base.Map.{lookup-Memᴰ, lookup-eq_none, DistinctKeys}
use mqtt_typed_client_next.Base.Text.{Text}
use mqtt_typed_client_next.Topic.Filter.{TopicFilter}
use mqtt_typed_client_next.Topic.Filter.Enumeration.{matching_filters}
use mqtt_typed_client_next.Topic.Filter.Distinct.{AreDistinct, matching_filters-AreDistinct}
use mqtt_typed_client_next.Topic.Matcher.{find_by_path}
use mqtt_typed_client_next.Topic.Matcher.Lookup.{table_at, find_by_path-eq}
use mqtt_typed_client_next.Topic.Router.{
  SubscriptionId, SubscriptionTable, Registered, Subscriber, TopicRouter, concat, with_patterns,
  get_subscribers, expect,
}
use mqtt_typed_client_next.Topic.Router.Invariant.{IsLinked, filter_at, Memᴰ-concat}

DistinctKeys-append :
    {T : Type 0} (xs ys : SubscriptionTable T)
    → DistinctKeys xs
    → DistinctKeys ys
    → ((k : SubscriptionId) (u v : T) → Memᴰ (k, u) xs → Memᴰ (k, v) ys → ⊥)
    → DistinctKeys (xs ++ ys)
DistinctKeys-append [] ys hx hy apart = hy
DistinctKeys-append ((k, u) ∷ xs) ys (new, hx) hy apart = (
  elim (Option-cases (Map.lookup k (xs ++ ys))) [
    | inl e ↦ e
    | inr (v, e) ↦ elim (Memᴰ.append_cases xs (lookup-Memᴰ k (xs ++ ys) e)) [
      | inl a ↦ absurd (lookup-eq_none k v xs new a)
      | inr b ↦ absurd (apart k u v (Memᴰ.head refl) b)
    ]
  ],
  DistinctKeys-append xs ys hx hy (λ j a b m n. apart j a b (Memᴰ.tail m) n),
)

module _ {C T : Type 0} (r : TopicRouter C T) (linked : IsLinked r) where
  abbrev tables : List TopicFilter → List (SubscriptionTable T)
  tables fs = filter_map (λ f. table_at f r.topic_matcher) fs

  -- An id stands in the table of one filter only.
  apart_tables :
      (f : TopicFilter) (fs : List TopicFilter) (d : SubscriptionTable T)
      → (Memᴰ f fs → ⊥)
      → table_at f r.topic_matcher ≡ some d
      → (k : SubscriptionId) (u v : T) → Memᴰ (k, u) d
      → Memᴰ (k, v) (concat (tables fs))
      → ⊥
  apart_tables f fs d new at k u v m n =
      let (d', md, mv) = Memᴰ-concat (tables fs) n in
      let (g, mg, at') = Memᴰ-filter_map (λ f. table_at f r.topic_matcher) fs md in
      let (s, found, own) = linked.owned f d k u at m in
      let (s', found', own') = linked.owned g d' k v at' mv in
      let same : g ≡ f = sym own' ∙ ap filter_at (some-injective _ _ (sym found' ∙ found)) ∙ own in
      new (rw same at mg)

  concat-DistinctKeys : (fs : List TopicFilter) → AreDistinct fs → DistinctKeys (concat (tables fs))
  unfolding filter_map
  concat-DistinctKeys [] h = tt
  concat-DistinctKeys (f ∷ fs) (new, h) = elim (Option-cases (table_at f r.topic_matcher)) [
    | inl e ↦ rw (e, filter_map) (concat-DistinctKeys fs h)
    | inr (d, e) ↦
        rw (e, filter_map)
          (DistinctKeys-append d (concat (tables fs)) (linked.keyed f d e)
            (concat-DistinctKeys fs h) (apart_tables f fs d new e))
  ]

  found-DistinctKeys :
      (topic : List Text) → DistinctKeys (concat (find_by_path r.topic_matcher topic))
  found-DistinctKeys topic =
      rw find_by_path-eq
        (concat-DistinctKeys (matching_filters topic) (matching_filters-AreDistinct topic))

expect-eq_ok :
    {C : Type 0} (entries : SubscriptionTable (Registered C)) (id : SubscriptionId)
    (s : Registered C)
    → expect entries id ≡ ok s
    → Map.lookup id entries ≡ some s
unfolding expect
expect-eq_ok entries id s run = elim (Option-cases (Map.lookup id entries)) [
  | inl e ↦ absurd (cc (rw (e, expect) at run))
  | inr (s', e) ↦ e ∙ ap some (ok-injective (rw (e, expect) at run))
]

module _ {C T : Type 0} where
  -- No id stands twice among the subscribers.
  abbrev pub DistinctIds : List (Subscriber C T) → Type 0
  DistinctIds [] = Unit
  DistinctIds ((id, _, _) ∷ l) =
      ((s : Registered C) (t : T) → Memᴰ (id, s, t) l → ⊥) × DistinctIds l

  -- What `with_patterns` gives has the ids of the table, with what is registered under them.
  pub with_patterns-Memᴰ :
      (subscriptions : SubscriptionTable (Registered C)) (table : SubscriptionTable T)
      (l : List (Subscriber C T))
      → with_patterns subscriptions table ≡ ok l
      → (id : SubscriptionId) (s : Registered C) (t : T) → Memᴰ (id, s, t) l
      → Memᴰ (id, t) table × (Map.lookup id subscriptions ≡ some s)
  unfolding with_patterns expect
  with_patterns-Memᴰ subscriptions [] l run id s t m = elim (rw (sym (ok-injective run)) at m) [ ]
  with_patterns-Memᴰ subscriptions ((k, u) ∷ table) l run id s t m =
      let (s', found, run') = >>=-eq-ok (expect subscriptions k) _ run in
      let (rest, run'', e) = >>=-eq-ok (with_patterns subscriptions table) _ run' in
      elim (Memᴰ.cases_cons (rw (sym (ok-injective e)) at m)) [
        | inl q ↦ (
          Memᴰ.head (ap (λ (x : Subscriber C T). (x.0, x.2)) q),
          rw (ap (λ (x : Subscriber C T). x.0) q) (
              expect-eq_ok subscriptions k s' found
              ∙ ap some (sym (ap (λ (x : Subscriber C T). x.1) q))),
        )
        | inr m' ↦
            let (a, b) = with_patterns-Memᴰ subscriptions table rest run'' id s t m' in
            (Memᴰ.tail a, b)
      ]

  with_patterns-DistinctIds :
      (subscriptions : SubscriptionTable (Registered C)) (table : SubscriptionTable T)
      (l : List (Subscriber C T))
      → with_patterns subscriptions table ≡ ok l
      → DistinctKeys table
      → DistinctIds l
  unfolding with_patterns expect
  with_patterns-DistinctIds subscriptions [] l run h = rw (sym (ok-injective run)) tt
  with_patterns-DistinctIds subscriptions ((k, u) ∷ table) l run (new, h) =
      let (s', found, run') = >>=-eq-ok (expect subscriptions k) _ run in
      let (rest, run'', e) = >>=-eq-ok (with_patterns subscriptions table) _ run' in
      rw (sym (ok-injective e)) (
        (λ s t m.
            lookup-eq_none k t table new
              (with_patterns-Memᴰ subscriptions table rest run'' k s t m).0),
        with_patterns-DistinctIds subscriptions table rest run'' h,
      )

  -- In a linked router, the subscribers of a topic are distinct subscriptions, so that a message is
  -- handed to each of them once, whatever number of filters matches its topic.
  pub get_subscribers-DistinctIds :
      (r : TopicRouter C T)
      → IsLinked r
      → (topic : List Text) (l : List (Subscriber C T)) → get_subscribers r topic ≡ ok l
      → DistinctIds l
  unfolding get_subscribers
  get_subscribers-DistinctIds r linked topic l run =
      with_patterns-DistinctIds r.subscriptions (concat (find_by_path r.topic_matcher topic)) l run
        (found-DistinctKeys r linked topic)
