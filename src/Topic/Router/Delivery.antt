-- ===== src/Topic/Router/Delivery.antt =====
-- `get_subscribers` of topic_router.rs: who is given a topic.
use mqtt_typed_client_next.Base.{
  true, some, List, [], ◌∷◌, ok, ◌≡◌, refl, nat_Eq, ok-injective, Memᴰ, ◌↔◌, ◌∙◌, sym, ap, inl, inr,
}
use mathlib.Core.List.Memᴰ
use mathlib.Core.Option.{some-injective}
use mqtt_typed_client_next.Base.Map
use mqtt_typed_client_next.Base.Map.{lookup-Memᴰ}
use mqtt_typed_client_next.Base.Text.{Text}
use mqtt_typed_client_next.Topic.Filter.{matches}
use mqtt_typed_client_next.Topic.Matcher.{find_by_path}
use mqtt_typed_client_next.Topic.Matcher.Lookup.{find_by_path_iff}
use mqtt_typed_client_next.Topic.TopicMatch.{TopicPath}
use mqtt_typed_client_next.Topic.PatternPath.Matching.{try_match_internal}
use mqtt_typed_client_next.Topic.PatternPath.Matching.Decides.{
  HashIsLast, match_of, text_list, try_match_internal-ok,
}
use mqtt_typed_client_next.Topic.PatternPath.Binding.Laws.{resolve-matches}
use mqtt_typed_client_next.Topic.Router.{
  SubscriptionId, SubscriptionTable, Registered, Subscriber, TopicRouter, concat, with_patterns,
  get_subscribers,
}
use mqtt_typed_client_next.Topic.Router.Invariant.{
  IsLinked, filter_at, expect-some, Memᴰ-concat, concat-Memᴰ,
}

module _ {C T : Type 0} (subscriptions : SubscriptionTable (Registered C)) where
  -- What `with_patterns` makes of a table whose ids are all registered.
  abbrev Joined : SubscriptionTable T → List (Subscriber C T) → Type 0
  Joined table l =
      (id : SubscriptionId) (s : Registered C) (t : T)
      → Memᴰ (id, s, t) l ↔ (Memᴰ (id, t) table × (Map.lookup id subscriptions ≡ some s))

  same_entry :
      (id : SubscriptionId) (s : Registered C) (t : T) (id' : SubscriptionId) (s' : Registered C)
      (t' : T)
      → ◌≡◌ {A = SubscriptionId × T} (id', t') (id, t)
      → s' ≡ s
      → ◌≡◌ {A = Subscriber C T} (id', s', t') (id, s, t)
  same_entry id s t id' s' t' q e = cc

  Joined-cons :
      (id : SubscriptionId) (t : T) (s : Registered C) (table : SubscriptionTable T)
      (l : List (Subscriber C T))
      → Map.lookup id subscriptions ≡ some s
      → Joined table l
      → Joined ((id, t) ∷ table) ((id, s, t) ∷ l)
  Joined-cons id t s table l found joined id' s' t' = (
    λ m. elim (Memᴰ.cases_cons m) [
      | inl e ↦ (
        Memᴰ.head (ap (λ (x : Subscriber C T). (x.0, x.2)) e),
        rw (ap (λ (x : Subscriber C T). x.0) e)
            (found ∙ ap some (sym (ap (λ (x : Subscriber C T). x.1) e))),
      )
      | inr m' ↦ let (a, b) = (joined id' s' t').0 m' in (Memᴰ.tail a, b)
    ],
    λ (m, e). elim (Memᴰ.cases_cons m) [
      | inl q ↦ Memᴰ.head (
          same_entry id s t id' s' t' q (
            some-injective _ _
              (sym e ∙ ap (λ (x : SubscriptionId × T). Map.lookup x.0 subscriptions) q ∙ found)))
      | inr m' ↦ Memᴰ.tail ((joined id' s' t').1 (m', e))
    ],
  )

  with_patterns-cons :
      (id : SubscriptionId) (t : T) (s : Registered C) (table : SubscriptionTable T)
      (l : List (Subscriber C T))
      → Map.lookup id subscriptions ≡ some s
      → with_patterns subscriptions table ≡ ok l
      → with_patterns subscriptions ((id, t) ∷ table) ≡ ok ((id, s, t) ∷ l)
  unfolding with_patterns
  with_patterns-cons id t s table l found run =
      rw (expect-some subscriptions id s found, with_patterns, run) refl

  with_patterns-Joined :
      (table : SubscriptionTable T)
      → ((id : SubscriptionId) (t : T)
          → Memᴰ (id, t) table
          → (s : Registered C) × (Map.lookup id subscriptions ≡ some s))
      → (l : List (Subscriber C T)) × (with_patterns subscriptions table ≡ ok l) × Joined table l
  unfolding with_patterns
  with_patterns-Joined [] registered =
      ([], refl, λ id s t. ((λ m. elim m [ ]), λ (m, _). elim m [ ]))
  with_patterns-Joined ((id, t) ∷ table) registered =
      let (s, found) = registered id t (Memᴰ.head refl) in
      let (l, run, joined) = with_patterns-Joined table (λ i u m. registered i u (Memᴰ.tail m)) in
      (
        (id, s, t) ∷ l,
        with_patterns-cons id t s table l found run,
        Joined-cons id t s table l found joined,
      )

module _ {C T : Type 0} (r : TopicRouter C T) (linked : IsLinked r) (topic : List Text) where
  delivered :
      (id : SubscriptionId) (t : T)
      → Memᴰ (id, t) (concat (find_by_path r.topic_matcher topic))
      → (s : Registered C) × (Map.lookup id r.subscriptions ≡ some s)
  delivered id t m =
      let (table, met, has) = Memᴰ-concat (find_by_path r.topic_matcher topic) m in
      let (f, hit, at) = (find_by_path_iff r.topic_matcher topic table).0 met in
      let (s, found, same) = linked.owned f table id t at has in (s, found)

  delivered_filter :
      (id : SubscriptionId) (t : T)
      → Memᴰ (id, t) (concat (find_by_path r.topic_matcher topic))
      → (s : Registered C) → Map.lookup id r.subscriptions ≡ some s
      → matches (filter_at s) topic ≡ true
  delivered_filter id t m s found =
      let (table, met, has) = Memᴰ-concat (find_by_path r.topic_matcher topic) m in
      let (f, hit, at) = (find_by_path_iff r.topic_matcher topic table).0 met in
      let (s', found', same) = linked.owned f table id t at has in
      rw (some-injective _ _ (sym found ∙ found'), same) hit

  -- In a linked router no lookup panics, and a subscription is given the topic exactly when its
  -- filter, with its bound parameters, matches the topic.
  pub get_subscribers_iff :
      (l : List (Subscriber C T)) × (get_subscribers r topic ≡ ok l)
      × ((id : SubscriptionId) (s : Registered C)
          → ((t : T) × Memᴰ (id, s, t) l)
            ↔ ((Map.lookup id r.subscriptions ≡ some s) × (matches (filter_at s) topic ≡ true)))
  unfolding get_subscribers
  get_subscribers_iff =
      let tables = find_by_path r.topic_matcher topic in
      let (l, run, joined) = with_patterns-Joined r.subscriptions (concat tables) delivered in
      (
        l,
        run,
        λ id s. (
          λ (t, m).
              let (stored, found) = (joined id s t).0 m in
              (found, delivered_filter id t stored s found),
          λ (found, hit).
              let (table, t, at, has) = linked.linked id s found in
              let met = (find_by_path_iff r.topic_matcher topic table).1 (filter_at s, hit, at) in
              (t, (joined id s t).1 (concat-Memᴰ tables met (lookup-Memᴰ id table has), found)),
        ),
      )

  -- In a linked router whose patterns have `#` in last place only, each subscriber that a topic is
  -- given to has a pattern that matches the topic, with the captures of that pattern.
  pub get_subscribers-try_match :
      (q : TopicPath)
      → text_list q.segments ≡ topic
      → (l : List (Subscriber C T)) (id : SubscriptionId) (s : Registered C) (t : T)
      → get_subscribers r topic ≡ ok l
      → Memᴰ (id, s, t) l
      → HashIsLast s.0.segments
      → try_match_internal s.0 q ≡ ok (match_of s.0.segments q)
  get_subscribers-try_match q same l id s t run m last =
      let (l', run', iff) = get_subscribers_iff in
      let (found, hit) = (iff id s).0 (t, rw (ok-injective (sym run ∙ run')) at m) in
      try_match_internal-ok s.0 q last (resolve-matches s.0 (text_list q.segments) (rw same hit))
