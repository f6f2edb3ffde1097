-- ===== src/Topic/Matcher/Lookup.antt =====
-- `find_by_path` against the reading of the trie as a map from filters to tables.
use mqtt_typed_client_next.Base.{
  true, Option, none, some, List, [], ◌∷◌, ◌++◌, map, append-nil, append_assoc, ◌≡◌, refl, ◌↔◌,
  arith, Memᴰ, Memᴰ-filter_map, filter_map-Memᴰ, ◌∙◌, sym,
}
use mathlib.Core.List.{filter_map, filter_map-append}
use mqtt_typed_client_next.Base.Text.{Text}
use mqtt_typed_client_next.Topic.Filter.{TopicFilter, finish, multi, level, single, matches}
use mqtt_typed_client_next.Topic.Filter.Enumeration.{matching_filters, Memᴰ-matching_filters}
use mqtt_typed_client_next.Topic.Matcher.{
  find_by_path, collect_matching_subscriptions, as_option, for_each, push,
}
use mqtt_typed_client_next.Topic.Matcher.Children.{TopicMatcherNode, node, Children, Branch, child}

module _ {ℓ} {T : Type ℓ} where
  -- The table that is stored under a filter.
  unfoldable pub table_at : TopicFilter → TopicMatcherNode T → Option T
  table_at finish (node exact children below rest) = exact
  table_at multi (node exact children below rest) = rest
  table_at (level s f) (node exact children below rest) = elim (child s children) [
    | none ↦ none
    | some n ↦ table_at f n
  ]
  table_at (single f) (node exact children below rest) = elim (as_option below) [
    | none ↦ none
    | some n ↦ table_at f n
  ]

  abbrev tables_in : List TopicFilter → TopicMatcherNode T → List T
  tables_in fs n = filter_map (λ f. table_at f n) fs

  -- The tables of the filters that match, in the order of the enumeration.
  abbrev pub matching_tables : List Text → TopicMatcherNode T → List T
  matching_tables topic = tables_in (matching_filters topic)

  abbrev tables_below : List TopicFilter → Option (TopicMatcherNode T) → List T
  tables_below fs none = []
  tables_below fs (some n) = tables_in fs n

  module _ (exact : Option T) (children : Children T) (below : Branch T) (rest : Option T) where
    level_tables :
        (s : Text) (fs : List TopicFilter)
        → tables_in (map (level s) fs) (node exact children below rest)
          ≡ tables_below fs (child s children)
    unfolding filter_map table_at
    level_tables s [] = ground arith
    level_tables s (f ∷ fs) = ground (arith, level_tables s fs)

    single_tables :
        (fs : List TopicFilter)
        → tables_in (map single fs) (node exact children below rest)
          ≡ tables_below fs (as_option below)
    unfolding filter_map table_at
    single_tables [] = ground arith
    single_tables (f ∷ fs) = ground (arith, single_tables fs)

    multi_table : tables_in (multi ∷ []) (node exact children below rest) ≡ for_each push rest []
    unfolding filter_map table_at
    multi_table = ground arith

    finish_tables :
        tables_in (finish ∷ multi ∷ []) (node exact children below rest)
        ≡ for_each push exact [] ++ for_each push rest []
    unfolding filter_map table_at
    finish_tables = ground arith

  for_each-push : (o : Option T) (acc : List T) → for_each push o acc ≡ acc ++ for_each push o []
  for_each-push none acc = sym (append-nil acc)
  for_each-push (some d) acc = refl

  for_each_collect :
      (fs : List TopicFilter) (collect : TopicMatcherNode T → List T → List T)
      → ((n : TopicMatcherNode T) (acc : List T) → collect n acc ≡ acc ++ tables_in fs n)
      → (o : Option (TopicMatcherNode T)) (acc : List T)
      → for_each collect o acc ≡ acc ++ tables_below fs o
  for_each_collect fs collect h none acc = sym (append-nil acc)
  for_each_collect fs collect h (some n) acc = h n acc

  collect_lem :
      (topic : List Text) (n : TopicMatcherNode T) (acc : List T)
      → collect_matching_subscriptions topic n acc ≡ acc ++ matching_tables topic n
  unfolding collect_matching_subscriptions
  collect_lem [] (node exact children below rest) acc =
      for_each-push rest (for_each push exact acc)
      ∙ rw (for_each-push exact acc, finish_tables exact children below rest) (append_assoc acc _ _)
  collect_lem (s ∷ topic) (node exact children below rest) acc = simp (
    for_each_collect (matching_filters topic) (collect_matching_subscriptions topic)
        (collect_lem topic),
    for_each-push rest,
    filter_map-append,
    level_tables,
    single_tables,
    multi_table,
    append_assoc,
  )

  -- The walk returns the tables of the filters that match the topic, each once, and no others.
  pub find_by_path-eq :
      (n : TopicMatcherNode T) (topic : List Text) → find_by_path n topic ≡ matching_tables topic n
  unfolding find_by_path
  find_by_path-eq n topic = collect_lem topic n []

  -- A table is found for a topic exactly when it stands under a filter that matches the topic.
  pub find_by_path_iff :
      (n : TopicMatcherNode T) (topic : List Text) (d : T)
      → Memᴰ d (find_by_path n topic)
        ↔ ((f : TopicFilter) × (matches f topic ≡ true) × (table_at f n ≡ some d))
  find_by_path_iff n topic d = (
    λ m.
        let (f, mf, e) =
          Memᴰ-filter_map (λ f. table_at f n) (matching_filters topic) (rw find_by_path-eq at m) in
        (f, (Memᴰ-matching_filters topic f).0 mf, e),
    λ (f, h, e). rw find_by_path-eq (
        filter_map-Memᴰ (λ f. table_at f n) (matching_filters topic)
          ((Memᴰ-matching_filters topic f).1 h) e),
  )
