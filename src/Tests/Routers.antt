-- ===== src/Tests/Routers.antt =====
-- Runs of the trie, the router and the checks of topics.
use mqtt_typed_client_next.Base.{
  ℕ, Bool, true, false, none, some, List, [], ◌∷◌, ok, ◌≡◌, refl, arith, ◌↔◌, if◌then◌else◌, Memᴰ,
  nat_Eq, sym, ap, ◌∙◌, ok-injective, ◌==◌,
}
use mathlib.Core.Option.{some-injective}
use mathlib.Core.Path.{subst}
use mqtt_typed_client_next.Base.Map
use mqtt_typed_client_next.Topic.Item.{plus}
use mqtt_typed_client_next.Topic.PatternPath.Binding.{resolve_bound_segments, mqtt_pattern}
use mqtt_typed_client_next.Base.Text.{text_Eq, codes, split}
use mqtt_typed_client_next.Topic.Qos.{QoS, qos_lt, at_least_once}
use mqtt_typed_client_next.Topic.Filter.{TopicFilter, matches, level, single, finish, multi}
use mqtt_typed_client_next.Topic.Matcher
use mqtt_typed_client_next.Topic.Matcher.{
  find_by_path, get_or_create_subscription_table, update_node, or_new,
  collect_matching_subscriptions,
}
use mqtt_typed_client_next.Topic.Matcher.Children.{
  TopicMatcherNode, node, leaf, entry, absent, present, child, set_child,
}
use mqtt_typed_client_next.Topic.Matcher.Lookup.{table_at, find_by_path_iff}
use mqtt_typed_client_next.Topic.Matcher.Update.{Applied, update_node-Applied}
use mqtt_typed_client_next.Topic.TopicMatch.{new}
use mqtt_typed_client_next.Topic.PatternPath.Matching.{try_match_internal}
use mqtt_typed_client_next.Topic.PatternPath.Matching.Decides.{match_of}
use mqtt_typed_client_next.Topic.Router.{
  get_topics_for_resubscribe, SubscriptionId, SubscriptionTable, Registered, Subscriber,
  TopicRouter, empty_router, add_subscription, unsubscribe, get_subscribers, table_Payload, qos_of,
  max_qos, with_patterns, expect,
}
use mqtt_typed_client_next.Topic.Router.Invariant.{IsLinked, filter_at, empty_router-IsLinked}
use mqtt_typed_client_next.Topic.Router.Delivery.{get_subscribers_iff, get_subscribers-try_match}
use mqtt_typed_client_next.Topic.Router.Distinct.{DistinctIds, get_subscribers-DistinctIds}
use mqtt_typed_client_next.Topic.Router.Subscribe.{add_subscription-IsLinked}
use mqtt_typed_client_next.Topic.Router.Resubscribe.{get_topics_for_resubscribe_covers}
use mqtt_typed_client_next.Topic.Router.Unsubscribe.{unsubscribe-IsLinked}
use mqtt_typed_client_next.Tests.{items, pattern, parts}

-- Two tables, under `a/+` and under `a`.
abbrev trie : TopicMatcherNode (SubscriptionTable ℕ)
trie =
    node none
      (entry (codes "a")
        (node (some ((2, 20) ∷ [])) leaf (present (node (some ((1, 10) ∷ [])) leaf absent none))
          none)
        leaf)
      absent none

find_by_path_iff_example :
    Memᴰ ((1, 10) ∷ []) (find_by_path trie parts)
    ↔ ((f : TopicFilter) × (matches f parts ≡ true) × (table_at f trie ≡ some ((1, 10) ∷ [])))
find_by_path_iff_example = find_by_path_iff trie parts ((1, 10) ∷ [])

abbrev one_table : TopicMatcherNode (SubscriptionTable ℕ)
one_table = node none leaf (present (node (some ((1, 10) ∷ [])) leaf absent none)) none

one_table_clean :
    (g : TopicFilter) (d : SubscriptionTable ℕ)
    → table_at g one_table ≡ some d
    → table_Payload.is_empty d ≡ false
unfolding table_at child
one_table_clean finish d h = absurd (cc)
one_table_clean multi d h = absurd (cc)
one_table_clean (level s g) d h = absurd (cc)
one_table_clean (single finish) d h = rw (sym (some-injective _ _ h)) refl
one_table_clean (single multi) d h = absurd (cc)
one_table_clean (single (level s g)) d h = absurd (cc)
one_table_clean (single (single g)) d h = absurd (cc)

update_node-Applied_example : Applied (plus none ∷ []) (Map.remove 1) one_table ((1, 10) ∷ [])
update_node-Applied_example =
    update_node-Applied (Map.remove 1) (plus none ∷ []) one_table ((1, 10) ∷ []) one_table_clean
      (unfold table_at in refl)

abbrev nobody : TopicRouter ℕ ℕ
nobody = empty_router

add_subscription-IsLinked_example :
    (needs : Bool) × (r' : TopicRouter ℕ ℕ) × (add_subscription nobody pattern at_least_once 7
      ≡ ok ((needs, 0), r'))
    × IsLinked r'
    × ((id : SubscriptionId)
        → Map.lookup id r'.subscriptions
          ≡ (if 0 == id then some (pattern, at_least_once) else Map.lookup id nobody.subscriptions))
    × ((needs ≡ true) ↔ (
        (id : SubscriptionId) (s : Registered ℕ)
        → Map.lookup id nobody.subscriptions ≡ some s
        → filter_at s ≡ filter_at (pattern, at_least_once)
        → qos_lt s.1 at_least_once ≡ true))
add_subscription-IsLinked_example =
    add_subscription-IsLinked nobody empty_router-IsLinked pattern at_least_once 7 (omega arith)

-- The router with that subscription.
abbrev somebody : TopicRouter ℕ ℕ
somebody = record {
  topic_matcher =
      node none
        (entry (codes "a")
          (node none leaf (present (node (some ((0, 7) ∷ [])) leaf absent none)) none) leaf)
        absent none;
  subscriptions = (0, (pattern, at_least_once)) ∷ [];
  next_id = 1;
}

somebody_run : add_subscription nobody pattern at_least_once 7 ≡ ok ((true, 0), somebody)
unfolding add_subscription get_or_create_subscription_table resolve_bound_segments Map.insert child
    set_child qos_of max_qos
somebody_run = refl

somebody-IsLinked : IsLinked somebody
somebody-IsLinked =
    let added =
      add_subscription-IsLinked nobody empty_router-IsLinked pattern at_least_once 7
        (omega arith) in
    subst IsLinked (ap (λ x. x.1) (ok-injective (sym added.2 ∙ somebody_run))) added.3

somebody_found : Map.lookup 0 somebody.subscriptions ≡ some (pattern, at_least_once)
unfolding Map.lookup
somebody_found = refl

unsubscribe-IsLinked_example :
    (r' : TopicRouter ℕ ℕ) × (unsubscribe somebody 0
      ≡ (ok (Matcher.is_empty r'.topic_matcher, pattern), r'))
    × IsLinked r'
    × ((j : SubscriptionId)
        → Map.lookup j r'.subscriptions
          ≡ (if 0 == j then none else Map.lookup j somebody.subscriptions))
    × (r'.next_id ≡ 1)
unsubscribe-IsLinked_example =
    unsubscribe-IsLinked somebody 0 (pattern, at_least_once) somebody-IsLinked somebody_found

get_subscribers_iff_example :
    (l : List (Subscriber ℕ ℕ)) × (get_subscribers somebody parts ≡ ok l)
    × ((id : SubscriptionId) (s : Registered ℕ)
        → ((t : ℕ) × Memᴰ (id, s, t) l) ↔ (
            (Map.lookup id somebody.subscriptions ≡ some s) × (matches (filter_at s) parts ≡ true)))
get_subscribers_iff_example = get_subscribers_iff somebody somebody-IsLinked parts

abbrev receivers : List (Subscriber ℕ ℕ)
receivers = (0, (pattern, at_least_once), 7) ∷ []

receivers_run : get_subscribers somebody parts ≡ ok receivers
unfolding get_subscribers with_patterns expect find_by_path collect_matching_subscriptions child
    Map.lookup
receivers_run = refl

get_subscribers-DistinctIds_example : DistinctIds receivers
get_subscribers-DistinctIds_example =
    get_subscribers-DistinctIds somebody somebody-IsLinked parts receivers receivers_run

get_subscribers-try_match_example :
    try_match_internal pattern (new (codes "a/7")) ≡ ok (match_of items (new (codes "a/7")))
get_subscribers-try_match_example =
    get_subscribers-try_match somebody somebody-IsLinked parts (new (codes "a/7"))
      (unfold new split in refl) receivers 0 (pattern, at_least_once) 7 receivers_run
      (Memᴰ.head refl) ((λ e. absurd (cc)), ((λ e. absurd (cc)), tt))

get_topics_for_resubscribe_covers_example :
    (m : QoS) × (Map.lookup (mqtt_pattern pattern) (get_topics_for_resubscribe somebody) ≡ some m)
    × (qos_lt m at_least_once ≡ false)
get_topics_for_resubscribe_covers_example =
    get_topics_for_resubscribe_covers somebody 0 (pattern, at_least_once) (Memᴰ.head refl)

resubscribe_run :
    Map.lookup (codes "a/+") (get_topics_for_resubscribe somebody) ≡ some at_least_once
unfolding get_topics_for_resubscribe Map.lookup Map.insert mqtt_pattern
resubscribe_run = refl
