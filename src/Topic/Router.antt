-- ===== src/Topic/Router.antt =====
-- mqtt-topic-engine/src/topic_router.rs. The maps are lists of entries; a `panic!` or a failed
-- `expect` is `err`.
pub mod Invariant
pub mod Subscribe
pub mod Unsubscribe
pub mod Levels
pub mod Delivery
pub mod Distinct
pub mod Store
pub mod Resubscribe
pub mod Patterns
use mqtt_typed_client_next.Base.{
  ℕ, ◌+◌, ◌%◌, ◌^◌, Bool, true, false, Option, none, some, List, [], ◌∷◌, ◌++◌, any, ◌==◌, map,
  if◌then◌else◌, Result, ok, err, ◌>>=◌,
}
use mqtt_typed_client_next.Base.Map
use mqtt_typed_client_next.Base.Text.{Text, text_Eq}
use mqtt_typed_client_next.Base.{nat_Eq}
use mqtt_typed_client_next.Topic.Qos.{QoS, qos_lt}
use mqtt_typed_client_next.Topic.Matcher.{
  Payload, new, get_or_create_subscription_table, update_node, find_by_path, TopicMatcherError,
}
use mqtt_typed_client_next.Topic.Matcher.Children.{TopicMatcherNode}
use mqtt_typed_client_next.Topic.PatternPath.{TopicPatternPath}
use mqtt_typed_client_next.Topic.PatternPath.Binding.{resolve_bound_segments, mqtt_pattern}

-- The wrapped `usize`.
abbrev pub SubscriptionId : Type 0
SubscriptionId = ℕ

abbrev pub usize_mod : ℕ
usize_mod = 2 ^ 64

abbrev pub SubscriptionTable : Type 0 → Type 0
SubscriptionTable T = List (SubscriptionId × T)

abbrev no_entry {ℓ} : {A : Type ℓ} → List A → Bool
no_entry [] = true
no_entry (x ∷ xs) = false

-- `Default` and `Len` of a `HashMap`.
instance abbrev pub table_Payload : {T : Type 0} → Payload (SubscriptionTable T)
table_Payload = record { default = []; is_empty = no_entry }

pub data TopicRouterError : Type 0 where
  matching_failed : TopicMatcherError → TopicRouterError
  subscription_not_found : SubscriptionId → TopicRouterError
  invalid_routing_topic : (topic reason : Text) → TopicRouterError

pub data MissingSubscription : Type 0 where
  missing : SubscriptionId → MissingSubscription

abbrev pub Registered : Type 0 → Type 0
Registered C = TopicPatternPath C × QoS

-- An id, the pattern and level of the subscription, and its payload.
abbrev pub Subscriber : Type 0 → Type 0 → Type 0
Subscriber C T = SubscriptionId × Registered C × T

pub record TopicRouter (C T : Type 0) : Type 0 where
  pub topic_matcher : TopicMatcherNode (SubscriptionTable T)
  pub subscriptions : SubscriptionTable (Registered C)
  pub next_id : ℕ

-- `self.subscriptions.get(id)`, and a panic where the id is missing.
unfoldable pub expect :
    {A : Type 0} → SubscriptionTable A → SubscriptionId → Result A MissingSubscription
expect subscriptions id = elim (Map.lookup id subscriptions) [
  | none ↦ err (missing id)
  | some s ↦ ok s
]

-- The levels of the subscriptions in a table.
unfoldable pub qos_of :
    {C T : Type 0}
    → SubscriptionTable (Registered C)
    → SubscriptionTable T
    → Result (List QoS) MissingSubscription
unfolding expect
qos_of subscriptions [] = ok []
qos_of subscriptions ((id, _) ∷ table) = do
  s ← expect subscriptions id
  qs ← qos_of subscriptions table
  ok (s.1 ∷ qs)

-- `.max_by_key(|qos| *qos as u8)`.
unfoldable pub max_qos : List QoS → Option QoS
max_qos [] = none
max_qos (q ∷ qs) = elim (max_qos qs) [ none ↦ some q | some m ↦ some (if qos_lt m q then q else m) ]

-- `.is_none_or(|max| qos > max)`.
abbrev pub exceeds : QoS → Option QoS → Bool
exceeds qos none = true
exceeds qos (some max) = qos_lt max qos

abbrev pub concat {ℓ} : {A : Type ℓ} → List (List A) → List A
concat [] = []
concat (xs ∷ xss) = xs ++ concat xss

-- `entry(pattern).and_modify(raise).or_insert(qos)`.
abbrev pub raise : QoS → Option QoS → QoS
raise qos none = qos
raise qos (some existing) = if qos_lt existing qos then qos else existing

unfoldable pub resubscribe_loop :
    {C : Type 0} → SubscriptionTable (Registered C) → List (Text × QoS) → List (Text × QoS)
resubscribe_loop [] result = result
resubscribe_loop ((_, (topic, qos)) ∷ rest) result =
    let pattern = mqtt_pattern topic in
    resubscribe_loop rest (Map.insert pattern (raise qos (Map.lookup pattern result)) result)

unfoldable pub patterns_of : {C : Type 0} → SubscriptionTable (Registered C) → List Text
patterns_of [] = []
patterns_of ((_, (topic, _)) ∷ rest) =
    let patterns = patterns_of rest in
    let pattern = mqtt_pattern topic in
    if any (λ p. p == pattern) patterns then patterns else pattern ∷ patterns

module _ {C T : Type 0} where
  abbrev pub empty_router : TopicRouter C T
  empty_router = record { topic_matcher = new; subscriptions = []; next_id = 0 }

  unfoldable pub add_subscription :
      TopicRouter C T
      → TopicPatternPath C
      → QoS
      → T
      → Result ((Bool × SubscriptionId) × TopicRouter C T) MissingSubscription
  unfolding qos_of
  add_subscription r topic qos subscription =
      let (table, write) =
        get_or_create_subscription_table (resolve_bound_segments topic) r.topic_matcher in
      qos_of r.subscriptions table >>= λ levels. ok (
        (exceeds qos (max_qos levels), r.next_id),
        record {
          topic_matcher = write (Map.insert r.next_id subscription table);
          subscriptions = Map.insert r.next_id (topic, qos) r.subscriptions;
          next_id = (r.next_id + 1) % usize_mod;
        },
      )

  -- The entry of `subscriptions` is gone also where the trie refuses the update.
  abbrev unlink :
      TopicRouter C T
      → SubscriptionId
      → TopicPatternPath C
      → Result (Bool × TopicPatternPath C) TopicRouterError × TopicRouter C T
  unlink r id topic =
      elim (update_node (resolve_bound_segments topic) (Map.remove id) r.topic_matcher) [
        | ok (matcher, now_empty) ↦ (
          ok (now_empty, topic),
          record r { topic_matcher = matcher; subscriptions = Map.remove id r.subscriptions },
        )
        | err e ↦
            (err (matching_failed e), record r { subscriptions = Map.remove id r.subscriptions })
      ]

  unfoldable pub unsubscribe :
      TopicRouter C T
      → SubscriptionId
      → Result (Bool × TopicPatternPath C) TopicRouterError × TopicRouter C T
  unsubscribe r id = elim (Map.lookup id r.subscriptions) [
    | none ↦ (err (subscription_not_found id), r)
    | some s ↦ unlink r id s.0
  ]

  unfoldable pub with_patterns :
      SubscriptionTable (Registered C)
      → SubscriptionTable T
      → Result (List (Subscriber C T)) MissingSubscription
  unfolding expect
  with_patterns subscriptions [] = ok []
  with_patterns subscriptions ((id, t) ∷ table) = do
    s ← expect subscriptions id
    rest ← with_patterns subscriptions table
    ok ((id, s, t) ∷ rest)

  -- The topic is given by its segments.
  unfoldable pub get_subscribers :
      TopicRouter C T → List Text → Result (List (Subscriber C T)) MissingSubscription
  unfolding with_patterns
  get_subscribers r topic =
      with_patterns r.subscriptions (concat (find_by_path r.topic_matcher topic))

  unfoldable pub get_active_subscriptions : TopicRouter C T → List (Registered C)
  get_active_subscriptions r = map (λ s. s.1) r.subscriptions

  -- The set of their topic patterns.
  unfoldable pub get_topics_for_unsubscribe : TopicRouter C T → List Text
  unfolding patterns_of
  get_topics_for_unsubscribe r = patterns_of r.subscriptions

  unfoldable pub get_topics_for_resubscribe : TopicRouter C T → List (Text × QoS)
  unfolding resubscribe_loop
  get_topics_for_resubscribe r = resubscribe_loop r.subscriptions []

  unfoldable pub cleanup : TopicRouter C T → TopicRouter C T
  cleanup r = empty_router

  unfoldable pub get_topic_by_id :
      TopicRouter C T → SubscriptionId → Result (Registered C) TopicRouterError
  get_topic_by_id r id = elim (Map.lookup id r.subscriptions) [
    | none ↦ err (subscription_not_found id)
    | some s ↦ ok s
  ]
