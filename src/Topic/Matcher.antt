-- ===== src/Topic/Matcher.antt =====
-- mqtt-topic-engine/src/topic_matcher.rs: the trie of subscription tables. A child map is a list
-- of entries; `&mut T` is the table with a function that writes it back.
pub mod Children
pub mod Lookup
pub mod Change
pub mod Update
use mqtt_typed_client_next.Base.{
  ℕ, Bool, true, false, ◌&&◌, Option, none, some, List, [], ◌∷◌, ◌++◌, Result, ok, err, ◌>>=◌,
  if◌then◌else◌,
}
use mqtt_typed_client_next.Base.Text.{Text, text_eq, codes}
use mqtt_typed_client_next.Topic.Item.{TopicPatternItem, str, plus, hash}
use Children.{
  TopicMatcherNode, node, Branch, absent, present, leaf, child, set_child, remove_child,
  has_no_children,
}

pub data TopicMatcherError : Type 0 where
  empty_topic_path : TopicMatcherError
  invalid_segment : Text → ℕ → TopicMatcherError
  invalid_utf8 : TopicMatcherError

-- The traits `Default` and `Len` of a payload container.
pub record Payload {ℓ} (T : Type ℓ) : Type ℓ where
  pub default : T
  pub is_empty : T → Bool

abbrev pub or_new {ℓ} : {A : Type ℓ} → A → Option A → A
or_new d none = d
or_new d (some a) = a

module _ {ℓ} {T : Type ℓ} where
  abbrev pub new : TopicMatcherNode T
  new = node none leaf absent none

  abbrev pub or_new_branch : Branch T → TopicMatcherNode T
  or_new_branch absent = new
  or_new_branch (present n) = n

  abbrev is_absent : Branch T → Bool
  is_absent absent = true
  is_absent (present _) = false

  abbrev pub as_option : Branch T → Option (TopicMatcherNode T)
  as_option absent = none
  as_option (present n) = some n

  -- `.iter().for_each(…)` on an optional node, with the vector that the calls push to.
  abbrev pub for_each {κ} : {A : Type κ} → (A → List T → List T) → Option A → List T → List T
  for_each push none matching_data = matching_data
  for_each push (some a) matching_data = push a matching_data

  abbrev pub push : T → List T → List T
  push d matching_data = matching_data ++ d ∷ []

  unfoldable pub collect_matching_subscriptions : List Text → TopicMatcherNode T → List T → List T
  collect_matching_subscriptions [] (node exact children single multi) matching_data =
      for_each push multi (for_each push exact matching_data)
  collect_matching_subscriptions (segment ∷ remaining) (node exact children single multi)
        matching_data =
      let from_exact : List T =
        for_each (collect_matching_subscriptions remaining) (child segment children)
          matching_data in
      let from_single : List T =
        for_each (collect_matching_subscriptions remaining) (as_option single) from_exact in
      for_each push multi from_single

  -- The topic is given by its segments.
  unfoldable pub find_by_path : TopicMatcherNode T → List Text → List T
  unfolding collect_matching_subscriptions
  find_by_path n segments = collect_matching_subscriptions segments n []

module _ {ℓ} {T : Type ℓ} ⦃p : Payload T⦄ where
  abbrev none_or_empty : Option T → Bool
  none_or_empty none = true
  none_or_empty (some d) = p.is_empty d

  unfoldable pub is_empty : TopicMatcherNode T → Bool
  is_empty (node exact children single multi) =
      none_or_empty exact && has_no_children children && is_absent single && none_or_empty multi

  unfoldable pub get_or_create_subscription_table :
      List TopicPatternItem → TopicMatcherNode T → T × (T → TopicMatcherNode T)
  get_or_create_subscription_table [] (node exact children single multi) =
      (or_new p.default exact, λ d. node (some d) children single multi)
  get_or_create_subscription_table (str s ∷ rest) (node exact children single multi) =
      let (table, write) = get_or_create_subscription_table rest (or_new new (child s children)) in
      (table, λ d. node exact (set_child s (write d) children) single multi)
  get_or_create_subscription_table (plus _ ∷ rest) (node exact children single multi) =
      let (table, write) = get_or_create_subscription_table rest (or_new_branch single) in
      (table, λ d. node exact children (present (write d)) multi)
  get_or_create_subscription_table (hash _ ∷ rest) (node exact children single multi) =
      (or_new p.default multi, λ d. node exact children single (some d))

  abbrev pub unless_empty : T → Option T
  unless_empty d = if p.is_empty d then none else some d

  abbrev checked : TopicMatcherNode T → TopicMatcherNode T × Bool
  checked n = (n, is_empty n)

  -- The node after the update, and whether it is empty. On an error nothing has been changed.
  unfoldable pub update_node :
      List TopicPatternItem
      → (T → T)
      → TopicMatcherNode T
      → Result (TopicMatcherNode T × Bool) TopicMatcherError
  unfolding is_empty
  update_node [] f (node none children single multi) =
      err (invalid_segment (codes "no_data_for_empty_path") 0)
  update_node [] f (node (some d) children single multi) =
      ok (checked (node (unless_empty (f d)) children single multi))
  update_node (str s ∷ rest) f (node exact children single multi) = elim (child s children) [
    | none ↦ err (invalid_segment s 0)
    | some n ↦ update_node rest f n >>= λ r.
        if r.1
        then ok (checked (node exact (remove_child s children) single multi))
        else ok (node exact (set_child s r.0 children) single multi, false)
  ]
  update_node (plus _ ∷ rest) f (node exact children single multi) = elim single [
    | absent ↦ err (invalid_segment (codes "+") 0)
    | present n ↦ update_node rest f n >>= λ r.
        if r.1
        then ok (checked (node exact children absent multi))
        else ok (node exact children (present r.0) multi, false)
  ]
  update_node (hash _ ∷ rest) f (node exact children single none) =
      err (invalid_segment (codes "#") 0)
  update_node (hash _ ∷ rest) f (node exact children single (some d)) =
      if p.is_empty (f d)
      then ok (checked (node exact children single none))
      else ok (node exact children single (some (f d)), false)
