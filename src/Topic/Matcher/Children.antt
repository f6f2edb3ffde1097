-- ===== src/Topic/Matcher/Children.antt =====
-- The nodes of the trie, and the `HashMap` of a node's children as a list of entries.
use mqtt_typed_client_next.Base.{
  Bool, true, false, Option, none, some, ◌≡◌, refl, arith, if◌then◌else◌,
}
use mqtt_typed_client_next.Base.Text.{Text, text_eq, text_eq_iff}

mutual
  pub data TopicMatcherNode {ℓ} (T : Type ℓ) : Type ℓ where
    node : Option T → Children T → Branch T → Option T → TopicMatcherNode T

  pub data Children {ℓ} (T : Type ℓ) : Type ℓ where
    leaf : Children T
    entry : Text → TopicMatcherNode T → Children T → Children T

  -- `Option<Box<Self>>`.
  pub data Branch {ℓ} (T : Type ℓ) : Type ℓ where
    absent : Branch T
    present : TopicMatcherNode T → Branch T

module _ {ℓ} {T : Type ℓ} where
  unfoldable pub child : Text → Children T → Option (TopicMatcherNode T)
  child s leaf = none
  child s (entry t n rest) = if text_eq t s then some n else child s rest

  unfoldable pub set_child : Text → TopicMatcherNode T → Children T → Children T
  set_child s n leaf = entry s n leaf
  set_child s n (entry t m rest) =
      if text_eq t s then entry s n rest else entry t m (set_child s n rest)

  unfoldable pub remove_child : Text → Children T → Children T
  remove_child s leaf = leaf
  remove_child s (entry t m rest) =
      let kept = remove_child s rest in if text_eq t s then kept else entry t m kept

  unfoldable pub has_no_children : Children T → Bool
  has_no_children leaf = true
  has_no_children (entry t n rest) = false

  pub child-set_child :
      (j k : Text) (n : TopicMatcherNode T) (c : Children T)
      → child j (set_child k n c) ≡ (if text_eq k j then some n else child j c)
  unfolding child set_child
  child-set_child j k n leaf = refl
  child-set_child j k n (entry i m rest) =
      ground (arith, text_eq_iff k j, text_eq_iff i k, text_eq_iff i j, child-set_child j k n rest)

  pub child-remove_child :
      (j k : Text) (c : Children T)
      → child j (remove_child k c) ≡ (if text_eq k j then none else child j c)
  unfolding child remove_child
  child-remove_child j k leaf = ground arith
  child-remove_child j k (entry i m rest) =
      ground (arith, text_eq_iff k j, text_eq_iff i k, text_eq_iff i j, child-remove_child j k rest)

  -- A map that holds a child is not empty.
  pub child-has_no_children :
      (s : Text) (c : Children T) {n : TopicMatcherNode T}
      → child s c ≡ some n
      → has_no_children c ≡ false
  unfolding child has_no_children
  child-has_no_children s leaf h = absurd (cc)
  child-has_no_children s (entry t m rest) h = refl

  pub has_no_children-set_child :
      (s : Text) (n : TopicMatcherNode T) (c : Children T)
      → has_no_children (set_child s n c) ≡ false
  unfolding set_child has_no_children
  has_no_children-set_child s n leaf = refl
  has_no_children-set_child s n (entry t m rest) = ground arith
