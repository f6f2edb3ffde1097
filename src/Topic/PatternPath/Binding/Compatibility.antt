-- ===== src/Topic/PatternPath/Binding/Compatibility.antt =====
-- `check_pattern_compatibility` of topic_pattern_path.rs.
use mqtt_typed_client_next.Base.{
  true, Option, none, some, List, [], ◌∷◌, ok, ◌≡◌, refl, arith, ◌↔◌, ap,
}
use mqtt_typed_client_next.Base.Text.{Text, text_Eq, text_eq_iff}
use mqtt_typed_client_next.Topic.Item.{TopicPatternItem, str, plus, hash}
use mqtt_typed_client_next.Topic.PatternPath.{TopicPatternPath}
use mqtt_typed_client_next.Topic.PatternPath.Binding.{
  check_pattern_compatibility, items_eq, item_eq, name_eq, wildcards,
}

name_eq_sound : (a b : Option Text) → name_eq a b ≡ true → a ≡ b
name_eq_sound none none h = refl
name_eq_sound none (some b) h = absurd (cc)
name_eq_sound (some a) none h = absurd (cc)
name_eq_sound (some a) (some b) h = ap some ((text_eq_iff a b).0 h)

item_eq_sound : (a b : TopicPatternItem) → item_eq a b ≡ true → a ≡ b
item_eq_sound (str a) (str b) h = ap str ((text_eq_iff a b).0 h)
item_eq_sound (plus a) (plus b) h = ap plus (name_eq_sound a b h)
item_eq_sound (hash a) (hash b) h = ap hash (name_eq_sound a b h)
item_eq_sound _ _ h = absurd (cc)

items_eq_sound : (as' bs : List TopicPatternItem) → items_eq as' bs ≡ true → as' ≡ bs
items_eq_sound [] [] h = refl
items_eq_sound [] (b ∷ bs) h = absurd (cc)
items_eq_sound (a ∷ as') [] h = absurd (cc)
items_eq_sound (a ∷ as') (b ∷ bs) h = ground (arith, item_eq_sound a b, items_eq_sound as' bs)

name_eq_refl : (a : Option Text) → name_eq a a ≡ true
name_eq_refl none = refl
name_eq_refl (some a) = (text_eq_iff a a).1 refl

item_eq_refl : (a : TopicPatternItem) → item_eq a a ≡ true
item_eq_refl (str a) = (text_eq_iff a a).1 refl
item_eq_refl (plus a) = name_eq_refl a
item_eq_refl (hash a) = name_eq_refl a

items_eq_refl : (as' : List TopicPatternItem) → items_eq as' as' ≡ true
items_eq_refl [] = refl
items_eq_refl (a ∷ as') = ground (arith, item_eq_refl a, items_eq_refl as')

module _ {C : Type 0} (p candidate : TopicPatternPath C) where
  -- Another pattern is accepted, unchanged, exactly where it has the same wildcards with the same
  -- names in the same order.
  pub check_pattern_compatibility_lem :
      (check_pattern_compatibility p candidate ≡ ok candidate)
      ↔ (wildcards p.segments ≡ wildcards candidate.segments)
  unfolding check_pattern_compatibility
  check_pattern_compatibility_lem = (
    λ h. items_eq_sound (wildcards p.segments) (wildcards candidate.segments) (ground arith),
    λ e. rw (e, items_eq_refl (wildcards candidate.segments)) refl,
  )
