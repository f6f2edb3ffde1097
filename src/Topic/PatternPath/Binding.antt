-- ===== src/Topic/PatternPath/Binding.antt =====
-- Bound parameters, the broker's form of a pattern and the check of a custom pattern, from
-- topic_pattern_path.rs.
pub mod Laws
pub mod Compatibility
use mqtt_typed_client_next.Base.{
  ℕ, Bool, true, false, ◌&&◌, Option, none, some, List, [], ◌∷◌, ◌++◌, any, if◌then◌else◌, Result,
  ok, err, ◌==◌, suc, zero,
}
use mqtt_typed_client_next.Base.Map
use mqtt_typed_client_next.Base.Text.{Text, text_Eq, text_eq, codes}
use mqtt_typed_client_next.Topic.Item.{
  TopicPatternItem, str, plus, hash, is_wildcard, TopicPatternError, wildcard_usage,
  pattern_structure_mismatch,
}
use mqtt_typed_client_next.Topic.PatternPath.{
  TopicPatternPath, position, to_mqtt_subscription_pattern,
}

-- `TopicPatternItem::Plus(Some(name)) if name == param_name`.
abbrev pub is_param : Text → TopicPatternItem → Bool
is_param name (plus (some n)) = n == name
is_param name _ = false

abbrev pub set {ℓ} : {A : Type ℓ} → List A → ℕ → A → List A
set [] i v = []
set (x ∷ xs) zero v = v ∷ xs
set (x ∷ xs) (suc i) v = x ∷ set xs i v

-- The loop over the bindings.
unfoldable pub apply_bindings_to_segments :
    List TopicPatternItem → List (Text × Text) → List TopicPatternItem
unfolding position
apply_bindings_to_segments segments [] = segments
apply_bindings_to_segments segments ((param_name, value) ∷ bindings) =
    apply_bindings_to_segments
      (elim (position (is_param param_name) segments) [
        | none ↦ segments
        | some segment_pos ↦ set segments segment_pos (str value)
      ])
      bindings

abbrev pub or_nil : Option (List (Text × Text)) → List (Text × Text)
or_nil none = []
or_nil (some bindings) = bindings

abbrev pub name_eq : Option Text → Option Text → Bool
name_eq none none = true
name_eq (some a) (some b) = a == b
name_eq _ _ = false

-- The derived `PartialEq`.
abbrev pub item_eq : TopicPatternItem → TopicPatternItem → Bool
item_eq (str a) (str b) = a == b
item_eq (plus a) (plus b) = name_eq a b
item_eq (hash a) (hash b) = name_eq a b
item_eq _ _ = false

unfoldable pub wildcards : List TopicPatternItem → List TopicPatternItem
unfolding is_wildcard
wildcards [] = []
wildcards (item ∷ rest) =
    let others = wildcards rest in if is_wildcard item then item ∷ others else others

-- `Iterator::eq`.
abbrev pub items_eq : List TopicPatternItem → List TopicPatternItem → Bool
items_eq [] [] = true
items_eq (a ∷ as') (b ∷ bs) = item_eq a b && items_eq as' bs
items_eq _ _ = false

module _ {C : Type 0} where
  unfoldable pub resolve_bound_segments : TopicPatternPath C → List TopicPatternItem
  unfolding apply_bindings_to_segments
  resolve_bound_segments p = elim p.parameter_bindings [
    | none ↦ p.segments
    | some bindings ↦ apply_bindings_to_segments p.segments bindings
  ]

  unfoldable pub mqtt_pattern : TopicPatternPath C → Text
  unfolding apply_bindings_to_segments to_mqtt_subscription_pattern
  mqtt_pattern p = elim p.parameter_bindings [
    | none ↦ p.mqtt_topic_subscription
    | some bindings ↦ to_mqtt_subscription_pattern (apply_bindings_to_segments p.segments bindings)
  ]

  unfoldable pub get_bound_value : TopicPatternPath C → Option Text → Option Text
  get_bound_value p none = none
  get_bound_value p (some name) = elim p.parameter_bindings [
    | none ↦ none
    | some bindings ↦ Map.lookup name bindings
  ]

  abbrev not_found : TopicPatternPath C → Text → Text
  not_found p name =
      codes "Parameter '"
      ++ (name ++ (codes "' not found in pattern '" ++ (p.template_pattern ++ codes "'")))

  -- `Map.insert` replaces the first binding of the name, or pushes a new one at the end.
  unfoldable pub bind_parameter :
      TopicPatternPath C → Text → Text → Result (TopicPatternPath C) TopicPatternError
  bind_parameter p param_name value =
      if any (is_param param_name) p.segments
      then ok (record p {
        parameter_bindings = some (Map.insert param_name value (or_nil p.parameter_bindings));
      })
      else err (wildcard_usage (not_found p param_name))

  -- The candidate has been parsed by the caller's conversion.
  unfoldable pub check_pattern_compatibility :
      TopicPatternPath C → TopicPatternPath C → Result (TopicPatternPath C) TopicPatternError
  unfolding wildcards
  check_pattern_compatibility p candidate =
      if items_eq (wildcards p.segments) (wildcards candidate.segments)
      then ok candidate
      else err (pattern_structure_mismatch p.template_pattern candidate.template_pattern)
