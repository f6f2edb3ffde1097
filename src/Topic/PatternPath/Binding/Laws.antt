-- ===== src/Topic/PatternPath/Binding/Laws.antt =====
-- What binding a parameter does to the segments, the filter and the lookups of a pattern.
use mqtt_typed_client_next.Base.{
  ℕ, zero, suc, true, false, none, some, List, [], ◌∷◌, any, if◌then◌else◌, ok, err, ◌≡◌, refl,
  arith, ◌↔◌, Option-cases, Bool-cases, inl, inr,
}
use mqtt_typed_client_next.Base.Map
use mqtt_typed_client_next.Base.Map.{lookup-insert}
use mqtt_typed_client_next.Base.Text.{Text, text_Eq, text_eq}
use mqtt_typed_client_next.Topic.Item.{TopicPatternItem, str, plus, hash, TopicPatternError}
use mqtt_typed_client_next.Topic.Filter.{matches, filter_of}
use mqtt_typed_client_next.Topic.PatternPath.{TopicPatternPath, position}
use mqtt_typed_client_next.Topic.PatternPath.Binding.{
  is_param, set, apply_bindings_to_segments, resolve_bound_segments, get_bound_value, or_nil,
  bind_parameter,
}

-- A literal in the place of a parameter only narrows the filter.
set-matches :
    (name value : Text) (items : List TopicPatternItem) (pos : ℕ) (topic : List Text)
    → position (is_param name) items ≡ some pos
    → matches (filter_of (set items pos (str value))) topic ≡ true
    → matches (filter_of items) topic ≡ true
unfolding position
set-matches name value [] pos topic at h = absurd (cc)
set-matches name value (str s ∷ items) zero topic at h = absurd (ground arith)
set-matches name value (str s ∷ items) (suc pos) [] at h = h
set-matches name value (str s ∷ items) (suc pos) (t ∷ topic) at h =
    ground (arith, set-matches name value items pos topic)
set-matches name value (plus n ∷ items) zero [] at h = absurd (cc)
set-matches name value (plus n ∷ items) zero (t ∷ topic) at h = ground arith
set-matches name value (plus n ∷ items) (suc pos) [] at h = h
set-matches name value (plus none ∷ items) (suc pos) (t ∷ topic) at h =
    set-matches name value items pos topic (ground arith) h
set-matches name value (plus (some n) ∷ items) (suc pos) (t ∷ topic) at h =
    set-matches name value items pos topic (ground arith) h
set-matches name value (hash n ∷ items) pos topic at h = refl

-- So do all the bindings.
apply_bindings-matches :
    (items : List TopicPatternItem) (bindings : List (Text × Text)) (topic : List Text)
    → matches (filter_of (apply_bindings_to_segments items bindings)) topic ≡ true
    → matches (filter_of items) topic ≡ true
unfolding apply_bindings_to_segments
apply_bindings-matches items [] topic h = h
apply_bindings-matches items ((name, value) ∷ bindings) topic h =
    elim (Option-cases (position (is_param name) items)) [
      | inl e ↦ apply_bindings-matches items bindings topic (rw e at h)
      | inr (pos, e) ↦
          set-matches name value items pos topic e
            (apply_bindings-matches (set items pos (str value)) bindings topic (rw e at h))
    ]

module _ {C : Type 0} (p : TopicPatternPath C) where
  -- A topic that a pattern with bound parameters matches is matched by the pattern without them.
  pub resolve-matches :
      (topic : List Text)
      → matches (filter_of (resolve_bound_segments p)) topic ≡ true
      → matches (filter_of p.segments) topic ≡ true
  unfolding resolve_bound_segments
  resolve-matches topic h = elim (Option-cases p.parameter_bindings) [
    | inl e ↦ rw e at h
    | inr (bindings, e) ↦ apply_bindings-matches p.segments bindings topic (rw e at h)
  ]

  -- Binding fails exactly where the pattern has no single-level parameter of that name.
  pub bind_parameter-fails :
      (name value : Text)
      → ((e : TopicPatternError) × (bind_parameter p name value ≡ err e))
        ↔ (any (is_param name) p.segments ≡ false)
  unfolding bind_parameter
  bind_parameter-fails name value = elim (Bool-cases (any (is_param name) p.segments)) [
    | inl e ↦ rw e ((λ (x, h). absurd (cc)), (λ h. absurd (cc)))
    | inr e ↦ rw e ((λ h. refl), (λ h. (_, refl)))
  ]

  bound-lookup :
      (name : Text) → get_bound_value p (some name) ≡ Map.lookup name (or_nil p.parameter_bindings)
  unfolding get_bound_value Map.lookup
  bound-lookup name = ground arith

  -- After a successful binding the pattern has the new value for that name, what it had for every
  -- other name, and the segments and the template text that it had.
  pub get_bound_value-bind_parameter :
      (name value other : Text) (q : TopicPatternPath C)
      → bind_parameter p name value ≡ ok q
      → (get_bound_value q (some other)
          ≡ (if text_eq name other then some value else get_bound_value p (some other)))
        × (q.segments ≡ p.segments)
        × (q.template_pattern ≡ p.template_pattern)
  unfolding bind_parameter get_bound_value
  get_bound_value-bind_parameter name value other q h =
      ground
        (arith, lookup-insert other name value (or_nil p.parameter_bindings), bound-lookup other)
