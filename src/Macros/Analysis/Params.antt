-- ===== src/Macros/Analysis/Params.antt =====
-- The numbered parameters of macros/src/analysis.rs, and the map from field names to types.
use mqtt_typed_client_next.Base.{
  ℕ, suc, ◌+◌, Bool, true, false, not, ◌||◌, ◌&&◌, none, some, List, [], ◌∷◌, length, ◌≡◌, refl,
  arith, ap, ◌∙◌, Bool-cases, inl, inr,
}
use mqtt_typed_client_next.Base.Map
use mqtt_typed_client_next.Base.Map.{lookup-insert}
use mqtt_typed_client_next.Base.Text.{Text, text_Eq, text_eq, text_eq_iff}
use mqtt_typed_client_next.Topic.Item.{TopicPatternItem, str, plus, hash, is_wildcard, param_name}
use mqtt_typed_client_next.Topic.PatternPath.{TopicPatternPath, is_named}
use mqtt_typed_client_next.Topic.PatternPath.Format.{wildcard_count}
use mqtt_typed_client_next.Topic.PatternPath.Binding.{wildcards}
use mqtt_typed_client_next.Topic.PatternPath.Validation.{names}
use mqtt_typed_client_next.Macros.Syntax.{SynType, Field}
use mqtt_typed_client_next.Macros.Analysis.{
  number_params, build_topic_params, extract_field_types, reserved_field_names,
}
use mqtt_typed_client_next.Macros.Analysis.Step.{is_some}
use mqtt_typed_client_next.Macros.Analysis.Laws.{idents, or_false}

pub length-number_params :
    (types : List (Text × SynType)) (items : List TopicPatternItem) (i : ℕ)
    → length (number_params types items i) ≡ length items
unfolding number_params
length-number_params types [] i = refl
length-number_params types (item ∷ items) i = ap suc (length-number_params types items (i + 1))

pub length-wildcards :
    (items : List TopicPatternItem) → length (wildcards items) ≡ wildcard_count items
unfolding wildcards wildcard_count is_wildcard
length-wildcards [] = refl
length-wildcards (str s ∷ items) = length-wildcards items
length-wildcards (plus n ∷ items) = ap suc (length-wildcards items)
length-wildcards (hash n ∷ items) = ap suc (length-wildcards items)

-- Literals have no name.
pub names-wildcards : (items : List TopicPatternItem) → names (wildcards items) ≡ names items
unfolding wildcards is_wildcard param_name
names-wildcards [] = refl
names-wildcards (str s ∷ items) = names-wildcards items
names-wildcards (plus none ∷ items) = names-wildcards items
names-wildcards (plus (some n) ∷ items) = ap (λ (r : List Text). n ∷ r) (names-wildcards items)
names-wildcards (hash none ∷ items) = names-wildcards items
names-wildcards (hash (some n) ∷ items) = ap (λ (r : List Text). n ∷ r) (names-wildcards items)

pub length-build_topic_params :
    {C : Type 0} (p : TopicPatternPath C) (types : List (Text × SynType))
    → length (build_topic_params p types) ≡ wildcard_count p.segments
unfolding build_topic_params
length-build_topic_params p types =
    length-number_params types (wildcards p.segments) 0 ∙ length-wildcards p.segments

-- A reserved field changes nothing, and any other is found under its name. Here `r` says whether
-- the name that is looked up is reserved, `e` whether it is that of the first field.
skipped :
    (r e n t s : Bool)
    → (e ≡ true → r ≡ true)
    → s ≡ ((not r && n) || t)
    → s ≡ ((not r && (e || n)) || t)
skipped true e n t s h k = k
skipped false true n t s h k = absurd (cc (h refl))
skipped false false n t s h k = k

added :
    (r e n t s : Bool)
    → (e ≡ true → r ≡ false)
    → s ≡ ((not r && n) || (e || t))
    → s ≡ ((not r && (e || n)) || t)
added true true n t s h k = absurd (cc (h refl))
added true false n t s h k = k
added false true true t s h k = k
added false true false t s h k = k
added false false n t s h k = k

is_some-insert :
    (name ident : Text) (ty : SynType) (types : List (Text × SynType))
    → is_some (Map.lookup name (Map.insert ident ty types))
      ≡ (text_eq ident name || is_some (Map.lookup name types))
is_some-insert name ident ty types = ground (arith, lookup-insert name ident ty types)

-- A name is found in the map exactly where it is that of a field and not reserved.
extract_lookup :
    (name : Text) (types : List (Text × SynType)) (fields : List Field)
    → is_some (Map.lookup name (extract_field_types types fields)) ≡ (
        (not (is_named name reserved_field_names) && is_named name (idents fields))
        || is_some (Map.lookup name types))
unfolding extract_field_types
extract_lookup name types [] = none_left (is_named name reserved_field_names)
  where
    none_left :
        (r : Bool)
        → is_some (Map.lookup name types) ≡ ((not r && false) || is_some (Map.lookup name types))
    none_left true = refl
    none_left false = refl
extract_lookup name types (field ∷ fields) =
    elim (Bool-cases (is_named field.ident reserved_field_names)) [
      | inl reserved ↦ rw reserved (
          skipped (is_named name reserved_field_names) (text_eq field.ident name) _ _ _
            (λ same. rw ((text_eq_iff field.ident name).0 same) at reserved)
            (extract_lookup name types fields))
      | inr free ↦ rw free (
          added (is_named name reserved_field_names) (text_eq field.ident name) _ _ _
            (λ same. rw ((text_eq_iff field.ident name).0 same) at free)
            (extract_lookup name (Map.insert field.ident field.ty types) fields
              ∙ ap
                  (λ b.
                    (not (is_named name reserved_field_names) && is_named name (idents fields))
                    || b)
                  (is_some-insert name field.ident field.ty types)))
    ]

pub field_type_found :
    (name : Text) (fields : List Field)
    → is_some (Map.lookup name (extract_field_types [] fields))
      ≡ (not (is_named name reserved_field_names) && is_named name (idents fields))
unfolding Map.lookup
field_type_found name fields = extract_lookup name [] fields ∙ or_false _
