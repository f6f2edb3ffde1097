-- ===== src/Macros/Codegen/Fields.antt =====
-- Which fields the struct literal that macros/src/codegen.rs emits assigns.
use mqtt_typed_client_next.Base.{
  ℕ, ◌+◌, Bool, true, false, not, ◌||◌, ◌&&◌, Option, none, some, List, [], ◌∷◌, ◌++◌, map, ok, ◌≡◌,
  refl, arith, ap, ◌∙◌, Bool-cases, Option-cases, inl, inr, All,
}
use mqtt_typed_client_next.Base.Map
use mqtt_typed_client_next.Base.Text.{Text, text_Eq, text_eq, text_eq_iff, codes}
use mqtt_typed_client_next.Topic.Item.{TopicPatternItem, param_name}
use mqtt_typed_client_next.Topic.PatternPath.{TopicPatternPath, is_named}
use mqtt_typed_client_next.Topic.PatternPath.Validation.{names}
use mqtt_typed_client_next.Macros.Syntax.{SynType, Field}
use mqtt_typed_client_next.Macros.Analysis.{
  StructAnalysisContext, number_params, extract_field_types, reserved_field_names, named_params,
}
use mqtt_typed_client_next.Macros.Analysis.Step.{is_some, IsKnown}
use mqtt_typed_client_next.Macros.Analysis.Laws.{idents, IsAnalysed, or_false}
use mqtt_typed_client_next.Macros.Analysis.Params.{field_type_found}
use mqtt_typed_client_next.Macros.Codegen.{
  Assignment, shorthand, target, param_assignments, reserved_assignments, adaptive,
  payload_assignment,
}

-- The named wildcards that have a type in the map.
abbrev pub typed : Bool → Text → List Text → List Text
typed true n ns = n ∷ ns
typed false n ns = ns

abbrev pub field_names : List (Text × SynType) → List Text → List Text
field_names types [] = []
field_names types (n ∷ ns) = typed (is_some (Map.lookup n types)) n (field_names types ns)

pub param_assignments_lem :
    (types : List (Text × SynType)) (items : List TopicPatternItem) (i : ℕ)
    → param_assignments (number_params types items i)
      ≡ ok (map shorthand (field_names types (names items)))
unfolding param_assignments number_params
param_assignments_lem types [] i = refl
param_assignments_lem types (item ∷ items) i = elim (Option-cases (param_name item)) [
  | inl e ↦ rw e (param_assignments_lem types items (i + 1))
  | inr (n, e) ↦ elim (Option-cases (Map.lookup n types)) [
    | inl missing ↦ rw (e, missing) (param_assignments_lem types items (i + 1))
    | inr (ty, found) ↦ rw (e, found, param_assignments_lem types items (i + 1)) refl
  ]
]

and_true : (b : Bool) → (b && true) ≡ b
and_true true = refl
and_true false = refl

and_false : (b : Bool) → (b && false) ≡ false
and_false true = refl
and_false false = refl

is_named-field_names :
    (n : Text) (types : List (Text × SynType)) (ns : List Text)
    → is_named n (field_names types ns) ≡ (is_named n ns && is_some (Map.lookup n types))
is_named-field_names n types [] = refl
is_named-field_names n types (m ∷ ns) = elim (Bool-cases (text_eq m n)) [
  | inl same ↦
      let e = (text_eq_iff m n).0 same in
      elim (Bool-cases (is_some (Map.lookup m types))) [
        | inl there ↦ rw (there, same, ← e, there) refl
        | inr missing ↦
            let gone : is_some (Map.lookup n types) ≡ false = rw e at missing in
            rw (missing, same, is_named-field_names n types ns, gone) (and_false (is_named n ns))
      ]
  | inr other ↦ elim (Bool-cases (is_some (Map.lookup m types))) [
    | inl there ↦ rw (there, other) (is_named-field_names n types ns)
    | inr missing ↦ rw (missing, other) (is_named-field_names n types ns)
  ]
]

is_named-append :
    (n : Text) (xs ys : List Text) → is_named n (xs ++ ys) ≡ (is_named n xs || is_named n ys)
is_named-append n [] ys = refl
is_named-append n (x ∷ xs) ys = ground (arith, is_named-append n xs ys)

pub target-append :
    (xs ys : List Assignment) → map target (xs ++ ys) ≡ map target xs ++ map target ys
target-append [] ys = refl
target-append (x ∷ xs) ys = ap (λ (r : List Text). target x ∷ r) (target-append xs ys)

pub target-shorthand : (ns : List Text) → map target (map shorthand ns) ≡ ns
target-shorthand [] = refl
target-shorthand (n ∷ ns) = ap (λ (r : List Text). n ∷ r) (target-shorthand ns)

-- The reserved fields that are assigned, by their names.
abbrev pub present : Bool → Text → List Text
present true name = name ∷ []
present false name = []

target-adaptive :
    (here owned : Bool) (name : Text) → map target (adaptive here owned name) ≡ present here name
target-adaptive true true name = refl
target-adaptive true false name = refl
target-adaptive false owned name = refl

target-payload :
    (ty : Option SynType)
    → map target (payload_assignment ty) ≡ present (is_some ty) (codes "payload")
target-payload none = refl
target-payload (some ty) = refl

unfoldable pub reserved_names : StructAnalysisContext → List Text
reserved_names context =
    present (is_some context.payload_type) (codes "payload")
    ++ (present context.has_topic_field (codes "topic")
        ++ present context.has_meta_field (codes "meta"))

pub target-reserved :
    (context : StructAnalysisContext)
    → map target (reserved_assignments context) ≡ reserved_names context
unfolding reserved_names
target-reserved context =
    rw
      (
        target-append (payload_assignment context.payload_type) (
            adaptive context.has_topic_field context.topic_field_owned (codes "topic")
            ++ adaptive context.has_meta_field context.meta_field_owned (codes "meta")),
        target-append (adaptive context.has_topic_field context.topic_field_owned (codes "topic"))
            (adaptive context.has_meta_field context.meta_field_owned (codes "meta")),
        target-payload context.payload_type,
        target-adaptive context.has_topic_field context.topic_field_owned (codes "topic"),
        target-adaptive context.has_meta_field context.meta_field_owned (codes "meta"),
      )
      refl

is_named-present : (n name : Text) (b : Bool) → is_named n (present b name) ≡ (b && text_eq name n)
is_named-present n name true = or_false (text_eq name n)
is_named-present n name false = refl

-- Of a name among others, compared with `n`.
at_name :
    (n name : Text) (ns : List Text)
    → (is_named name ns && text_eq name n) ≡ (text_eq name n && is_named n ns)
at_name n name ns = elim (Bool-cases (text_eq name n)) [
  | inl same ↦ rw (same, (text_eq_iff name n).0 same) (and_true (is_named n ns))
  | inr other ↦ rw other (and_false (is_named name ns))
]

present_part :
    (n name : Text) (ns : List Text) {flag : Bool}
    → flag ≡ is_named name ns
    → is_named n (present flag name) ≡ (text_eq name n && is_named n ns)
present_part n name ns {flag} h =
    is_named-present n name flag ∙ ap (λ b. b && text_eq name n) h ∙ at_name n name ns

-- A name is that of a parameter of the struct or a reserved one, and not both.
one_of :
    (a b c w i : Bool)
    → (i ≡ true → w ≡ not (a || (b || (c || false))))
    → ((w && (not (a || (b || (c || false))) && i)) || ((a && i) || ((b && i) || (c && i)))) ≡ i
one_of a b c w true h = let e = h refl in ground arith
one_of a b c w false h = ground arith

module _ {C : Type 0} (p : TopicPatternPath C) (fields : List Field) where
  IsKnown-found :
      (n : Text) (ns : List Text) → All (IsKnown p) ns → is_named n ns ≡ true → IsKnown p n
  IsKnown-found n [] known h = absurd (cc)
  IsKnown-found n (m ∷ ns) (k, ks) h = elim (Bool-cases (text_eq m n)) [
    | inl same ↦ rw ((text_eq_iff m n).0 same) at k
    | inr other ↦ IsKnown-found n ns ks (rw other at h)
  ]

  -- The struct literal assigns a field exactly where the struct has it.
  module _ (context : StructAnalysisContext) (sound : IsAnalysed p fields context) (n : Text) where
    abbrev pub types : List (Text × SynType)
    types = extract_field_types [] fields

    reserved_part : is_named n (reserved_names context) ≡ (
        (text_eq (codes "payload") n && is_named n (idents fields))
        || ((text_eq (codes "topic") n && is_named n (idents fields))
            || (text_eq (codes "meta") n && is_named n (idents fields))))
    unfolding reserved_names
    reserved_part =
        rw
          (
            is_named-append n (present (is_some context.payload_type) (codes "payload")) (
                present context.has_topic_field (codes "topic")
                ++ present context.has_meta_field (codes "meta")),
            is_named-append n (present context.has_topic_field (codes "topic"))
                (present context.has_meta_field (codes "meta")),
            present_part n (codes "payload") (idents fields) sound.payload,
            present_part n (codes "topic") (idents fields) sound.topic,
            present_part n (codes "meta") (idents fields) sound.meta,
          )
          refl

    param_part : is_named n (field_names types (named_params p)) ≡ (
        is_named n (named_params p)
        && (not (is_named n reserved_field_names) && is_named n (idents fields)))
    param_part =
        is_named-field_names n types (named_params p)
        ∙ ap (λ b. is_named n (named_params p) && b) (field_type_found n fields)

    pub assigned_names :
        is_named n (field_names types (named_params p) ++ reserved_names context)
        ≡ is_named n (idents fields)
    assigned_names =
        rw
          (
            is_named-append n (field_names types (named_params p)) (reserved_names context),
            param_part,
            reserved_part,
          )
          (one_of (text_eq (codes "payload") n) (text_eq (codes "topic") n)
            (text_eq (codes "meta") n) (is_named n (named_params p)) (is_named n (idents fields))
            (IsKnown-found n (idents fields) sound.known))
