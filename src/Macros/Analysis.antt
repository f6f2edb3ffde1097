-- ===== src/Macros/Analysis.antt =====
-- macros/src/analysis.rs: which field of the struct is filled from what. The text of an error is
-- the constructor of `SynError` with the names that the text mentions.
pub mod Step
pub mod Laws
pub mod Params
use mqtt_typed_client_next.Base.{
  ℕ, ◌+◌, Bool, true, false, ◌||◌, Option, none, some, List, [], ◌∷◌, ◌++◌, any, ◌==◌,
  if◌then◌else◌, Result, ok, err, ◌>>=◌, ◌>>◌,
}
use mathlib.Core.Option
use mqtt_typed_client_next.Base.Map
use mqtt_typed_client_next.Base.Text.{Text, text_Eq, codes, is_empty}
use mqtt_typed_client_next.Topic.Item.{TopicPatternItem, param_name}
use mqtt_typed_client_next.Topic.PatternPath.{TopicPatternPath, is_named}
use mqtt_typed_client_next.Topic.PatternPath.Binding.{wildcards}
use mqtt_typed_client_next.Topic.PatternPath.Validation.{names}
use mqtt_typed_client_next.Macros.Syntax.{
  SynType, path, other_type, GenericArguments, no_generics, type_argument, other_argument,
  PathArguments, angle_bracketed, Field, Fields, named, unnamed_or_not_a_struct, DeriveInput, last,
  last_is,
}

pub data SynError : Type 0 where
  needs_named_fields : SynError
  reserved_wildcard : Text → SynError
  wrong_field_type : (field inner : Text) → SynError
  unknown_fields : (unknown allowed : List Text) → SynError

abbrev pub reserved_field_names : List Text
reserved_field_names = codes "payload" ∷ codes "topic" ∷ codes "meta" ∷ []

pub record TopicParam : Type 0 where
  pub name : Option Text
  pub wildcard_index : ℕ
  pub struct_field_type : Option SynType

abbrev pub field_type_of : List (Text × SynType) → Option Text → Option SynType
field_type_of field_types none = none
field_type_of field_types (some param_name) = Map.lookup param_name field_types

-- The wildcards of the pattern, numbered from `wildcard_index` on.
unfoldable pub number_params : List (Text × SynType) → List TopicPatternItem → ℕ → List TopicParam
number_params field_types [] wildcard_index = []
number_params field_types (item ∷ rest) wildcard_index =
    record {
      name = param_name item;
      wildcard_index = wildcard_index;
      struct_field_type = field_type_of field_types (param_name item);
    }
    ∷ number_params field_types rest (wildcard_index + 1)

unfoldable pub build_topic_params :
    {C : Type 0} → TopicPatternPath C → List (Text × SynType) → List TopicParam
unfolding number_params wildcards
build_topic_params topic_pattern field_types =
    number_params field_types (wildcards topic_pattern.segments) 0

-- `filter(is_wildcard).filter_map(param_name)`.
unfoldable pub named_params : {C : Type 0} → TopicPatternPath C → List Text
unfolding wildcards
named_params topic_pattern = names (wildcards topic_pattern.segments)

unfoldable pub reject_reserved_wildcard :
    {C : Type 0} → TopicPatternPath C → Text → Result (Unit {0}) SynError
unfolding named_params
reject_reserved_wildcard topic_pattern name =
    if is_named name (named_params topic_pattern) then err (reserved_wildcard name) else ok tt

abbrev first_is : GenericArguments → Text → Bool
first_is (type_argument (path leading segments) rest) inner = last_is segments inner
first_is _ inner = false

abbrev angle_is : PathArguments → Text → Bool
angle_is (angle_bracketed args) inner = first_is args inner
angle_is _ inner = false

unfoldable pub is_arc_of : SynType → Text → Bool
unfolding last last_is
is_arc_of (path leading segments) inner = elim (last segments) [
  | none ↦ false
  | some (name, args) ↦ if name == codes "Arc" then angle_is args inner else false
]
is_arc_of (other_type _) inner = false

unfoldable pub is_plain_type : SynType → Text → Bool
unfolding last_is
is_plain_type (path leading segments) name = last_is segments name
is_plain_type (other_type _) name = false

unfoldable pub validate_adaptive_field : SynType → (inner field : Text) → Result Bool SynError
unfolding is_arc_of is_plain_type
validate_adaptive_field ty inner field =
    if is_arc_of ty inner
    then ok false
    else if is_plain_type ty inner
    then ok true
    else err (wrong_field_type field inner)

-- The map from names to types, without the reserved names.
unfoldable pub extract_field_types : List (Text × SynType) → List Field → List (Text × SynType)
extract_field_types field_types [] = field_types
extract_field_types field_types (field ∷ rest) =
    extract_field_types
      (if is_named field.ident reserved_field_names
        then field_types
        else Map.insert field.ident field.ty field_types)
      rest

unfoldable pub extract_struct_fields : DeriveInput → Result (List Field) SynError
extract_struct_fields input_struct = elim input_struct.fields [
  | named fields ↦ ok fields
  | unnamed_or_not_a_struct ↦ err needs_named_fields
]

-- The local variables of the loop over the fields.
pub record Found : Type 0 where
  pub payload_type : Option SynType
  pub has_topic_field : Bool
  pub topic_field_owned : Bool
  pub has_meta_field : Bool
  pub meta_field_owned : Bool
  pub unknown : List Text

abbrev pub nothing_found : Found
nothing_found = record {
  payload_type = none;
  has_topic_field = false;
  topic_field_owned = false;
  has_meta_field = false;
  meta_field_owned = false;
  unknown = [];
}

pub record StructAnalysisContext : Type 0 where
  pub payload_type : Option SynType
  pub has_topic_field : Bool
  pub topic_field_owned : Bool
  pub has_meta_field : Bool
  pub meta_field_owned : Bool
  pub topic_params : List TopicParam

module _ {C : Type 0} (topic_pattern : TopicPatternPath C) where
  -- The body of the loop.
  unfoldable pub analyze_field : Field → Found → Result Found SynError
  unfolding reject_reserved_wildcard validate_adaptive_field named_params
  analyze_field field found =
      if field.ident == codes "payload"
      then (do
        reject_reserved_wildcard topic_pattern (codes "payload")
        ok (record found { payload_type = some field.ty }))
      else if field.ident == codes "topic"
      then (do
        reject_reserved_wildcard topic_pattern (codes "topic")
        owned ← validate_adaptive_field field.ty (codes "TopicMatch") (codes "topic")
        ok (record found { has_topic_field = true; topic_field_owned = owned }))
      else if field.ident == codes "meta"
      then (do
        reject_reserved_wildcard topic_pattern (codes "meta")
        owned ← validate_adaptive_field field.ty (codes "MessageMeta") (codes "meta")
        ok (record found { has_meta_field = true; meta_field_owned = owned }))
      else ok (
          if is_named field.ident (named_params topic_pattern)
          then found
          else record found { unknown = found.unknown ++ field.ident ∷ [] })

  unfoldable pub analyze_fields : List Field → Found → Result Found SynError
  analyze_fields [] found = ok found
  analyze_fields (field ∷ rest) found = analyze_field field found >>= analyze_fields rest

  -- What the code builds after its loop.
  unfoldable pub context_of : List Field → Found → Result StructAnalysisContext SynError
  unfolding named_params build_topic_params
  context_of struct_fields found =
      if is_empty found.unknown
      then ok (record {
        payload_type = found.payload_type;
        has_topic_field = found.has_topic_field;
        topic_field_owned = found.topic_field_owned;
        has_meta_field = found.has_meta_field;
        meta_field_owned = found.meta_field_owned;
        topic_params = build_topic_params topic_pattern (extract_field_types [] struct_fields);
      })
      else err (unknown_fields found.unknown (named_params topic_pattern))

  unfoldable pub analyze : DeriveInput → Result StructAnalysisContext SynError
  unfolding analyze_fields context_of
  analyze input_struct = do
    struct_fields ← extract_struct_fields input_struct
    found ← analyze_fields struct_fields nothing_found
    context_of struct_fields found
