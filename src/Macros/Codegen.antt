-- ===== src/Macros/Codegen.antt =====
-- macros/src/codegen.rs: what the macro emits, as data. The names of the items that it emits, their
-- bounds and documentation are left out, and so is the typed client of codegen_typed_client.rs.
pub mod Items
pub mod Fields
pub mod Literal
use mqtt_typed_client_next.Base.{
  ℕ, ◌+◌, Bool, true, false, Option, none, some, List, [], ◌∷◌, ◌++◌, map, get_elem?, if◌then◌else◌,
  Result, ok, err, ◌>>=◌,
}
use mqtt_typed_client_next.Base.Text.{Text, codes, join}
use mqtt_typed_client_next.Topic.Item.{TopicPatternItem, is_wildcard, as_str}
use mqtt_typed_client_next.Topic.PatternPath.Binding.{mqtt_pattern}
use mqtt_typed_client_next.Macros.Syntax.{SynType, path, other_type, last_is, simple}
use mqtt_typed_client_next.Macros.Analysis.{TopicParam, StructAnalysisContext}
use mqtt_typed_client_next.Macros.Args.{MacroArgs}

-- A panic of the macro itself.
pub data MacroPanic : Type 0 where
  unwrap_on_none : MacroPanic
  not_an_ident : Text → MacroPanic

-- `format_ident!` of a text: `is_ident` says which texts the crate `proc_macro2` takes for an
-- identifier. The names of fields, which the compiler has read, are identifiers.
abbrev pub format_ident : (Text → Bool) → Text → Result Text MacroPanic
format_ident is_ident name = if is_ident name then ok name else err (not_an_ident name)

-- `wildcard_{i}` has the index in decimal: `decimal` stands for `Display` of `usize`.
unfoldable pub get_publisher_param_name : (ℕ → Text) → TopicParam → Text
get_publisher_param_name decimal param = elim param.name [
  | some name ↦ name
  | none ↦ codes "wildcard_" ++ decimal param.wildcard_index
]

abbrev pub ref_str : SynType
ref_str = other_type (codes "&str")

unfoldable pub is_string_type : SynType → Bool
unfolding last_is
is_string_type (path leading segments) = last_is segments (codes "String")
is_string_type (other_type _) = false

unfoldable pub get_publisher_param_type : TopicParam → SynType
unfolding is_string_type
get_publisher_param_type param = elim param.struct_field_type [
  | some field_type ↦ if is_string_type field_type then ref_str else field_type
  | none ↦ ref_str
]

abbrev pub is_struct_field : TopicParam → Bool
is_struct_field param = elim param.struct_field_type [ some _ ↦ true | none ↦ false ]

-- `let ident = extract_topic_parameter(&topic, index, name)?;`, where the name is also the ident.
-- The type is that of the field, which Rust infers.
pub record Extraction : Type 0 where
  pub param_ident : Text
  pub param_index : ℕ
  pub param_type : SynType

abbrev pub extractions_from :
    Option SynType
    → TopicParam
    → Result (List Extraction) MacroPanic
    → Result (List Extraction) MacroPanic
extractions_from none param rest = rest
extractions_from (some ty) param rest = elim param.name [
  | none ↦ err unwrap_on_none
  | some name ↦ rest >>= λ others.
      ok (
        record { param_ident = name; param_index = param.wildcard_index; param_type = ty } ∷ others)
]

unfoldable pub generate_subscriber_param_extractions :
    List TopicParam → Result (List Extraction) MacroPanic
generate_subscriber_param_extractions [] = ok []
generate_subscriber_param_extractions (param ∷ rest) =
    let others = generate_subscriber_param_extractions rest in
    extractions_from param.struct_field_type param others

-- An entry of the struct literal: `name,` or `name: Arc::unwrap_or_clone(name),`.
pub data Assignment : Type 0 where
  shorthand unwrap_or_clone : Text → Assignment

abbrev pub target : Assignment → Text
target (shorthand name) = name
target (unwrap_or_clone name) = name

unfoldable pub param_assignments : List TopicParam → Result (List Assignment) MacroPanic
param_assignments [] = ok []
param_assignments (param ∷ rest) =
    let others = param_assignments rest in
    elim param.struct_field_type [
      | none ↦ others
      | some _ ↦ elim param.name [
        | none ↦ err unwrap_on_none
        | some name ↦ others >>= λ more. ok (shorthand name ∷ more)
      ]
    ]

abbrev pub adaptive : Bool → Bool → Text → List Assignment
adaptive present owned name =
    if present then (if owned then unwrap_or_clone name else shorthand name) ∷ [] else []

abbrev pub payload_assignment : Option SynType → List Assignment
payload_assignment none = []
payload_assignment (some _) = shorthand (codes "payload") ∷ []

abbrev pub reserved_assignments : StructAnalysisContext → List Assignment
reserved_assignments context =
    payload_assignment context.payload_type
    ++ (adaptive context.has_topic_field context.topic_field_owned (codes "topic")
        ++ adaptive context.has_meta_field context.meta_field_owned (codes "meta"))

unfoldable pub generate_subscriber_field_assignments :
    StructAnalysisContext → Result (List Assignment) MacroPanic
unfolding param_assignments
generate_subscriber_field_assignments context =
    param_assignments context.topic_params >>= λ params. ok (params ++ reserved_assignments context)

abbrev pub vec_u8 : SynType
vec_u8 = other_type (codes "Vec<u8>")

abbrev pub get_payload_type_token : StructAnalysisContext → SynType
get_payload_type_token context = elim context.payload_type [ none ↦ vec_u8 | some ty ↦ ty ]

-- `impl FromMqttMessage<payload_type, DE> for Struct`.
pub record FromMqttImpl : Type 0 where
  pub param_extractions : List Extraction
  pub field_assignments : List Assignment
  pub payload_type : SynType
  pub binds_meta : Bool

module _ (decimal : ℕ → Text) where
  unfoldable pub get_publisher_method_params :
      (Text → Bool) → List TopicParam → Result (List (Text × SynType)) MacroPanic
  unfolding get_publisher_param_name get_publisher_param_type
  get_publisher_method_params is_ident [] = ok []
  get_publisher_method_params is_ident (param ∷ rest) =
      format_ident is_ident (get_publisher_param_name decimal param) >>= λ param_ident.
      get_publisher_method_params is_ident rest >>= λ others.
      ok ((param_ident, get_publisher_param_type param) ∷ others)

  -- The argument for a wildcard, if there is a parameter for it.
  abbrev pub param_arg : (Text → Bool) → Option TopicParam → Result (List Text) MacroPanic
  param_arg is_ident none = ok []
  param_arg is_ident (some param) =
      format_ident is_ident (get_publisher_param_name decimal param) >>= λ param_ident.
      ok (param_ident ∷ [])

  abbrev pub next_index : Option TopicParam → ℕ → ℕ
  next_index none param_index = param_index
  next_index (some _) param_index = param_index + 1

  -- The loop over the segments: `format_parts` and `param_args`.
  unfoldable pub topic_format :
      (Text → Bool)
      → List TopicParam
      → List TopicPatternItem
      → ℕ
      → Result (List Text × List Text) MacroPanic
  unfolding is_wildcard as_str get_publisher_param_name
  topic_format is_ident params [] param_index = ok ([], [])
  topic_format is_ident params (item ∷ rest) param_index =
      let wildcard = is_wildcard item in
      let param = get_elem? params param_index in
      (if wildcard then param_arg is_ident param else ok []) >>= λ arg.
      topic_format is_ident params rest
        (if wildcard then next_index param param_index else param_index)
      >>= λ others. ok ((if wildcard then codes "{}" else as_str item) ∷ others.0, arg ++ others.1)

  module _ {C : Type 0} (context : StructAnalysisContext) (macro_args : MacroArgs C) where
    unfoldable pub get_topic_format_and_args : (Text → Bool) → Result (Text × List Text) MacroPanic
    unfolding topic_format join
    get_topic_format_and_args is_ident =
        topic_format is_ident context.topic_params macro_args.pattern.segments 0 >>= λ format.
        ok (join format.0, format.1)

    unfoldable pub generate_from_mqtt_impl : Result (Option FromMqttImpl) MacroPanic
    unfolding generate_subscriber_param_extractions generate_subscriber_field_assignments
    generate_from_mqtt_impl =
        if macro_args.generate_subscriber
        then (do
          extractions ← generate_subscriber_param_extractions context.topic_params
          assignments ← generate_subscriber_field_assignments context
          ok (
              some (record {
                param_extractions = extractions;
                field_assignments = assignments;
                payload_type = get_payload_type_token context;
                binds_meta = context.has_meta_field;
              })))
        else ok none
