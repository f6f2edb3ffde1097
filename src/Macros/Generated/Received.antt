-- ===== src/Macros/Generated/Received.antt =====
-- The generated `from_mqtt_message` from end to end: its extractions, then its struct literal.
use mqtt_typed_client_next.Base.{
  ℕ, suc, true, some, List, [], ◌∷◌, ◌++◌, map, length, get_elem?, ◌≡◌, refl, ap, sym, All, Result,
  ok,
}
use mathlib.Core.Path.{subst}
use mqtt_typed_client_next.Base.Text.{Text}
use mqtt_typed_client_next.Topic.Item.{TopicPatternItem}
use mqtt_typed_client_next.Topic.TopicMatch.{TopicMatch, get_param}
use mqtt_typed_client_next.Topic.PatternPath.Binding.{wildcards}
use mqtt_typed_client_next.Topic.PatternPath.Validation.{names, Distinct}
use mqtt_typed_client_next.Macros.Syntax.{SynType, Field}
use mqtt_typed_client_next.Macros.Analysis.{
  StructAnalysisContext, extract_field_types, named_params, build_topic_params,
}
use mqtt_typed_client_next.Macros.Analysis.Laws.{IsAnalysed}
use mqtt_typed_client_next.Macros.Args.{MacroArgs}
use mqtt_typed_client_next.Macros.Codegen.{
  Extraction, shorthand, generate_subscriber_param_extractions, reserved_assignments, FromMqttImpl,
  generate_from_mqtt_impl, get_payload_type_token,
}
use mqtt_typed_client_next.Macros.Codegen.Fields.{field_names}
use mqtt_typed_client_next.Macros.Codegen.Literal.{
  IsFree, IsFree-lookup, field_names-IsFree, field_names-Distinct, literal, generate-literal,
}
use mqtt_typed_client_next.Macros.Generated.{
  param_value, Locals, struct_literal, arguments, from_mqtt_message, finish,
}
use mqtt_typed_client_next.Macros.Generated.Struct.{
  param_fields, keys-param_fields, keys, pushed, struct_literal-pushed, AllParse,
  run_extractions-number_params,
}
use mqtt_typed_client_next.Macros.Generated.Message.{
  reserved_entries, literal-reserved, topic_there,
}

pub AllParse-length :
    {V PE : Type 0} (parse : SynType → Text → Result V PE) (types : List (Text × SynType))
    (items : List TopicPatternItem) (texts : List Text) (vs : List V)
    → AllParse parse types items texts vs
    → length vs ≡ length items
AllParse-length parse types [] [] [] h = refl
AllParse-length parse types (item ∷ items) (t ∷ ts) (v ∷ vs) (_, h) =
    ap suc (AllParse-length parse types items ts vs h)
AllParse-length parse types _ _ _ h = absurd h

pub AllParse-texts :
    {V PE : Type 0} (parse : SynType → Text → Result V PE) (types : List (Text × SynType))
    (items : List TopicPatternItem) (texts : List Text) (vs : List V)
    → AllParse parse types items texts vs
    → length texts ≡ length items
AllParse-texts parse types [] [] [] h = refl
AllParse-texts parse types (item ∷ items) (t ∷ ts) (v ∷ vs) (_, h) =
    ap suc (AllParse-texts parse types items ts vs h)
AllParse-texts parse types _ _ _ h = absurd h

-- The struct that a message stands for: the fields of the wildcards, in the order of the pattern,
-- and the reserved fields that it has.
abbrev pub struct_of :
    {D T V : Type 0}
    → List (Text × SynType)
    → List TopicPatternItem
    → StructAnalysisContext
    → List V
    → TopicMatch
    → D
    → T
    → Locals D T V
struct_of types items context vs topic meta payload =
    map (λ b. (b.0, param_value b.1)) (param_fields types items vs)
    ++ reserved_entries context topic meta payload

module _ {C : Type 0} (macro_args : MacroArgs C) (fields : List Field)
    (context : StructAnalysisContext) (sound : IsAnalysed macro_args.pattern fields context) where
  abbrev items : List TopicPatternItem
  items = wildcards macro_args.pattern.segments

  abbrev types : List (Text × SynType)
  types = extract_field_types [] fields

  impl_with : List Extraction → FromMqttImpl
  impl_with xs = record {
    param_extractions = xs;
    field_assignments = literal macro_args.pattern fields context sound;
    payload_type = get_payload_type_token context;
    binds_meta = context.has_meta_field;
  }

  generate-impl_with :
      (decimal : ℕ → Text) (xs : List Extraction)
      → macro_args.generate_subscriber ≡ true
      → generate_subscriber_param_extractions context.topic_params ≡ ok xs
      → generate_from_mqtt_impl decimal context macro_args ≡ ok (some (impl_with xs))
  unfolding generate_from_mqtt_impl impl_with
  generate-impl_with decimal xs subscriber generated =
      rw (subscriber, generated, generate-literal macro_args.pattern fields context sound) refl

  module _ {D T V : Type 0} (distinct : Distinct (named_params macro_args.pattern))
      (topic : TopicMatch) (meta : D) (payload : T) (vs : List V)
      (n : length vs ≡ length items) where
    keys_are : keys (param_fields types items vs) ≡ field_names types (names items)
    keys_are = keys-param_fields types items vs n

    finish-impl_with :
        (xs : List Extraction)
        → finish (impl_with xs).field_assignments (
            some (
              pushed
                (param_fields types items vs)
                (arguments context.has_meta_field topic meta payload)))
          ≡ some (struct_of types items context vs topic meta payload)
    unfolding impl_with named_params
    finish-impl_with xs =
        let bs = param_fields types items vs in
        let free : All IsFree (keys bs) =
          subst (All IsFree) (sym keys_are) (field_names-IsFree fields (names items)) in
        let d : Distinct (keys bs) =
          subst Distinct (sym keys_are) (field_names-Distinct types (names items) distinct) in
        let start = arguments context.has_meta_field topic meta payload in
        let reserved = literal-reserved context topic meta payload bs free in
        let all = struct_literal-pushed bs start (reserved_assignments context) d reserved in
        subst
          (λ ks.
            struct_literal (map shorthand ks ++ reserved_assignments context) (pushed bs start)
            ≡ some (struct_of types items context vs topic meta payload))
          keys_are all

    -- Where each parameter with a field parses, the generated function builds the struct.
    pub from_mqtt_message-generate :
        {DE PE : Type 0} (decimal : ℕ → Text) (parse : SynType → Text → Result V PE)
        (texts : List Text)
        → macro_args.generate_subscriber ≡ true
        → ((j : ℕ) → get_param topic j ≡ ok (get_elem? texts j))
        → AllParse parse types items texts vs
        → (code : FromMqttImpl) × (generate_from_mqtt_impl decimal context macro_args
            ≡ ok (some code))
          × (from_mqtt_message {DE = DE} parse code topic meta payload
              ≡ ok (some (struct_of types items context vs topic meta payload)))
    unfolding from_mqtt_message build_topic_params impl_with
    from_mqtt_message-generate {DE} decimal parse texts subscriber read parses =
        let (xs, generated, run) =
          run_extractions-number_params parse {D = D} {T = T} {DE = DE} types topic texts read
            (IsFree-lookup fields) items 0 texts vs refl parses in
        let start = arguments context.has_meta_field topic meta payload in
        (
          impl_with xs,
          generate-impl_with decimal xs subscriber (rw sound.params generated),
          rw (run start (topic_there context.has_meta_field topic meta payload))
              (ap ok (finish-impl_with xs)),
        )
