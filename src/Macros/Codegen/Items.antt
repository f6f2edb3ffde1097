-- ===== src/Macros/Codegen/Items.antt =====
-- The items that macros/src/codegen.rs emits beside the conversion, and all of them together.
use mqtt_typed_client_next.Base.{
  ℕ, Bool, true, false, Option, none, some, List, [], ◌∷◌, ◌++◌, if◌then◌else◌, Result, ok, err,
  ◌>>=◌,
}
use mqtt_typed_client_next.Base.Text.{Text, codes}
use mqtt_typed_client_next.Topic.PatternPath.Binding.{mqtt_pattern}
use mqtt_typed_client_next.Topic.PatternPath.Access.{topic_pattern}
use mqtt_typed_client_next.Macros.Syntax.{SynType, DeriveInput}
use mqtt_typed_client_next.Macros.Naming.{TypedClientNames, from_struct_name}
use mqtt_typed_client_next.Macros.Analysis.{TopicParam, StructAnalysisContext, SynError, analyze}
use mqtt_typed_client_next.Macros.Args.{MacroArgs}
use mqtt_typed_client_next.Macros.Codegen.{
  MacroPanic, format_ident, FromMqttImpl, get_publisher_param_name, get_publisher_param_type,
  get_publisher_method_params, get_topic_format_and_args, generate_from_mqtt_impl,
  get_payload_type_token,
}

-- `fn for_name(self, value: T)`, which binds `param_key` and unwraps.
pub record ForMethod : Type 0 where
  pub method_name : Text
  pub param_type : SynType
  pub param_key : Text

-- `TOPIC_PATTERN` and `MQTT_PATTERN`.
pub record Constants : Type 0 where
  pub topic_pattern_literal : Text
  pub mqtt_pattern_literal : Text

-- What `publish`, `get_publisher` and `get_publisher_to` share. Without a serializer of its own
-- the struct uses that of the client.
pub record PublisherMethods : Type 0 where
  pub method_params : List (Text × SynType)
  pub format_string : Text
  pub format_args : List Text
  pub payload_type : SynType
  pub serializer : Option SynType

-- `last_will` and `last_will_to`.
pub record LastWillMethods : Type 0 where
  pub method_params : List (Text × SynType)
  pub format_string : Text
  pub format_args : List Text
  pub payload_type : SynType

-- All that is emitted; `builder_serializer` is that of `subscription`, and `subscribe` has the type
-- of the payload.
pub record Implementation : Type 0 where
  pub input_struct : DeriveInput
  pub module_name : Text
  pub constants : Constants
  pub builder_serializer : Option SynType
  pub from_mqtt : Option FromMqttImpl
  pub subscribe : Option SynType
  pub for_methods : Option (List ForMethod)
  pub publisher : Option PublisherMethods
  pub last_will : Option LastWillMethods
  pub typed_client : Option TypedClientNames

pub data MacroFailure : Type 0 where
  macro_panic : MacroPanic → MacroFailure
  syn_error : SynError → MacroFailure

abbrev pub when {ℓ} : {A : Type ℓ} → Bool → A → Option A
when true a = some a
when false a = none

module _ (decimal : ℕ → Text) where
  unfoldable pub generate_single_for_method :
      (Text → Bool) → TopicParam → Result ForMethod MacroPanic
  unfolding get_publisher_param_name get_publisher_param_type
  generate_single_for_method is_ident param =
      format_ident is_ident (codes "for_" ++ get_publisher_param_name decimal param)
      >>= λ method_name. ok (record {
        method_name = method_name;
        param_type = get_publisher_param_type param;
        param_key = get_publisher_param_name decimal param;
      })

  unfoldable pub generate_for_methods :
      (Text → Bool) → List TopicParam → Result (List ForMethod) MacroPanic
  unfolding generate_single_for_method
  generate_for_methods is_ident [] = ok []
  generate_for_methods is_ident (param ∷ rest) =
      generate_single_for_method is_ident param >>= λ method.
      generate_for_methods is_ident rest >>= λ others. ok (method ∷ others)

  module _ {C : Type 0} (context : StructAnalysisContext) (macro_args : MacroArgs C) where
    unfoldable pub generate_constants : Constants
    unfolding mqtt_pattern
    generate_constants = record {
      topic_pattern_literal = topic_pattern macro_args.pattern;
      mqtt_pattern_literal = mqtt_pattern macro_args.pattern;
    }

    unfoldable pub should_generate_typed_client : Bool
    should_generate_typed_client = elim macro_args.custom_serializer [
      | some _ ↦ false
      | none ↦ macro_args.generate_typed_client
    ]

    unfoldable pub generate_publisher_methods :
        (Text → Bool) → Result (Option PublisherMethods) MacroPanic
    unfolding get_publisher_method_params get_topic_format_and_args
    generate_publisher_methods is_ident =
        if macro_args.generate_publisher
        then (do
          method_params ← get_publisher_method_params decimal is_ident context.topic_params
          format ← get_topic_format_and_args decimal context macro_args is_ident
          ok (
              some (record {
                method_params = method_params;
                format_string = format.0;
                format_args = format.1;
                payload_type = get_payload_type_token context;
                serializer = macro_args.custom_serializer;
              })))
        else ok none

    unfoldable pub generate_last_will_methods :
        (Text → Bool) → Result (Option LastWillMethods) MacroPanic
    unfolding get_publisher_method_params get_topic_format_and_args
    generate_last_will_methods is_ident =
        if macro_args.generate_last_will
        then (do
          method_params ← get_publisher_method_params decimal is_ident context.topic_params
          format ← get_topic_format_and_args decimal context macro_args is_ident
          ok (
              some (record {
                method_params = method_params;
                format_string = format.0;
                format_args = format.1;
                payload_type = get_payload_type_token context;
              })))
        else ok none

    -- `generate_subscription_for_bind_extension`.
    unfoldable pub generate_subscription_for_bind_extension :
        (Text → Bool) → Result (Option (List ForMethod)) MacroPanic
    unfolding generate_for_methods
    generate_subscription_for_bind_extension is_ident =
        if macro_args.generate_subscriber
        then (generate_for_methods is_ident context.topic_params >>= λ methods. ok (some methods))
        else ok none

    unfoldable pub generate_complete_implementation :
        (Text → Bool) → DeriveInput → Result Implementation MacroPanic
    unfolding generate_from_mqtt_impl generate_constants generate_subscription_for_bind_extension
        generate_publisher_methods generate_last_will_methods should_generate_typed_client
        from_struct_name
    generate_complete_implementation is_ident input_struct = do
      let names = from_struct_name input_struct.ident
      module_name ← format_ident is_ident names.method_name
      from_mqtt ← generate_from_mqtt_impl decimal context macro_args
      for_methods ← generate_subscription_for_bind_extension is_ident
      publisher ← generate_publisher_methods is_ident
      last_will ← generate_last_will_methods is_ident
      ok (record {
        input_struct = input_struct;
        module_name = module_name;
        constants = generate_constants;
        builder_serializer = macro_args.custom_serializer;
        from_mqtt = from_mqtt;
        subscribe = when macro_args.generate_subscriber (get_payload_type_token context);
        for_methods = for_methods;
        publisher = publisher;
        last_will = last_will;
        typed_client = when should_generate_typed_client names;
      })

  unfoldable pub generate_mqtt_code :
      {C : Type 0} → (Text → Bool) → MacroArgs C → DeriveInput → Result Implementation MacroFailure
  unfolding analyze generate_complete_implementation
  generate_mqtt_code is_ident macro_args input_struct =
      elim (analyze macro_args.pattern input_struct) [
        | err e ↦ err (syn_error e)
        | ok context ↦
            elim (generate_complete_implementation context macro_args is_ident input_struct) [
              | err e ↦ err (macro_panic e)
              | ok implementation ↦ ok implementation
            ]
      ]
