-- ===== src/Tests/Macros.antt =====
-- Runs of the macro, of the code that it emits and of the typed subscribers.
use mqtt_typed_client_next.Base.{
  ℕ, ◌-◌, Bool, true, false, none, some, List, [], ◌∷◌, map, Result, ok, err, ◌≡◌, refl,
}
use mqtt_typed_client_next.Base.Map
use mqtt_typed_client_next.Base.Text.{
  Text, codes, join, split, starts_with, ends_with, trim_end_matches, is_blank, contains,
}
use mqtt_typed_client_next.Topic.Item.{try_from, param_name}
use mqtt_typed_client_next.Topic.TopicMatch.{TopicMatch, new}
use mqtt_typed_client_next.Topic.PatternPath.{
  TopicPatternPath, new_from_string, validated, parse_segments, check_names,
  to_mqtt_subscription_pattern, is_named,
}
use mqtt_typed_client_next.Topic.PatternPath.Binding.{wildcards}
use mqtt_typed_client_next.Topic.PatternPath.Format.{format_topic}
use mqtt_typed_client_next.Topic.PatternPath.Format.RoundTrip.{shown}
use mqtt_typed_client_next.Topic.PatternPath.Matching.{try_match_internal}
use mqtt_typed_client_next.Topic.PatternPath.Validation.{Distinct}
use mqtt_typed_client_next.Macros.Syntax.{SynType, simple, Field, named, DeriveInput, Expr, lit_str}
use mqtt_typed_client_next.Macros.Analysis.{
  StructAnalysisContext, analyze, analyze_fields, analyze_field, extract_field_types,
  extract_struct_fields, named_params, build_topic_params, number_params, context_of,
}
use mqtt_typed_client_next.Macros.Analysis.Laws.{idents}
use mqtt_typed_client_next.Macros.Args.{MacroArgs, parse_macro_args}
use mqtt_typed_client_next.Macros.Codegen.Items.{PublisherMethods, generate_publisher_methods}
use mqtt_typed_client_next.Macros.Codegen.{
  get_publisher_param_name, Assignment, target, FromMqttImpl, generate_subscriber_field_assignments,
  generate_from_mqtt_impl,
}
use mqtt_typed_client_next.Macros.Codegen.Literal.{generate_subscriber_field_assignments-analyze}
use mqtt_typed_client_next.Macros.Generated.{from_mqtt_message}
use mqtt_typed_client_next.Topic.Item.{plus, str}
use mqtt_typed_client_next.Topic.PatternPath.Binding.{check_pattern_compatibility}
use mqtt_typed_client_next.Macros.Generated.Custom.{custom_topic}
use mqtt_typed_client_next.Macros.Generated.Custom.Received.{
  NoShadow, from_mqtt_message-custom_topic,
}
use mqtt_typed_client_next.Macros.Generated.Topic.{published_topic, names_of, NoClash}
use mqtt_typed_client_next.Macros.Generated.Received.{struct_of}
use mqtt_typed_client_next.Macros.RoundTrip.{from_mqtt_message-publish}
use mqtt_typed_client_next.Tests.{items, keep_all}

-- `struct Reading { id: u8, payload: Data }` with `#[mqtt_topic("a/{id}")]`.
abbrev args : List Expr
args = lit_str (codes "a/{id}") ∷ []

abbrev fields : List Field
fields =
    record { ident = codes "id"; ty = simple (codes "u8") }
    ∷ record { ident = codes "payload"; ty = simple (codes "Data") }
    ∷ []

abbrev input : DeriveInput
input = record { ident = codes "Reading"; fields = named fields }

abbrev pattern : TopicPatternPath (ℕ × List (Text × TopicMatch))
pattern = record {
  template_pattern = codes "a/{id}";
  mqtt_topic_subscription = codes "a/+";
  segments = items;
  match_cache = none;
  parameter_bindings = none;
}

abbrev ma : MacroArgs (ℕ × List (Text × TopicMatch))
ma = record {
  pattern = pattern;
  generate_subscriber = true;
  generate_publisher = true;
  generate_typed_client = true;
  generate_last_will = true;
  custom_serializer = none;
}

abbrev context : StructAnalysisContext
context = record {
  payload_type = some (simple (codes "Data"));
  has_topic_field = false;
  topic_field_owned = false;
  has_meta_field = false;
  meta_field_owned = false;
  topic_params =
      record {
        name = some (codes "id");
        wildcard_index = 0;
        struct_field_type = some (simple (codes "u8"));
      }
      ∷ [];
}

args_run : parse_macro_args keep_all args ≡ ok ma
unfolding parse_macro_args new_from_string validated is_blank parse_segments split try_from
    starts_with contains ends_with trim_end_matches check_names param_name
    to_mqtt_subscription_pattern
args_run = refl

valid_run : validated (codes "a/{id}") ≡ ok items
unfolding validated parse_segments try_from check_names split is_blank param_name starts_with
    ends_with trim_end_matches contains
valid_run = refl

analyze_run : analyze pattern input ≡ ok context
unfolding analyze analyze_fields analyze_field context_of named_params wildcards build_topic_params
    number_params extract_field_types Map.insert Map.lookup param_name extract_struct_fields
analyze_run = refl

-- A type of one digit.
abbrev parse_digit : SynType → Text → Result ℕ Text
parse_digit ty (c ∷ []) = ok (c - 48)
parse_digit ty t = err t

abbrev no_decimal : ℕ → Text
no_decimal i = []

-- A text that is not empty.
abbrev filled : Text → Bool
filled [] = false
filled (c ∷ t) = true

abbrev publisher : PublisherMethods
publisher = record {
  method_params = (codes "id", simple (codes "u8")) ∷ [];
  format_string = codes "a/{}";
  format_args = codes "id" ∷ [];
  payload_type = simple (codes "Data");
  serializer = none;
}

publisher_run : generate_publisher_methods no_decimal context ma filled ≡ ok (some publisher)
unfolding generate_publisher_methods join
publisher_run = refl

distinct_names : NoClash no_decimal context.topic_params
unfolding get_publisher_param_name
distinct_names = ((tt, tt), (refl, tt))

no_locals : NoShadow (names_of no_decimal context.topic_params)
unfolding get_publisher_param_name
no_locals = (refl, tt)

from_mqtt_message-publish_example :
    (topic : Text) × (m : TopicMatch) × (code : FromMqttImpl) × (published_topic publisher
        (codes "7" ∷ [])
      ≡ some topic)
    × (format_topic pattern (shown (codes "7" ∷ [])) ≡ ok topic)
    × (try_match_internal pattern (new topic) ≡ ok m)
    × (generate_from_mqtt_impl no_decimal context ma ≡ ok (some code))
    × (from_mqtt_message {D = ℕ} {T = ℕ} {DE = Text} parse_digit code m 1 2
        ≡ ok (
            some
              (struct_of (extract_field_types [] fields) (wildcards items) context (7 ∷ []) m 1 2)))
unfolding contains
from_mqtt_message-publish_example =
    from_mqtt_message-publish keep_all {D = ℕ} {T = ℕ} {DE = Text} no_decimal filled parse_digit
      args ma input fields context publisher (codes "7" ∷ []) (7 ∷ []) 1 2 args_run
      (unfold extract_struct_fields in refl) analyze_run publisher_run refl distinct_names
      ((refl, tt), (tt, tt)) (refl, tt)
      (unfold extract_field_types wildcards param_name in (λ ty e. refl, tt))

generate_subscriber_field_assignments-analyze_example :
    (fields : List Field) × (assignments : List Assignment) × (extract_struct_fields input
      ≡ ok fields)
    × (generate_subscriber_field_assignments context ≡ ok assignments)
    × Distinct (map target assignments)
    × ((n : Text) → is_named n (map target assignments) ≡ is_named n (idents fields))
generate_subscriber_field_assignments-analyze_example =
    generate_subscriber_field_assignments-analyze pattern (codes "a/{id}") input context valid_run
      analyze_run

-- `b/{id}`.
abbrev custom : TopicPatternPath (ℕ × List (Text × TopicMatch))
custom = record pattern {
  template_pattern = codes "b/{id}";
  mqtt_topic_subscription = codes "b/+";
  segments = str (codes "b") ∷ plus (some (codes "id")) ∷ [];
}

custom_run : validated (codes "b/{id}") ≡ ok custom.segments
unfolding validated parse_segments try_from check_names split is_blank param_name starts_with
    ends_with trim_end_matches contains
custom_run = refl

from_mqtt_message-custom_topic_example :
    (topic : Text) × (m : TopicMatch) × (code : FromMqttImpl) × (custom_topic pattern
        (ok custom)
        publisher.method_params
        publisher.format_args
        (codes "7" ∷ [])
      ≡ some (ok topic))
    × (try_match_internal custom (new topic) ≡ ok m)
    × (generate_from_mqtt_impl no_decimal context ma ≡ ok (some code))
    × (from_mqtt_message {D = ℕ} {T = ℕ} {DE = Text} parse_digit code m 1 2
        ≡ ok (
            some
              (struct_of (extract_field_types [] fields) (wildcards items) context (7 ∷ []) m 1 2)))
unfolding contains
from_mqtt_message-custom_topic_example =
    from_mqtt_message-custom_topic {D = ℕ} {T = ℕ} {DE = Text} no_decimal filled parse_digit ma
      input fields context publisher (codes "a/{id}") (codes "b/{id}") custom (codes "7" ∷ [])
      (7 ∷ []) 1 2 valid_run custom_run (unfold extract_struct_fields in refl) analyze_run
      publisher_run refl distinct_names no_locals (refl, (refl, tt))
      (unfold check_pattern_compatibility wildcards in refl) (refl, tt)
      (unfold extract_field_types wildcards param_name in (λ ty e. refl, tt))
