-- ===== src/Macros/Generated/Custom.antt =====
-- The emitted `get_publisher_to` and `last_will_to`: a topic for a pattern of the caller's, and the
-- struct that is read from it.
pub mod Received
use mqtt_typed_client_next.Base.{
  Option, none, some, List, ◌∷◌, Result, ok, err, ◌>>=◌, map_err, Failure, if◌then◌else◌,
}
use mqtt_typed_client_next.Base.Text.{Text, codes}
use mqtt_typed_client_next.Topic.Item.{TopicPatternError}
use mqtt_typed_client_next.Topic.Matcher.{TopicMatcherError}
use mqtt_typed_client_next.Topic.Router.{TopicRouterError}
use mqtt_typed_client_next.Topic.PatternPath.{TopicPatternPath, TopicFormatError}
use mqtt_typed_client_next.Topic.PatternPath.Access.{topic_pattern}
use mqtt_typed_client_next.Topic.PatternPath.Binding.{check_pattern_compatibility}
use mqtt_typed_client_next.Topic.PatternPath.Format.{format_topic}
use mqtt_typed_client_next.Topic.PatternPath.Format.RoundTrip.{shown}
use mqtt_typed_client_next.Macros.Syntax.{SynType}
use mqtt_typed_client_next.Macros.Generated.{call, look_up, compiles}

-- mqtt-topic-engine/src/error.rs.
pub data TopicError : Type 0 where
  pattern : TopicPatternError → TopicError
  format : Failure TopicFormatError → TopicError
  matcher : TopicMatcherError → TopicError
  router : TopicRouterError → TopicError

-- The custom pattern is the outcome of the caller's conversion.
abbrev pub validated_custom :
    {C : Type 0}
    → TopicPatternPath C
    → Result (TopicPatternPath C) TopicPatternError
    → Result (TopicPatternPath C) TopicError
validated_custom default_pattern custom_pattern = do
  custom ← map_err pattern custom_pattern
  map_err pattern (check_pattern_compatibility default_pattern custom)

-- The locals that the emitted body declares hide the parameters of their names. A pattern is
-- displayed as its template.
abbrev pub shadowed :
    {C : Type 0} → TopicPatternPath C → TopicPatternPath C → List (Text × Text) → List (Text × Text)
shadowed default_pattern validated_pattern env =
    (codes "validated_pattern", topic_pattern validated_pattern)
    ∷ (codes "default_pattern", topic_pattern default_pattern)
    ∷ env

abbrev pub formatted :
    {C : Type 0} → TopicPatternPath C → Option (List Text) → Option (Result Text TopicError)
formatted validated_pattern none = none
formatted validated_pattern (some args) =
    some (map_err format (format_topic validated_pattern (shown args)))

abbrev pub custom_body :
    {C : Type 0}
    → TopicPatternPath C
    → Result (TopicPatternPath C) TopicError
    → List (Text × Text)
    → List Text
    → Option (Result Text TopicError)
custom_body default_pattern (err e) env format_args = some (err e)
custom_body default_pattern (ok validated_pattern) env format_args =
    formatted validated_pattern
      (look_up (shadowed default_pattern validated_pattern env) format_args)

-- The topic in a function with the given parameters, which a caller has given the displayed values.
unfoldable pub custom_topic :
    {C : Type 0}
    → TopicPatternPath C
    → Result (TopicPatternPath C) TopicPatternError
    → List (Text × SynType)
    → List Text
    → List Text
    → Option (Result Text TopicError)
unfolding check_pattern_compatibility format_topic
custom_topic default_pattern custom_pattern method_params format_args values =
    if compiles method_params
    then (elim (call method_params values) [
      | none ↦ none
      | some env ↦
          custom_body default_pattern (validated_custom default_pattern custom_pattern) env
            format_args
    ])
    else none
