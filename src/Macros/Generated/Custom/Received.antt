-- ===== src/Macros/Generated/Custom/Received.antt =====
-- What is published for a pattern of the caller's is read by the subscriber of that pattern.
use mqtt_typed_client_next.Base.{
  ℕ, ◌≢◌, arith, false, Bool, map_err, true, some, List, [], ◌∷◌, length, Result, ok, ◌≡◌, refl,
  sym, ap, ◌∙◌, All, ok-injective,
}
use mathlib.Core.Path.{subst}
use mqtt_typed_client_next.Base.Text.{Text, codes, text_Eq, text_eq_iff}
use mqtt_typed_client_next.Base.Text.Split.{NoSlash}
use mqtt_typed_client_next.Topic.TopicMatch.{TopicMatch, new}
use mqtt_typed_client_next.Topic.PatternPath.{TopicPatternPath, validated, is_named}
use mqtt_typed_client_next.Topic.PatternPath.Binding.{check_pattern_compatibility, wildcards}
use mqtt_typed_client_next.Topic.PatternPath.Binding.Compatibility.{check_pattern_compatibility_lem}
use mqtt_typed_client_next.Topic.PatternPath.Format.{format_topic, wildcard_count}
use mqtt_typed_client_next.Topic.PatternPath.Format.RoundTrip.{shown, match-format}
use mqtt_typed_client_next.Topic.PatternPath.Matching.{try_match_internal}
use mqtt_typed_client_next.Topic.PatternPath.Validation.{validated-IsValidPattern}
use mqtt_typed_client_next.Macros.Syntax.{SynType, Field, DeriveInput}
use mqtt_typed_client_next.Macros.Analysis.{
  TopicParam, StructAnalysisContext, analyze, extract_field_types, extract_struct_fields,
}
use mqtt_typed_client_next.Macros.Analysis.Laws.{IsAnalysed, analyze-IsAnalysed}
use mqtt_typed_client_next.Macros.Analysis.Params.{length-wildcards}
use mqtt_typed_client_next.Macros.Args.{MacroArgs}
use mqtt_typed_client_next.Macros.Codegen.{FromMqttImpl, generate_from_mqtt_impl}
use mqtt_typed_client_next.Macros.Codegen.Literal.{named_params-Distinct}
use mqtt_typed_client_next.Macros.Generated.{from_mqtt_message, look_up}
use mqtt_typed_client_next.Macros.Generated.Struct.{AllParse}
use mqtt_typed_client_next.Macros.Generated.Received.{
  struct_of, from_mqtt_message-generate, AllParse-length, AllParse-texts,
}
use mqtt_typed_client_next.Topic.PatternPath.Format.RoundTrip.{NoHash}
use mqtt_typed_client_next.Topic.Item.{TopicPatternItem, str, plus, hash, is_wildcard}
use mqtt_typed_client_next.Macros.Generated.Custom.{
  custom_topic, shadowed, validated_custom, custom_body, formatted, format,
}
use mqtt_typed_client_next.Macros.Generated.Topic.{
  names_of, typed_params, call-look_up, look_up-other, NoClash, NoClash-compiles,
  generate_publisher_methods-ok,
}
use mqtt_typed_client_next.Macros.RoundTrip.{params_count}
use mqtt_typed_client_next.Macros.Codegen.Items.{PublisherMethods, generate_publisher_methods}
use mqtt_typed_client_next.Topic.PatternPath.Access.{topic_pattern}

abbrev pub local_names : List Text
local_names = codes "validated_pattern" ∷ codes "default_pattern" ∷ []

-- No parameter of the pattern has the name of a local that the emitted body declares.
abbrev pub NoShadow : List Text → Type 0
NoShadow = All (λ n. is_named n local_names ≡ false)

not_local :
    (names : List Text)
    → NoShadow names
    → All (λ m. m ≢ codes "validated_pattern") names × All (λ m. m ≢ codes "default_pattern") names
not_local [] h = (tt, tt)
not_local (n ∷ names) (h, hs) =
    let (one, two) = not_local names hs in
    (
      ((λ e. ground (arith, text_eq_iff (codes "validated_pattern") n)), one),
      ((λ e. ground (arith, text_eq_iff (codes "default_pattern") n)), two),
    )

module _ {C : Type 0} (p custom : TopicPatternPath C) where
  compatible :
      wildcards p.segments ≡ wildcards custom.segments
      → check_pattern_compatibility p custom ≡ ok custom
  compatible e = (check_pattern_compatibility_lem p custom).1 e

  custom_body-ok :
      (env : List (Text × Text)) (names texts : List Text) {topic : Text}
      → look_up (shadowed p custom env) names ≡ some texts
      → format_topic custom (shown texts) ≡ ok topic
      → custom_body p (ok custom) env names ≡ some (ok topic)
  custom_body-ok env names texts seen written =
      ap (λ args. formatted custom args) seen ∙ ap (λ r. some (map_err format r)) written

  custom_topic-ok :
      (decimal : ℕ → Text) (params : List TopicParam) (texts : List Text) {topic : Text}
      → NoClash decimal params
      → NoShadow (names_of decimal params)
      → length texts ≡ length params
      → wildcards p.segments ≡ wildcards custom.segments
      → format_topic custom (shown texts) ≡ ok topic
      → custom_topic p (ok custom) (typed_params decimal params) (names_of decimal params) texts
        ≡ some (ok topic)
  unfolding custom_topic
  custom_topic-ok decimal params texts d local count e written =
      let (one, two) = not_local (names_of decimal params) local in
      let names = names_of decimal params in
      let (env, called, found) = call-look_up decimal params texts d.0 count in
      let behind = (codes "default_pattern", topic_pattern p) ∷ env in
      let seen : look_up (shadowed p custom env) names ≡ some texts =
        look_up-other (codes "validated_pattern") (topic_pattern custom) behind names one
        ∙ look_up-other (codes "default_pattern") (topic_pattern p) env names two
        ∙ found in
      let valid : validated_custom p (ok custom) ≡ ok custom = rw (compatible e) refl in
      rw (custom_topic, NoClash-compiles decimal params d, called)
        (ap (λ v. custom_body p v env names) valid ∙ custom_body-ok env names texts seen written)

-- Only wildcards can be `#`.
NoHash-of_wildcards : (items : List TopicPatternItem) → NoHash (wildcards items) → NoHash items
unfolding wildcards is_wildcard
NoHash-of_wildcards [] h = tt
NoHash-of_wildcards (str s ∷ items) h = (refl, NoHash-of_wildcards items h)
NoHash-of_wildcards (plus n ∷ items) (h, hs) = (h, NoHash-of_wildcards items hs)
NoHash-of_wildcards (hash n ∷ items) (h, hs) = (h, NoHash-of_wildcards items hs)

NoHash-wildcards : (items : List TopicPatternItem) → NoHash items → NoHash (wildcards items)
unfolding wildcards is_wildcard
NoHash-wildcards [] h = tt
NoHash-wildcards (str s ∷ items) (h, hs) = NoHash-wildcards items hs
NoHash-wildcards (plus n ∷ items) (h, hs) = (h, NoHash-wildcards items hs)
NoHash-wildcards (hash n ∷ items) (h, hs) = (h, NoHash-wildcards items hs)

-- Let the macro accept a struct with a pattern without `#`, and generate its publisher and its
-- subscriber, with parameters of different names, none of them a keyword of Rust or the name of
-- another parameter or of a local of the emitted functions (`client`, `custom_pattern`, `data`,
-- `payload`, `default_pattern`, `validated_pattern`). Let the caller give another valid pattern, which the check of compatibility
-- accepts, and values without a slash, as many as there are wildcards, each of which parses as the
-- type of its field where there is one. Then `get_publisher_to` forms a topic; the caller's pattern
-- matches it; and from that match, and any metadata and payload, the generated `from_mqtt_message`
-- builds the struct with the parsed values in the fields of their wildcards.
pub from_mqtt_message-custom_topic :
    {C D T V PE DE : Type 0} (decimal : ℕ → Text) (is_ident : Text → Bool)
    (parse : SynType → Text → Result V PE) (ma : MacroArgs C) (input : DeriveInput)
    (fields : List Field) (context : StructAnalysisContext) (publisher : PublisherMethods)
    (text custom_text : Text) (custom : TopicPatternPath C) (texts : List Text) (vs : List V)
    (meta : D) (payload : T)
    → validated text ≡ ok ma.pattern.segments
    → validated custom_text ≡ ok custom.segments
    → extract_struct_fields input ≡ ok fields
    → analyze ma.pattern input ≡ ok context
    → generate_publisher_methods decimal context ma is_ident ≡ ok (some publisher)
    → ma.generate_subscriber ≡ true
    → NoClash decimal context.topic_params
    → NoShadow (names_of decimal context.topic_params)
    → NoHash ma.pattern.segments
    → check_pattern_compatibility ma.pattern custom ≡ ok custom
    → All NoSlash texts
    → AllParse parse (extract_field_types [] fields) (wildcards ma.pattern.segments) texts vs
    → (topic : Text) × (m : TopicMatch) × (code : FromMqttImpl) × (custom_topic ma.pattern
          (ok custom)
          publisher.method_params
          publisher.format_args
          texts
        ≡ some (ok topic))
      × (try_match_internal custom (new topic) ≡ ok m)
      × (generate_from_mqtt_impl decimal context ma ≡ ok (some code))
      × (from_mqtt_message {DE = DE} parse code m meta payload
          ≡ ok (
              some (
                struct_of
                  (extract_field_types [] fields)
                  (wildcards ma.pattern.segments)
                  context
                  vs
                  m
                  meta
                  payload)))
from_mqtt_message-custom_topic {DE} decimal is_ident parse ma input fields context publisher text
      custom_text custom texts vs meta payload valid custom_valid extracted analysed published
      subscriber distinct local no_hash compat slashes parses =
    let p = ma.pattern in
    let types = extract_field_types [] fields in
    let same = (check_pattern_compatibility_lem p custom).0 compat in
    let shape = validated-IsValidPattern custom_text custom.segments custom_valid in
    let closed : NoHash custom.segments =
      NoHash-of_wildcards custom.segments
        (subst NoHash same (NoHash-wildcards p.segments no_hash)) in
    let count : length texts ≡ wildcard_count custom.segments =
      AllParse-texts parse types (wildcards p.segments) texts vs parses
      ∙ ap length same
      ∙ length-wildcards custom.segments in
    let (topic, m, written, matched, read) =
      match-format custom texts shape.filled closed shape.literals count slashes in
    let (fields', extracted', sound') = analyze-IsAnalysed p input context analysed in
    let sound : IsAnalysed p fields context =
      subst (λ fs. IsAnalysed p fs context) (ok-injective (sym extracted' ∙ extracted)) sound' in
    let (code, generated, received) =
      from_mqtt_message-generate ma fields context sound (named_params-Distinct p text valid) m meta
        payload vs (AllParse-length parse types (wildcards p.segments) texts vs parses) {DE = DE}
        decimal parse texts subscriber read parses in
    let wild = params_count ma fields context sound in
    let is = generate_publisher_methods-ok decimal context ma is_ident publisher wild published in
    let values : length texts ≡ length context.topic_params =
      AllParse-texts parse types (wildcards p.segments) texts vs parses
      ∙ length-wildcards p.segments
      ∙ sym wild in
    (
      topic,
      m,
      code,
      rw (is.params, is.args)
          (custom_topic-ok p custom decimal context.topic_params texts distinct local values same
            written),
      matched,
      generated,
      received,
    )
