-- ===== src/Macros/RoundTrip.antt =====
-- From the generated publisher to the generated subscriber, for the code that `mqtt_topic` emits.
use mqtt_typed_client_next.Base.{
  ℕ, Bool, true, false, some, List, [], ◌∷◌, length, ◌≡◌, ap, sym, ◌∙◌, All, Result, ok,
  ok-injective, inl, inr, Bool-cases,
}
use mathlib.Core.Path.{subst}
use mqtt_typed_client_next.Base.Text.{Text}
use mqtt_typed_client_next.Base.Text.Split.{NoSlash}
use mqtt_typed_client_next.Topic.Item.{TopicPatternItem}
use mqtt_typed_client_next.Topic.Cache.{LruCache}
use mqtt_typed_client_next.Topic.TopicMatch.{TopicMatch, new}
use mqtt_typed_client_next.Topic.PatternPath.{TopicPatternPath, is_hash, validated}
use mqtt_typed_client_next.Topic.PatternPath.Access.{contains_hash, last_is_hash}
use mqtt_typed_client_next.Topic.PatternPath.Binding.{wildcards}
use mqtt_typed_client_next.Topic.PatternPath.Format.{format_topic, wildcard_count}
use mqtt_typed_client_next.Topic.PatternPath.Format.RoundTrip.{
  NoHash, shown, match-format, format_topic-filled,
}
use mqtt_typed_client_next.Topic.PatternPath.Matching.{try_match_internal}
use mqtt_typed_client_next.Topic.PatternPath.Matching.Decides.{HashIsLast}
use mqtt_typed_client_next.Topic.PatternPath.Validation.{validated-IsValidPattern, IsValidPattern}
use mqtt_typed_client_next.Macros.Syntax.{SynType, Field, Expr, DeriveInput}
use mqtt_typed_client_next.Macros.Analysis.{
  StructAnalysisContext, analyze, extract_field_types, extract_struct_fields,
}
use mqtt_typed_client_next.Macros.Analysis.Laws.{IsAnalysed, analyze-IsAnalysed}
use mqtt_typed_client_next.Macros.Analysis.Params.{length-build_topic_params, length-wildcards}
use mqtt_typed_client_next.Macros.Args.{MacroArgs, parse_macro_args}
use mqtt_typed_client_next.Macros.Args.Laws.{parse_macro_args-IsAccepted}
use mqtt_typed_client_next.Macros.Codegen.{FromMqttImpl, generate_from_mqtt_impl}
use mqtt_typed_client_next.Macros.Codegen.Items.{PublisherMethods, generate_publisher_methods}
use mqtt_typed_client_next.Macros.Codegen.Literal.{named_params-Distinct}
use mqtt_typed_client_next.Macros.Generated.{from_mqtt_message}
use mqtt_typed_client_next.Macros.Generated.Format.{LiteralNoBrace}
use mqtt_typed_client_next.Macros.Generated.Struct.{AllParse}
use mqtt_typed_client_next.Macros.Generated.Received.{
  struct_of, from_mqtt_message-generate, AllParse-length, AllParse-texts,
}
use mqtt_typed_client_next.Macros.Generated.Topic.{
  published_topic, published_topic-join, NoClash, IsPublisher, generate_publisher_methods-ok,
}

-- A `#` can only be the last segment, and is not.
pub NoHash-last_is_hash :
    (items : List TopicPatternItem) → HashIsLast items → last_is_hash items ≡ false → NoHash items
NoHash-last_is_hash [] h e = tt
NoHash-last_is_hash (item ∷ []) h e = (e, tt)
NoHash-last_is_hash (item ∷ next ∷ items) (only, h) e = elim (Bool-cases (is_hash item)) [
  | inl hash ↦ absurd (cc (only hash))
  | inr other ↦ (other, NoHash-last_is_hash (next ∷ items) h e)
]

pub params_count :
    {C : Type 0} (ma : MacroArgs C) (fields : List Field) (context : StructAnalysisContext)
    → IsAnalysed ma.pattern fields context
    → length context.topic_params ≡ wildcard_count ma.pattern.segments
params_count ma fields context sound =
    ap length sound.params ∙ length-build_topic_params ma.pattern (extract_field_types [] fields)

module _ {C : Type 0} (decimal : ℕ → Text) (ma : MacroArgs C) (fields : List Field)
    (context : StructAnalysisContext) (text : Text) (sound : IsAnalysed ma.pattern fields context)
    (valid : validated text ≡ ok ma.pattern.segments) (closed : contains_hash ma.pattern ≡ false)
    {V : Type 0} (texts : List Text) (vs : List V) (publisher : PublisherMethods) where
  abbrev p : TopicPatternPath C
  p = ma.pattern

  shape : IsValidPattern text p.segments
  shape = validated-IsValidPattern text p.segments valid

  no_hash : NoHash p.segments
  no_hash = NoHash-last_is_hash p.segments shape.hash_last closed

  -- A generated topic is matched, and the generated function reads the values from the match.
  module _ {PE : Type 0} (parse : SynType → Text → Result V PE)
      (parses : AllParse parse
        (extract_field_types [] fields)
        (wildcards p.segments)
        texts
        vs) where
    count : length texts ≡ wildcard_count p.segments
    count =
        AllParse-texts parse (extract_field_types [] fields) (wildcards p.segments) texts vs parses
        ∙ length-wildcards p.segments

    round_trip :
        {D T DE : Type 0} (meta : D) (payload : T)
        → IsPublisher decimal context ma publisher
        → NoClash decimal context.topic_params
        → All LiteralNoBrace p.segments
        → All NoSlash texts
        → ma.generate_subscriber ≡ true
        → (topic : Text) × (m : TopicMatch) × (code : FromMqttImpl) × (published_topic publisher
              texts
            ≡ some topic)
          × (format_topic p (shown texts) ≡ ok topic)
          × (try_match_internal p (new topic) ≡ ok m)
          × (generate_from_mqtt_impl decimal context ma ≡ ok (some code))
          × (from_mqtt_message {DE = DE} parse code m meta payload
              ≡ ok (
                  some (
                    struct_of
                      (extract_field_types [] fields)
                      (wildcards p.segments)
                      context
                      vs
                      m
                      meta
                      payload)))
    round_trip {DE} meta payload is distinct no_brace slashes subscriber =
        let (topic, m, formatted, matched, read) =
          match-format p texts shape.filled no_hash shape.literals count slashes in
        let same =
          ok-injective (sym (format_topic-filled p texts shape.filled no_hash count) ∙ formatted) in
        let written =
          published_topic-join decimal context ma publisher texts is distinct
            (params_count ma fields context sound)
            (count ∙ sym (params_count ma fields context sound)) no_hash no_brace in
        let (code, generated, received) =
          from_mqtt_message-generate ma fields context sound (named_params-Distinct p text valid) m
            meta payload vs
            (AllParse-length parse (extract_field_types [] fields) (wildcards p.segments) texts vs
              parses)
            {DE = DE} decimal parse texts subscriber read parses in
        (topic, m, code, written ∙ ap some same, formatted, matched, generated, received)

module _ (cache : LruCache Text TopicMatch) where
  open cache use {Cache}

  -- Let `mqtt_topic` accept its arguments and a struct, and generate a publisher and a subscriber;
  -- let the parameters of the publisher have different names, none of them a keyword of Rust, or
  -- `client`, `custom_pattern`, `data` or `payload`, which other parameters have; let no literal of the pattern
  -- have a brace, and no value given for a parameter a slash. Let each value whose wildcard has a field parse as the
  -- type of the field. Then the generated publisher formats a topic, the one of `format_topic`; the
  -- pattern matches it; and from that match and any metadata and payload the generated
  -- `from_mqtt_message` builds the struct with the parsed values in the fields of their wildcards,
  -- and the payload, the match and the metadata in the reserved fields that the struct has.
  pub from_mqtt_message-publish :
      {D T V PE DE : Type 0} (decimal : ℕ → Text) (is_ident : Text → Bool)
      (parse : SynType → Text → Result V PE) (args : List Expr) (ma : MacroArgs Cache)
      (input : DeriveInput) (fields : List Field) (context : StructAnalysisContext)
      (publisher : PublisherMethods) (texts : List Text) (vs : List V) (meta : D) (payload : T)
      → parse_macro_args cache args ≡ ok ma
      → extract_struct_fields input ≡ ok fields
      → analyze ma.pattern input ≡ ok context
      → generate_publisher_methods decimal context ma is_ident ≡ ok (some publisher)
      → ma.generate_subscriber ≡ true
      → NoClash decimal context.topic_params
      → All LiteralNoBrace ma.pattern.segments
      → All NoSlash texts
      → AllParse parse (extract_field_types [] fields) (wildcards ma.pattern.segments) texts vs
      → (topic : Text) × (m : TopicMatch) × (code : FromMqttImpl) × (published_topic publisher texts
          ≡ some topic)
        × (format_topic ma.pattern (shown texts) ≡ ok topic)
        × (try_match_internal ma.pattern (new topic) ≡ ok m)
        × (generate_from_mqtt_impl decimal context ma ≡ ok (some code))
        × (from_mqtt_message {DE = DE} parse code m meta payload
            ≡ ok (
                some (
                  struct_of
                    (extract_field_types [] fields)
                    (wildcards ma.pattern.segments)
                    context
                    vs
                    m
                    meta
                    payload)))
  from_mqtt_message-publish {DE} decimal is_ident parse args ma input fields context publisher texts
        vs meta payload parsed extracted analysed generated subscriber distinct no_brace slashes
        parses =
      let (text, rest, _, accepted) = parse_macro_args-IsAccepted cache args ma parsed in
      let (fields', extracted', sound') = analyze-IsAnalysed ma.pattern input context analysed in
      let sound : IsAnalysed ma.pattern fields context =
        subst (λ fs. IsAnalysed ma.pattern fs context) (ok-injective (sym extracted' ∙ extracted))
          sound' in
      let is =
        generate_publisher_methods-ok decimal context ma is_ident publisher
          (params_count ma fields context sound) generated in
      round_trip decimal ma fields context text sound accepted.valid (accepted.no_hash is.wanted)
        texts vs publisher parse parses {DE = DE} meta payload is distinct no_brace slashes
        subscriber
