-- ===== src/Macros/Generated/Topic.antt =====
-- The topic of a generated publisher: the call with its named parameters, and `format!` in it.
use mqtt_typed_client_next.Base.{
  ℕ, Bool, true, false, ok, >>=-eq-ok, ok-injective, sym, ap, Bool-cases, inl, inr, some, Option,
  List, [], ◌∷◌, map, length, ◌≡◌, refl, arith, ◌∙◌, All, ◌≢◌,
}
use mathlib.Core.Option.{some-injective}
use mqtt_typed_client_next.Base.Map
use mqtt_typed_client_next.Topic.PatternPath.{is_named}
use mqtt_typed_client_next.Base.Text.{Text, text_Eq, text_eq, text_eq_iff, join}
use mqtt_typed_client_next.Topic.PatternPath.Format.{wildcard_count}
use mqtt_typed_client_next.Topic.PatternPath.Format.RoundTrip.{filled, NoHash}
use mqtt_typed_client_next.Topic.PatternPath.Validation.{Distinct}
use mqtt_typed_client_next.Macros.Syntax.{SynType}
use mqtt_typed_client_next.Macros.Analysis.{TopicParam, StructAnalysisContext}
use mqtt_typed_client_next.Macros.Args.{MacroArgs}
use mqtt_typed_client_next.Macros.Codegen.{
  get_publisher_param_name, get_publisher_param_type, get_publisher_method_params,
  get_topic_format_and_args, topic_format,
}
use mqtt_typed_client_next.Macros.Codegen.Items.{PublisherMethods, generate_publisher_methods}
use mqtt_typed_client_next.Macros.Generated.{
  call, look_up, generated_topic, run_format, compiles, no_clash, reserved, none_reserved,
}
use mqtt_typed_client_next.Macros.Generated.Format.{
  LiteralNoBrace, format_part, run_format-join, topic_format-ok,
}

-- A binding of another name is not seen.
pub look_up-other :
    (name v : Text) (env : List (Text × Text)) (names : List Text)
    → All (λ m. m ≢ name) names
    → look_up ((name, v) ∷ env) names ≡ look_up env names
unfolding Map.lookup
look_up-other name v env [] h = refl
look_up-other name v env (m ∷ names) (h, hs) =
    let rest = look_up-other name v env names hs in ground (arith, text_eq_iff name m)

look_up-same :
    (name v : Text) (env : List (Text × Text)) (names : List Text) {vs : List Text}
    → All (λ m. m ≢ name) names
    → look_up env names ≡ some vs
    → look_up ((name, v) ∷ env) (name ∷ names) ≡ some (v ∷ vs)
unfolding Map.lookup
look_up-same name v env names h found =
    rw
      (look_up, Map.lookup, (text_eq_iff name name).1 refl, look_up-other name v env names h, found)
      refl

generated_topic_lem :
    (method_params : List (Text × SynType)) (format_string : Text) (format_args : List Text)
    (values args : List Text) {env : List (Text × Text)}
    → compiles method_params ≡ true
    → call method_params values ≡ some env
    → look_up env format_args ≡ some args
    → generated_topic method_params format_string format_args values ≡ run_format format_string args
unfolding generated_topic
generated_topic_lem method_params format_string format_args values args fits called found =
    rw (generated_topic, fits, called, found) refl

not_named : (n : Text) (ns : List Text) → All (λ m. m ≢ n) ns → is_named n ns ≡ false
not_named n [] h = refl
not_named n (m ∷ ns) (h, hs) = elim (Bool-cases (text_eq m n)) [
  | inl same ↦ absurd (h ((text_eq_iff m n).0 same))
  | inr other ↦ rw other (not_named n ns hs)
]

Distinct-no_clash : (ns : List Text) → Distinct ns → no_clash ns ≡ true
Distinct-no_clash [] d = refl
Distinct-no_clash (n ∷ ns) (new, d) = rw (not_named n ns new) (Distinct-no_clash ns d)

-- The topic that `get_publisher` of the generated code formats.
abbrev pub published_topic : PublisherMethods → List Text → Option Text
published_topic code values =
    generated_topic code.method_params code.format_string code.format_args values

abbrev pub NoneReserved : List Text → Type 0
NoneReserved = All (λ n. is_named n reserved ≡ false)

NoneReserved-none_reserved : (ns : List Text) → NoneReserved ns → none_reserved ns ≡ true
NoneReserved-none_reserved [] h = refl
NoneReserved-none_reserved (n ∷ ns) (h, hs) = rw h (NoneReserved-none_reserved ns hs)

module _ (decimal : ℕ → Text) where
  abbrev pub names_of : List TopicParam → List Text
  names_of params = map (get_publisher_param_name decimal) params

  -- The parameters of a generated publisher, where their names are identifiers.
  abbrev pub typed_params : List TopicParam → List (Text × SynType)
  typed_params params =
      map (λ p. (get_publisher_param_name decimal p, get_publisher_param_type p)) params

  get_publisher_method_params-ok :
      (is_ident : Text → Bool) (params : List TopicParam) (r : List (Text × SynType))
      → get_publisher_method_params decimal is_ident params ≡ ok r
      → r ≡ typed_params params
  unfolding get_publisher_method_params
  get_publisher_method_params-ok is_ident [] r h = sym (ok-injective h)
  get_publisher_method_params-ok is_ident (p ∷ params) r h =
      elim (Bool-cases (is_ident (get_publisher_param_name decimal p))) [
        | inl fits ↦
            let (others, e, h') =
              >>=-eq-ok (get_publisher_method_params decimal is_ident params) _
                (rw (fits, get_publisher_method_params) at h) in
            sym (ok-injective h')
            ∙ ap
                (λ (t : List (Text × SynType)).
                  (get_publisher_param_name decimal p, get_publisher_param_type p) ∷ t)
                (get_publisher_method_params-ok is_ident params others e)
        | inr other ↦ absurd (cc (rw (other, get_publisher_method_params) at h))
      ]

  typed_params-names :
      (params : List TopicParam) → map (λ p. p.0) (typed_params params) ≡ names_of params
  typed_params-names [] = refl
  typed_params-names (p ∷ params) =
      ap (λ (t : List Text). get_publisher_param_name decimal p ∷ t) (typed_params-names params)

  -- Where no two parameters have the same name, each argument is the value given for it.
  pub call-look_up :
      (params : List TopicParam) (values : List Text)
      → Distinct (names_of params)
      → length values ≡ length params
      → (env : List (Text × Text)) × (call (typed_params params) values ≡ some env)
        × (look_up env (names_of params) ≡ some values)
  unfolding Map.lookup
  call-look_up [] [] d n = ([], refl, refl)
  call-look_up [] (v ∷ values) d n = absurd (omega arith)
  call-look_up (p ∷ params) [] d n = absurd (omega arith)
  call-look_up (p ∷ params) (v ∷ values) (new, d) n =
      let (env, called, found) = call-look_up params values d (omega arith) in
      let name = get_publisher_param_name decimal p in
      ((name, v) ∷ env, rw called refl, look_up-same name v env (names_of params) new found)

  -- No parameter of the pattern has the name of another one, or of a parameter beside them, or that
  -- of a keyword.
  abbrev pub NoClash : List TopicParam → Type 0
  NoClash params = Distinct (names_of params) × NoneReserved (names_of params)

  pub NoClash-compiles :
      (params : List TopicParam) → NoClash params → compiles (typed_params params) ≡ true
  NoClash-compiles params (distinct, free) =
      rw
        (
          typed_params-names params,
          Distinct-no_clash (names_of params) distinct,
          NoneReserved-none_reserved (names_of params) free,
        )
        refl

  module _ {C : Type 0} (context : StructAnalysisContext) (macro_args : MacroArgs C) where
    -- What a publisher that is generated consists of.
    pub record IsPublisher (code : PublisherMethods) : Type 0 where
      pub wanted : macro_args.generate_publisher ≡ true
      pub params : code.method_params ≡ typed_params context.topic_params
      pub string : code.format_string ≡ join (map format_part macro_args.pattern.segments)
      pub args : code.format_args ≡ names_of context.topic_params

    pub generate_publisher_methods-ok :
        (is_ident : Text → Bool) (code : PublisherMethods)
        → length context.topic_params ≡ wildcard_count macro_args.pattern.segments
        → generate_publisher_methods decimal context macro_args is_ident ≡ ok (some code)
        → IsPublisher code
    unfolding generate_publisher_methods get_topic_format_and_args
    generate_publisher_methods-ok is_ident code wild h =
        elim (Bool-cases macro_args.generate_publisher) [
          | inr unwanted ↦ absurd (cc (rw (unwanted, generate_publisher_methods) at h))
          | inl wanted ↦
              let (ps, e, h1) =
                >>=-eq-ok (get_publisher_method_params decimal is_ident context.topic_params) _
                  (rw (wanted, generate_publisher_methods) at h) in
              let (f, e', h2) =
                >>=-eq-ok (get_topic_format_and_args decimal context macro_args is_ident) _ h1 in
              let (r, e'', h3) =
                >>=-eq-ok
                  (topic_format decimal is_ident context.topic_params macro_args.pattern.segments 0)
                  _ e' in
              let (parts, args) =
                topic_format-ok decimal is_ident context.topic_params macro_args.pattern.segments 0
                  context.topic_params r refl wild e'' in
              let same = some-injective _ _ (ok-injective (sym h2)) in
              let same' = ok-injective (sym h3) in
              record {
                wanted = wanted;
                params =
                    ap (λ c. c.method_params) same
                    ∙ get_publisher_method_params-ok is_ident context.topic_params ps e;
                string = ap (λ c. c.format_string) same ∙ ap (λ x. x.0) same' ∙ ap join parts;
                args = ap (λ c. c.format_args) same ∙ ap (λ x. x.1) same' ∙ args;
              }
        ]

  -- The text of a generated publisher's topic is the pattern with the parameters filled in.
  pub published_topic-join :
      {C : Type 0} (context : StructAnalysisContext) (macro_args : MacroArgs C)
      (code : PublisherMethods) (values : List Text)
      → IsPublisher context macro_args code
      → NoClash context.topic_params
      → length context.topic_params ≡ wildcard_count macro_args.pattern.segments
      → length values ≡ length context.topic_params
      → NoHash macro_args.pattern.segments
      → All LiteralNoBrace macro_args.pattern.segments
      → published_topic code values ≡ some (join (filled macro_args.pattern.segments values))
  published_topic-join context macro_args code values is distinct wild count no_hash no_brace =
      let segments = macro_args.pattern.segments in
      let params = context.topic_params in
      let d = distinct.0 in
      let (env, called, found) = call-look_up params values d count in
      rw (is.params, is.string, is.args)
        (generated_topic_lem (typed_params params) (join (map format_part segments))
            (names_of params) values values (NoClash-compiles params distinct) called found
          ∙ run_format-join segments values no_hash no_brace (omega arith))
