-- ===== src/Macros/Generated.antt =====
-- The meaning of the code that macros/src/codegen.rs emits: what `format!`, a call of a generated
-- function and a struct literal do with the data of Macros.Codegen. `none` is code that does not
-- compile.
pub mod Format
pub mod Topic
pub mod Struct
pub mod Message
pub mod Received
pub mod Bind
pub mod Custom
use mqtt_typed_client_next.Base.{
  ℕ, Bool, true, false, Option, none, some, List, [], ◌∷◌, ◌++◌, map, nat_eq, ◌||◌, ◌&&◌, not,
  if◌then◌else◌, Result, ok, err, ◌>>=◌, Failure,
}
use mathlib.Core.Option
use mqtt_typed_client_next.Base.Map
use mqtt_typed_client_next.Base.Text.{Text, text_Eq, codes}
use mqtt_typed_client_next.Topic.TopicMatch.{TopicMatch}
use mqtt_typed_client_next.Topic.PatternPath.{is_named}
use mqtt_typed_client_next.Client.Typed.{MessageConversionError, extract_topic_parameter}
use mqtt_typed_client_next.Macros.Syntax.{SynType}
use mqtt_typed_client_next.Macros.Codegen.{
  Extraction, Assignment, shorthand, unwrap_or_clone, target, FromMqttImpl,
}

-- How two characters of a format string begin: `{}`, `{{` or `}}`, a character that stands for
-- itself, or another use of a brace, which is not modelled.
pub data Piece : Type 0 where
  placeholder escaped plain unsupported : Piece

abbrev pub is_brace : ℕ → Bool
is_brace c = nat_eq c b'{' || nat_eq c b'}'

abbrev pub piece : ℕ → ℕ → Piece
piece c d =
    if nat_eq c b'{'
    then (if nat_eq d b'}' then placeholder else if nat_eq d b'{' then escaped else unsupported)
    else if nat_eq c b'}'
    then (if nat_eq d b'}' then escaped else unsupported)
    else plain

abbrev pub prepend : Text → Option Text → Option Text
prepend s none = none
prepend s (some t) = some (s ++ t)

-- `format!` of a string and the displayed arguments, all of which it must use.
unfoldable pub run_format : Text → List Text → Option Text
run_format [] [] = some []
run_format [] (arg ∷ args) = none
run_format (c ∷ []) args =
    if is_brace c then none else elim args [ [] ↦ some (c ∷ []) | arg ∷ others ↦ none ]
run_format (c ∷ d ∷ rest) args = elim (piece c d) [
  | placeholder ↦ elim args [ [] ↦ none | arg ∷ others ↦ prepend arg (run_format rest others) ]
  | escaped ↦ prepend (c ∷ []) (run_format rest args)
  | plain ↦ prepend (c ∷ []) (run_format (d ∷ rest) args)
  | unsupported ↦ none
]

-- The parameters of a call, by their names.
abbrev pub call {ℓ κ} :
    {A : Type ℓ} {V : Type κ} → List (Text × A) → List V → Option (List (Text × V))
call [] [] = some []
call ((name, ty) ∷ params) (v ∷ vs) = Option.map (λ env. (name, v) ∷ env) (call params vs)
call _ _ = none

abbrev pub look_up {κ} : {V : Type κ} → List (Text × V) → List Text → Option (List V)
look_up env [] = some []
look_up env (name ∷ names) = elim (Map.lookup name env) [
  | none ↦ none
  | some v ↦ Option.map (λ vs. v ∷ vs) (look_up env names)
]

-- No name stands twice.
abbrev pub no_clash : List Text → Bool
no_clash [] = true
no_clash (n ∷ ns) = not (is_named n ns) && no_clash ns

-- The parameters that the emitted functions of a publisher and a last will have beside those of the
-- pattern: each has some of these, and each of these stands in one. Parameters of the same name do
-- not compile.
abbrev pub other_params : List Text
other_params = codes "client" ∷ codes "custom_pattern" ∷ codes "data" ∷ codes "payload" ∷ []

-- The keywords of Rust, which `format_ident!` takes and which are no names of parameters.
abbrev pub keywords : List Text
keywords =
    codes "as"
    ∷ codes "async"
    ∷ codes "await"
    ∷ codes "break"
    ∷ codes "const"
    ∷ codes "continue"
    ∷ codes "crate"
    ∷ codes "dyn"
    ∷ codes "else"
    ∷ codes "enum"
    ∷ codes "extern"
    ∷ codes "false"
    ∷ codes "fn"
    ∷ codes "for"
    ∷ codes "if"
    ∷ codes "impl"
    ∷ codes "in"
    ∷ codes "let"
    ∷ codes "loop"
    ∷ codes "match"
    ∷ codes "mod"
    ∷ codes "move"
    ∷ codes "mut"
    ∷ codes "pub"
    ∷ codes "ref"
    ∷ codes "return"
    ∷ codes "self"
    ∷ codes "Self"
    ∷ codes "static"
    ∷ codes "struct"
    ∷ codes "super"
    ∷ codes "trait"
    ∷ codes "true"
    ∷ codes "type"
    ∷ codes "unsafe"
    ∷ codes "use"
    ∷ codes "where"
    ∷ codes "while"
    ∷ codes "abstract"
    ∷ codes "become"
    ∷ codes "box"
    ∷ codes "do"
    ∷ codes "final"
    ∷ codes "gen"
    ∷ codes "macro"
    ∷ codes "override"
    ∷ codes "priv"
    ∷ codes "try"
    ∷ codes "typeof"
    ∷ codes "unsized"
    ∷ codes "virtual"
    ∷ codes "yield"
    ∷ codes "_"
    ∷ []

abbrev pub reserved : List Text
reserved = other_params ++ keywords

abbrev pub none_reserved : List Text → Bool
none_reserved [] = true
none_reserved (n ∷ ns) = not (is_named n reserved) && none_reserved ns

abbrev pub compiles : List (Text × SynType) → Bool
compiles method_params =
    no_clash (map (λ p. p.0) method_params) && none_reserved (map (λ p. p.0) method_params)

-- `format!(format_string, format_args…)` in a function with the given parameters, which a caller
-- has given the displayed values.
unfoldable pub generated_topic : List (Text × SynType) → Text → List Text → List Text → Option Text
unfolding run_format
generated_topic method_params format_string format_args values =
    if compiles method_params
    then (elim (call method_params values) [
      | none ↦ none
      | some env ↦ elim (look_up env format_args) [
        | none ↦ none
        | some args ↦ run_format format_string args
      ]
    ])
    else none

-- What a local variable of `from_mqtt_message` or a field of the struct holds.
pub data FieldValue (D T V : Type 0) : Type 0 where
  param_value : V → FieldValue D T V
  payload_value : T → FieldValue D T V
  topic_value : TopicMatch → FieldValue D T V
  meta_value : D → FieldValue D T V

abbrev pub Locals : Type 0 → Type 0 → Type 0 → Type 0
Locals D T V = List (Text × FieldValue D T V)

module _ {D T V : Type 0} where
  abbrev pub bind_local : Locals D T V → Text → Option V → Option (Locals D T V)
  bind_local locals ident none = none
  bind_local locals ident (some v) = some ((ident, param_value v) ∷ locals)

  -- `Self { … }`: `unwrap_or_clone` gives the value that the `Arc` holds.
  abbrev pub struct_literal : List Assignment → Locals D T V → Option (Locals D T V)
  struct_literal [] locals = some []
  struct_literal (a ∷ rest) locals = elim (Map.lookup (target a) locals) [
    | none ↦ none
    | some v ↦ Option.map (λ fields. (target a, v) ∷ fields) (struct_literal rest locals)
  ]

  abbrev pub finish : List Assignment → Option (Locals D T V) → Option (Locals D T V)
  finish assignments none = none
  finish assignments (some locals) = struct_literal assignments locals

  abbrev pub arguments : Bool → TopicMatch → D → T → Locals D T V
  arguments binds_meta topic meta payload =
      (codes "topic", topic_value topic)
      ∷ (if binds_meta then codes "meta" else codes "_meta", meta_value meta)
      ∷ (codes "payload", payload_value payload)
      ∷ []

module _ {D T V DE PE : Type 0} (parse : SynType → Text → Result V PE) where
  abbrev pub extracted :
      Option (FieldValue D T V)
      → Extraction
      → Result (Option V) (Failure (MessageConversionError DE PE))
  extracted (some (topic_value topic)) x =
      extract_topic_parameter (parse x.param_type) topic x.param_index x.param_ident >>= λ v.
      ok (some v)
  extracted _ x = ok none

  -- `let param = extract_topic_parameter(&topic, index, "param")?;`, one after the other.
  unfoldable pub run_extractions :
      List Extraction
      → Option (Locals D T V)
      → Result (Option (Locals D T V)) (Failure (MessageConversionError DE PE))
  unfolding extract_topic_parameter
  run_extractions [] locals = ok locals
  run_extractions (x ∷ xs) none = ok none
  run_extractions (x ∷ xs) (some locals) = extracted (Map.lookup (codes "topic") locals) x >>= λ v.
      run_extractions xs (bind_local locals x.param_ident v)

  -- The generated `from_mqtt_message`.
  unfoldable pub from_mqtt_message :
      FromMqttImpl
      → TopicMatch
      → D
      → T
      → Result (Option (Locals D T V)) (Failure (MessageConversionError DE PE))
  unfolding run_extractions
  from_mqtt_message code topic meta payload =
      run_extractions code.param_extractions (some (arguments code.binds_meta topic meta payload))
      >>= λ locals. ok (finish code.field_assignments locals)
