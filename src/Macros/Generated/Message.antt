-- ===== src/Macros/Generated/Message.antt =====
-- The whole generated `from_mqtt_message`, for a struct that analysis.rs accepts.
use mqtt_typed_client_next.Base.{
  Bool, true, false, none, some, Option, List, [], ◌∷◌, ◌++◌, ◌≡◌, refl, ◌∙◌, All, ◌≢◌,
}
use mqtt_typed_client_next.Base.Map
use mqtt_typed_client_next.Base.Text.{Text, text_Eq, codes}
use mqtt_typed_client_next.Topic.TopicMatch.{TopicMatch}
use mqtt_typed_client_next.Topic.PatternPath.{is_named}
use mqtt_typed_client_next.Macros.Syntax.{SynType}
use mqtt_typed_client_next.Macros.Analysis.{StructAnalysisContext, reserved_field_names}
use mqtt_typed_client_next.Macros.Codegen.{
  Assignment, shorthand, unwrap_or_clone, adaptive, payload_assignment, reserved_assignments,
}
use mqtt_typed_client_next.Macros.Codegen.Literal.{IsFree}
use mqtt_typed_client_next.Macros.Generated.{
  FieldValue, topic_value, meta_value, payload_value, Locals, struct_literal, arguments,
}
use mqtt_typed_client_next.Macros.Generated.Struct.{
  keys, pushed, lookup-pushed, struct_literal-cons,
}

abbrev pub entry : {D T V : Type 0} → Bool → Text → FieldValue D T V → Locals D T V
entry true name v = (name, v) ∷ []
entry false name v = []

abbrev pub payload_entry : {D T V : Type 0} → Option SynType → T → Locals D T V
payload_entry none payload = []
payload_entry (some ty) payload = (codes "payload", payload_value payload) ∷ []

module _ {D T V : Type 0} where
  -- The reserved fields of the struct: the payload, the topic and the metadata of the message.
  abbrev pub reserved_entries : StructAnalysisContext → TopicMatch → D → T → Locals D T V
  reserved_entries context topic meta payload =
      payload_entry context.payload_type payload
      ++ (entry context.has_topic_field (codes "topic") (topic_value topic)
          ++ entry context.has_meta_field (codes "meta") (meta_value meta))

  literal-adaptive :
      (here owned : Bool) (name : Text) (v : FieldValue D T V) (l : Locals D T V)
      (more : List Assignment) (r : Locals D T V)
      → (here ≡ true → Map.lookup name l ≡ some v)
      → struct_literal more l ≡ some r
      → struct_literal (adaptive here owned name ++ more) l ≡ some (entry here name v ++ r)
  literal-adaptive true true name v l more r found built =
      struct_literal-cons (unwrap_or_clone name) more l (found refl) built
  literal-adaptive true false name v l more r found built =
      struct_literal-cons (shorthand name) more l (found refl) built
  literal-adaptive false owned name v l more r found built = built

  literal-payload :
      (ty : Option SynType) (v : T) (l : Locals D T V) (more : List Assignment) (r : Locals D T V)
      → Map.lookup (codes "payload") l ≡ some (payload_value v)
      → struct_literal more l ≡ some r
      → struct_literal (payload_assignment ty ++ more) l ≡ some (payload_entry ty v ++ r)
  literal-payload none v l more r found built = built
  literal-payload (some ty) v l more r found built =
      struct_literal-cons (shorthand (codes "payload")) more l found built

  literal-last :
      (here owned : Bool) (name : Text) (v : FieldValue D T V) (l : Locals D T V)
      → (here ≡ true → Map.lookup name l ≡ some v)
      → struct_literal (adaptive here owned name) l ≡ some (entry here name v)
  literal-last true true name v l found =
      struct_literal-cons (unwrap_or_clone name) [] l (found refl) refl
  literal-last true false name v l found =
      struct_literal-cons (shorthand name) [] l (found refl) refl
  literal-last false owned name v l found = refl

  -- What the arguments of the function are, by their names.
  payload_there :
      (b : Bool) (topic : TopicMatch) (meta : D) (payload : T)
      → Map.lookup (codes "payload") (arguments {V = V} b topic meta payload)
        ≡ some (payload_value payload)
  unfolding Map.lookup
  payload_there true topic meta payload = refl
  payload_there false topic meta payload = refl

  pub topic_there :
      (b : Bool) (topic : TopicMatch) (meta : D) (payload : T)
      → Map.lookup (codes "topic") (arguments {V = V} b topic meta payload)
        ≡ some (topic_value topic)
  unfolding Map.lookup
  topic_there b topic meta payload = refl

  meta_there :
      (b : Bool) (topic : TopicMatch) (meta : D) (payload : T)
      → b ≡ true
      → Map.lookup (codes "meta") (arguments {V = V} b topic meta payload) ≡ some (meta_value meta)
  unfolding Map.lookup
  meta_there true topic meta payload h = refl
  meta_there false topic meta payload h = absurd (cc)

free_apart :
    (k : Text) (ns : List Text)
    → is_named k reserved_field_names ≡ true
    → All IsFree ns
    → All (λ n. n ≢ k) ns
free_apart k [] h f = tt
free_apart k (n ∷ ns) h (f, fs) = ((λ e. cc), free_apart k ns h fs)

module _ {D T V : Type 0} (context : StructAnalysisContext) (topic : TopicMatch) (meta : D)
    (payload : T) (bs : List (Text × V)) (free : All IsFree (keys bs)) where
  abbrev pub locals : Locals D T V
  locals = pushed bs (arguments context.has_meta_field topic meta payload)

  reserved_there :
      (k : Text) {v : FieldValue D T V}
      → is_named k reserved_field_names ≡ true
      → Map.lookup k (arguments context.has_meta_field topic meta payload) ≡ some v
      → Map.lookup k locals ≡ some v
  reserved_there k h found =
      lookup-pushed k bs (arguments context.has_meta_field topic meta payload)
        (free_apart k (keys bs) h free)
      ∙ found

  -- The reserved fields take the arguments of the function.
  pub literal-reserved :
      struct_literal (reserved_assignments context) locals
      ≡ some (reserved_entries context topic meta payload)
  literal-reserved =
      literal-payload context.payload_type payload locals _ _
        (reserved_there (codes "payload") refl
          (payload_there context.has_meta_field topic meta payload))
        (literal-adaptive context.has_topic_field context.topic_field_owned (codes "topic")
          (topic_value topic) locals _ _
          (λ here.
            reserved_there (codes "topic") refl
              (topic_there context.has_meta_field topic meta payload))
          (literal-last context.has_meta_field context.meta_field_owned (codes "meta")
            (meta_value meta) locals
            (λ here.
              reserved_there (codes "meta") refl
                (meta_there context.has_meta_field topic meta payload here))))
