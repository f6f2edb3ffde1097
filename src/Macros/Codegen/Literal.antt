-- ===== src/Macros/Codegen/Literal.antt =====
-- The struct literal that macros/src/codegen.rs emits for a struct that analysis.rs accepts.
use mqtt_typed_client_next.Base.{
  Bool, true, false, List, [], ◌∷◌, ◌++◌, map, ok, ◌≡◌, refl, sym, ◌∙◌, Bool-cases, inl, inr, All,
  ◌≢◌,
}
use mqtt_typed_client_next.Base.Map
use mqtt_typed_client_next.Base.Text.{Text, text_Eq, codes}
use mqtt_typed_client_next.Topic.PatternPath.{TopicPatternPath, is_named, validated}
use mqtt_typed_client_next.Topic.PatternPath.Binding.{wildcards}
use mqtt_typed_client_next.Topic.PatternPath.Validation.{Distinct, validated-IsValidPattern}
use mqtt_typed_client_next.Macros.Syntax.{SynType, Field, DeriveInput}
use mqtt_typed_client_next.Macros.Analysis.{
  StructAnalysisContext, build_topic_params, extract_field_types, reserved_field_names,
  named_params, analyze, extract_struct_fields,
}
use mqtt_typed_client_next.Macros.Analysis.Step.{is_some}
use mqtt_typed_client_next.Macros.Analysis.Laws.{idents, IsAnalysed, analyze-IsAnalysed}
use mqtt_typed_client_next.Macros.Analysis.Params.{field_type_found, names-wildcards}
use mqtt_typed_client_next.Macros.Codegen.{
  Assignment, shorthand, target, generate_subscriber_field_assignments, reserved_assignments,
}
use mqtt_typed_client_next.Macros.Codegen.Fields.{
  field_names, present, reserved_names, param_assignments_lem, target-append, target-shorthand,
  target-reserved, assigned_names,
}

abbrev pub IsFree : Text → Type 0
IsFree name = is_named name reserved_field_names ≡ false

abbrev IsReserved : Text → Type 0
IsReserved name = is_named name reserved_field_names ≡ true

-- What holds of all the names holds of those with a type.
All-field_names :
    (P : Text → Type 0) (types : List (Text × SynType)) (ns : List Text)
    → All P ns
    → All P (field_names types ns)
All-field_names P types [] h = tt
All-field_names P types (n ∷ ns) (h, hs) = elim (Bool-cases (is_some (Map.lookup n types))) [
  | inl there ↦ rw there (h, All-field_names P types ns hs)
  | inr missing ↦ rw missing (All-field_names P types ns hs)
]

pub field_names-Distinct :
    (types : List (Text × SynType)) (ns : List Text) → Distinct ns → Distinct (field_names types ns)
field_names-Distinct types [] d = tt
field_names-Distinct types (n ∷ ns) (new, d) = elim (Bool-cases (is_some (Map.lookup n types))) [
  | inl there ↦
      rw there (All-field_names (λ m. m ≢ n) types ns new, field_names-Distinct types ns d)
  | inr missing ↦ rw missing (field_names-Distinct types ns d)
]

-- The map holds no reserved name.
pub IsFree-lookup :
    (fields : List Field) (n : Text)
    → is_some (Map.lookup n (extract_field_types [] fields)) ≡ true
    → IsFree n
IsFree-lookup fields n there = elim (Bool-cases (is_named n reserved_field_names)) [
  | inl reserved ↦ absurd (cc (rw reserved at (sym there ∙ field_type_found n fields)))
  | inr free ↦ free
]

pub field_names-IsFree :
    (fields : List Field) (ns : List Text)
    → All IsFree (field_names (extract_field_types [] fields) ns)
field_names-IsFree fields [] = tt
field_names-IsFree fields (n ∷ ns) =
    elim (Bool-cases (is_some (Map.lookup n (extract_field_types [] fields)))) [
      | inl there ↦ rw there (IsFree-lookup fields n there, field_names-IsFree fields ns)
      | inr missing ↦ rw missing (field_names-IsFree fields ns)
    ]

All-append {ℓ} : (P : Text → Type ℓ) (xs ys : List Text) → All P xs → All P ys → All P (xs ++ ys)
All-append P [] ys h k = k
All-append P (x ∷ xs) ys (h, hs) k = (h, All-append P xs ys hs k)

present-IsReserved :
    (here : Bool) (name : Text) → IsReserved name → All IsReserved (present here name)
present-IsReserved true name h = (h, tt)
present-IsReserved false name h = tt

reserved_names-IsReserved :
    (context : StructAnalysisContext) → All IsReserved (reserved_names context)
unfolding reserved_names
reserved_names-IsReserved context =
    All-append _ (present (is_some context.payload_type) (codes "payload")) _
      (present-IsReserved (is_some context.payload_type) (codes "payload") refl)
      (All-append _ (present context.has_topic_field (codes "topic")) _
        (present-IsReserved context.has_topic_field (codes "topic") refl)
        (present-IsReserved context.has_meta_field (codes "meta") refl))

reserved_names-Distinct : (context : StructAnalysisContext) → Distinct (reserved_names context)
unfolding reserved_names
reserved_names-Distinct context =
    go (is_some context.payload_type) context.has_topic_field context.has_meta_field
  where
    go :
        (a b c : Bool)
        → Distinct
            (present a (codes "payload") ++ (present b (codes "topic") ++ present c (codes "meta")))
    go true true true =
        (((λ e. absurd (cc)), ((λ e. absurd (cc)), tt)), (((λ e. absurd (cc)), tt), (tt, tt)))
    go true true false = (((λ e. absurd (cc)), tt), (tt, tt))
    go true false true = (((λ e. absurd (cc)), tt), (tt, tt))
    go true false false = (tt, tt)
    go false true true = (((λ e. absurd (cc)), tt), (tt, tt))
    go false true false = (tt, tt)
    go false false true = (tt, tt)
    go false false false = tt

-- A free name is none of the reserved ones.
apart : (m : Text) (ys : List Text) → IsFree m → All IsReserved ys → All (λ y. y ≢ m) ys
apart m [] free h = tt
apart m (y ∷ ys) free (h, hs) = ((λ e. absurd (cc)), apart m ys free hs)

Distinct-append :
    (xs ys : List Text)
    → Distinct xs
    → Distinct ys
    → All IsFree xs
    → All IsReserved ys
    → Distinct (xs ++ ys)
Distinct-append [] ys d e free h = e
Distinct-append (x ∷ xs) ys (new, d) e (free, frees) h =
    (All-append _ xs ys new (apart x ys free h), Distinct-append xs ys d e frees h)

module _ {C : Type 0} (p : TopicPatternPath C) (fields : List Field)
    (context : StructAnalysisContext) (sound : IsAnalysed p fields context) where
  abbrev pub assigned : List Text
  assigned = field_names (extract_field_types [] fields) (named_params p) ++ reserved_names context

  abbrev pub literal : List Assignment
  literal =
      map shorthand (field_names (extract_field_types [] fields) (named_params p))
      ++ reserved_assignments context

  pub generate-literal : generate_subscriber_field_assignments context ≡ ok literal
  unfolding generate_subscriber_field_assignments build_topic_params named_params
  generate-literal =
      rw
        (
          sound.params,
          param_assignments_lem (extract_field_types [] fields) (wildcards p.segments) 0,
        )
        refl

  target-literal : map target literal ≡ assigned
  target-literal =
      rw
        (
          target-append
              (map shorthand (field_names (extract_field_types [] fields) (named_params p)))
              (reserved_assignments context),
          target-shorthand (field_names (extract_field_types [] fields) (named_params p)),
          target-reserved context,
        )
        refl

  assigned-Distinct : Distinct (named_params p) → Distinct assigned
  assigned-Distinct d =
      Distinct-append (field_names (extract_field_types [] fields) (named_params p))
        (reserved_names context)
        (field_names-Distinct (extract_field_types [] fields) (named_params p) d)
        (reserved_names-Distinct context) (field_names-IsFree fields (named_params p))
        (reserved_names-IsReserved context)

  literal-fields :
      Distinct (named_params p)
      → Distinct (map target literal)
        × ((n : Text) → is_named n (map target literal) ≡ is_named n (idents fields))
  literal-fields d =
      rw target-literal (assigned-Distinct d, λ n. assigned_names p fields context sound n)

pub named_params-Distinct :
    {C : Type 0} (p : TopicPatternPath C) (text : Text)
    → validated text ≡ ok p.segments
    → Distinct (named_params p)
unfolding named_params
named_params-Distinct p text h =
    rw (names-wildcards p.segments) (validated-IsValidPattern text p.segments h).distinct

-- For a struct that the analysis accepts, with a pattern that the parser accepts,
-- `generate_subscriber_field_assignments` finds the name of every parameter that it unwraps, and
-- returns assignments for the fields of a struct literal: they assign no field twice, and they
-- assign a name exactly where the struct has a field of that name.
pub generate_subscriber_field_assignments-analyze :
    {C : Type 0} (p : TopicPatternPath C) (text : Text) (input : DeriveInput)
    (context : StructAnalysisContext)
    → validated text ≡ ok p.segments
    → analyze p input ≡ ok context
    → (fields : List Field) × (assignments : List Assignment) × (extract_struct_fields input
        ≡ ok fields)
      × (generate_subscriber_field_assignments context ≡ ok assignments)
      × Distinct (map target assignments)
      × ((n : Text) → is_named n (map target assignments) ≡ is_named n (idents fields))
generate_subscriber_field_assignments-analyze p text input context valid analysed =
    let (fields, extracted, sound) = analyze-IsAnalysed p input context analysed in
    let (distinct, same) =
      literal-fields p fields context sound (named_params-Distinct p text valid) in
    (
      fields,
      literal p fields context sound,
      extracted,
      generate-literal p fields context sound,
      distinct,
      same,
    )
