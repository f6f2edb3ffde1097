-- ===== src/Macros/Analysis/Laws.antt =====
-- What `analyze` of macros/src/analysis.rs has found of a struct that it accepts.
use mqtt_typed_client_next.Base.{
  Bool, true, false, ◌||◌, List, [], ◌∷◌, map, ok, ◌≡◌, refl, arith, ◌∙◌, Bool-cases, inl, inr,
  >>=-eq-ok, ok-injective, All,
}
use mqtt_typed_client_next.Base.Text.{Text, text_Eq, codes, is_empty}
use mqtt_typed_client_next.Topic.PatternPath.{TopicPatternPath, is_named}
use mqtt_typed_client_next.Macros.Syntax.{Field, DeriveInput}
use mqtt_typed_client_next.Macros.Analysis.{
  Found, nothing_found, StructAnalysisContext, analyze, analyze_field, analyze_fields, context_of,
  extract_field_types, extract_struct_fields, build_topic_params,
}
use mqtt_typed_client_next.Macros.Analysis.Step.{Sets, IsKnown, is_some, analyze_field-Sets}

abbrev pub idents : List Field → List Text
idents = map (λ field. field.ident)

-- A flag that the first round sets and the others, and one that an earlier round has set.
set_before :
    (this rest found after middle : Bool)
    → after ≡ (rest || middle)
    → middle ≡ (this || found)
    → after ≡ ((this || rest) || found)
set_before this rest found after middle h k = ground arith

pub or_false : (b : Bool) → (b || false) ≡ b
or_false true = refl
or_false false = refl

empty_list : {A : Type 0} (xs : List A) → is_empty xs ≡ true → xs ≡ []
empty_list [] h = refl
empty_list (x ∷ xs) h = absurd (cc)

module _ {C : Type 0} (p : TopicPatternPath C) where
  pub record HasFound (names : List Text) (found after : Found) : Type 0 where
    pub payload :
        is_some after.payload_type
        ≡ (is_named (codes "payload") names || is_some found.payload_type)
    pub topic : after.has_topic_field ≡ (is_named (codes "topic") names || found.has_topic_field)
    pub meta : after.has_meta_field ≡ (is_named (codes "meta") names || found.has_meta_field)
    pub known : after.unknown ≡ [] → (found.unknown ≡ []) × All (IsKnown p) names

  analyze_fields-HasFound :
      (fields : List Field) (found after : Found)
      → analyze_fields p fields found ≡ ok after
      → HasFound (idents fields) found after
  unfolding analyze_fields
  analyze_fields-HasFound [] found after h =
      rw (← ok-injective h)
        (record { payload = refl; topic = refl; meta = refl; known = λ e. (e, tt) })
  analyze_fields-HasFound (field ∷ fields) found after h =
      let (middle, first, more) = >>=-eq-ok (analyze_field p field found) _ h in
      let one : Sets p field.ident found middle = analyze_field-Sets p field found middle first in
      let rest = analyze_fields-HasFound fields middle after more in
      record {
        payload = set_before _ _ _ _ _ rest.payload one.payload;
        topic = set_before _ _ _ _ _ rest.topic one.topic;
        meta = set_before _ _ _ _ _ rest.meta one.meta;
        known = λ e.
            let (left, all) = rest.known e in
            let (none_unknown, this) = one.known left in (none_unknown, (this, all));
      }

  -- Of a struct that is accepted: the parameters are the wildcards of the pattern with the types of
  -- the fields of their names, a reserved field is recorded exactly where the struct has it, and
  -- each field is either reserved and no wildcard, or else a named wildcard.
  pub record IsAnalysed (fields : List Field) (context : StructAnalysisContext) : Type 0 where
    pub params : context.topic_params ≡ build_topic_params p (extract_field_types [] fields)
    pub payload : is_some context.payload_type ≡ is_named (codes "payload") (idents fields)
    pub topic : context.has_topic_field ≡ is_named (codes "topic") (idents fields)
    pub meta : context.has_meta_field ≡ is_named (codes "meta") (idents fields)
    pub known : All (IsKnown p) (idents fields)

  context_of-IsAnalysed :
      (fields : List Field) (found : Found) (context : StructAnalysisContext)
      → HasFound (idents fields) nothing_found found
      → context_of p fields found ≡ ok context
      → IsAnalysed fields context
  unfolding context_of
  context_of-IsAnalysed fields found context has h = elim (Bool-cases (is_empty found.unknown)) [
    | inl none_unknown ↦ rw (← ok-injective (rw none_unknown at h)) (record {
      params = refl;
      payload = has.payload ∙ or_false _;
      topic = has.topic ∙ or_false _;
      meta = has.meta ∙ or_false _;
      known = (has.known (empty_list found.unknown none_unknown)).1;
    })
    | inr unknown ↦ absurd (cc (rw unknown at h))
  ]

  pub analyze-IsAnalysed :
      (input : DeriveInput) (context : StructAnalysisContext)
      → analyze p input ≡ ok context
      → (fields : List Field) × (extract_struct_fields input ≡ ok fields)
        × IsAnalysed fields context
  unfolding analyze
  analyze-IsAnalysed input context h =
      let (fields, extracted, h') = >>=-eq-ok (extract_struct_fields input) _ h in
      let (found, ran, built) = >>=-eq-ok (analyze_fields p fields nothing_found) _ h' in
      (
        fields,
        extracted,
        context_of-IsAnalysed fields found context
            (analyze_fields-HasFound fields nothing_found found ran) built,
      )
