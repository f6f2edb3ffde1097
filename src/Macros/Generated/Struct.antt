-- ===== src/Macros/Generated/Struct.antt =====
-- The struct that a generated `from_mqtt_message` builds from a matched topic and a payload.
use mqtt_typed_client_next.Base.{
  ℕ, ◌+◌, true, false, none, some, Option, List, [], ◌∷◌, ◌++◌, map, length, drop, get_elem?, ◌≡◌,
  refl, arith, ap, ◌∙◌, All, ◌≢◌, Result, ok, Failure, Option-cases, inl, inr,
}
use mqtt_typed_client_next.Base.Map
use mqtt_typed_client_next.Base.Text.{Text, text_Eq, text_eq, text_eq_iff, codes}
use mqtt_typed_client_next.Topic.Item.{TopicPatternItem, param_name}
use mqtt_typed_client_next.Topic.TopicMatch.{TopicMatch, get_param}
use mqtt_typed_client_next.Topic.PatternPath.Matching.Decides.{drop_cons}
use mqtt_typed_client_next.Topic.PatternPath.Validation.{names, Distinct}
use mqtt_typed_client_next.Client.Typed.{extract_topic_parameter, MessageConversionError}
use mqtt_typed_client_next.Macros.Syntax.{SynType}
use mqtt_typed_client_next.Macros.Analysis.{number_params}
use mqtt_typed_client_next.Macros.Analysis.Step.{is_some, text_eq_comm}
use mqtt_typed_client_next.Macros.Codegen.{
  Extraction, Assignment, shorthand, target, generate_subscriber_param_extractions,
}
use mqtt_typed_client_next.Macros.Codegen.Fields.{field_names}
use mqtt_typed_client_next.Macros.Codegen.Literal.{IsFree}
use mqtt_typed_client_next.Macros.Generated.{
  FieldValue, param_value, topic_value, Locals, struct_literal, run_extractions, extracted,
}

-- The fields that are filled from wildcards, with their values.
abbrev pub typed_value :
    {V : Type 0} → Option SynType → Text → V → List (Text × V) → List (Text × V)
typed_value none n v rest = rest
typed_value (some ty) n v rest = (n, v) ∷ rest

abbrev pub with_value :
    {V : Type 0} → List (Text × SynType) → Option Text → V → List (Text × V) → List (Text × V)
with_value types none v rest = rest
with_value types (some n) v rest = typed_value (Map.lookup n types) n v rest

abbrev pub param_fields :
    {V : Type 0} → List (Text × SynType) → List TopicPatternItem → List V → List (Text × V)
param_fields types [] vs = []
param_fields types (item ∷ items) [] = []
param_fields types (item ∷ items) (v ∷ vs) =
    with_value types (param_name item) v (param_fields types items vs)

abbrev pub keys : {V : Type 0} → List (Text × V) → List Text
keys = map (λ b. b.0)

pub keys-param_fields :
    {V : Type 0} (types : List (Text × SynType)) (items : List TopicPatternItem) (vs : List V)
    → length vs ≡ length items
    → keys (param_fields types items vs) ≡ field_names types (names items)
keys-param_fields types [] vs n = refl
keys-param_fields types (item ∷ items) [] n = absurd (omega arith)
keys-param_fields types (item ∷ items) (v ∷ vs) n =
    let rest = keys-param_fields types items vs (omega arith) in
    elim (Option-cases (param_name item)) [
      | inl e ↦ rw e rest
      | inr (name, e) ↦ elim (Option-cases (Map.lookup name types)) [
        | inl missing ↦ rw (e, missing) rest
        | inr (ty, found) ↦ rw (e, found) (ap (λ (r : List Text). name ∷ r) rest)
      ]
    ]

IsFree-topic : (n : Text) → IsFree n → text_eq n (codes "topic") ≡ false
IsFree-topic n free =
    let other : text_eq (codes "topic") n ≡ false = ground arith in
    text_eq_comm n (codes "topic") ∙ other

-- The local variables after the parameters have been extracted.
abbrev pub pushed : {D T V : Type 0} → List (Text × V) → Locals D T V → Locals D T V
pushed [] l = l
pushed ((n, v) ∷ bs) l = pushed bs ((n, param_value v) ∷ l)

module _ {D T V : Type 0} where
  pub lookup-pushed :
      (k : Text) (bs : List (Text × V)) (l : Locals D T V)
      → All (λ n. n ≢ k) (keys bs)
      → Map.lookup k (pushed bs l) ≡ Map.lookup k l
  unfolding Map.lookup
  lookup-pushed k [] l h = refl
  lookup-pushed k ((n, v) ∷ bs) l (h, hs) =
      lookup-pushed k bs ((n, param_value v) ∷ l) hs ∙ ground (arith, text_eq_iff n k)

  lookup-first :
      (n : Text) (v : FieldValue D T V) (l : Locals D T V) → Map.lookup n ((n, v) ∷ l) ≡ some v
  unfolding Map.lookup
  lookup-first n v l = ground (arith, text_eq_iff n n)

  pub struct_literal-cons :
      (a : Assignment) (rest : List Assignment) (l : Locals D T V) {v : FieldValue D T V}
      {r : Locals D T V}
      → Map.lookup (target a) l ≡ some v
      → struct_literal rest l ≡ some r
      → struct_literal (a ∷ rest) l ≡ some ((target a, v) ∷ r)
  struct_literal-cons a rest l found built = rw (struct_literal, found, built) refl

  -- The entries for parameters take the values that were extracted.
  pub struct_literal-pushed :
      (bs : List (Text × V)) (l : Locals D T V) (more : List Assignment) {r : Locals D T V}
      → Distinct (keys bs)
      → struct_literal more (pushed bs l) ≡ some r
      → struct_literal (map shorthand (keys bs) ++ more) (pushed bs l)
        ≡ some (map (λ b. (b.0, param_value b.1)) bs ++ r)
  struct_literal-pushed [] l more d h = h
  struct_literal-pushed ((n, v) ∷ bs) l more (new, d) h =
      struct_literal-cons (shorthand n) (map shorthand (keys bs) ++ more)
        (pushed bs ((n, param_value v) ∷ l))
        (lookup-pushed n bs ((n, param_value v) ∷ l) new ∙ lookup-first n (param_value v) l)
        (struct_literal-pushed bs ((n, param_value v) ∷ l) more d h)

abbrev pub TopicThere : {D T V : Type 0} → TopicMatch → Locals D T V → Type 0
TopicThere m l = Map.lookup (codes "topic") l ≡ some (topic_value m)

TopicThere-cons :
    {D T V : Type 0} (m : TopicMatch) (n : Text) (v : V) (l : Locals D T V)
    → IsFree n
    → TopicThere m l
    → TopicThere m ((n, param_value v) ∷ l)
unfolding Map.lookup
TopicThere-cons m n v l free there = rw (Map.lookup, IsFree-topic n free) there

module _ {V PE : Type 0} (parse : SynType → Text → Result V PE) where
  -- A parameter with a field is parsed to its value as the type of the field.
  abbrev Parsed : List (Text × SynType) → Option Text → Text → V → Type 0
  Parsed types none t v = Unit
  Parsed types (some n) t v = (ty : SynType) → Map.lookup n types ≡ some ty → parse ty t ≡ ok v

  abbrev pub AllParse : List (Text × SynType) → List TopicPatternItem → List Text → List V → Type 0
  AllParse types [] [] [] = Unit
  AllParse types (item ∷ items) (t ∷ ts) (v ∷ vs) =
      Parsed types (param_name item) t v × AllParse types items ts vs
  AllParse types _ _ _ = ⊥

  module _ {D T DE : Type 0} (types : List (Text × SynType)) (m : TopicMatch) (all : List Text)
      (read : (j : ℕ) → get_param m j ≡ ok (get_elem? all j))
      (free : (n : Text) → is_some (Map.lookup n types) ≡ true → IsFree n) where
    extracted_lem :
        (x : Extraction) (t : Text) (v : V) (l : Locals D T V)
        → TopicThere m l
        → get_param m x.param_index ≡ ok (some t)
        → parse x.param_type t ≡ ok v
        → extracted {DE = DE} parse (Map.lookup (codes "topic") l) x ≡ ok (some v)
    unfolding extract_topic_parameter
    extracted_lem x t v l there got parsed =
        rw (there, extracted, extract_topic_parameter, got, parsed) refl

    extraction_step :
        (x : Extraction) (xs : List Extraction) (t : Text) (v : V) (l : Locals D T V)
        {r : Result (Option (Locals D T V)) (Failure (MessageConversionError DE PE))}
        → TopicThere m l
        → get_param m x.param_index ≡ ok (some t)
        → parse x.param_type t ≡ ok v
        → run_extractions {DE = DE} parse xs (some ((x.param_ident, param_value v) ∷ l)) ≡ r
        → run_extractions {DE = DE} parse (x ∷ xs) (some l) ≡ r
    unfolding run_extractions
    extraction_step x xs t v l there got parsed rest =
        rw (extracted_lem x t v l there got parsed) rest

    -- From the parameter numbered `i` on, the extractions are emitted and bind the values.
    pub run_extractions-number_params :
        (items : List TopicPatternItem) (i : ℕ) (texts : List Text) (vs : List V)
        → drop i all ≡ texts
        → AllParse types items texts vs
        → (xs : List Extraction) × (generate_subscriber_param_extractions
              (number_params types items i)
            ≡ ok xs)
          × ((l : Locals D T V)
              → TopicThere m l
              → run_extractions {DE = DE} parse xs (some l)
                ≡ ok (some (pushed (param_fields types items vs) l)))
    unfolding generate_subscriber_param_extractions number_params run_extractions
    run_extractions-number_params [] i [] [] at ps = ([], refl, λ l there. refl)
    run_extractions-number_params (item ∷ items) i (t ∷ ts) (v ∷ vs) at (p, ps) =
        let (found, next, _) = drop_cons i all at in
        let (xs, generated, run) = run_extractions-number_params items (i + 1) ts vs next ps in
        elim (Option-cases (param_name item)) [
          | inl e ↦ (xs, rw e generated, λ l there. rw e (run l there))
          | inr (name, e) ↦ elim (Option-cases (Map.lookup name types)) [
            | inl missing ↦
                (xs, rw (e, missing) generated, λ l there. rw (e, missing) (run l there))
            | inr (ty, typed) ↦
                let x : Extraction = record {
                  param_ident = name;
                  param_index = i;
                  param_type = ty;
                } in
                (
                  x ∷ xs,
                  rw (e, typed, generated) refl,
                  λ l there.
                      rw (e, typed)
                        (extraction_step x xs t v l there (read i ∙ ap ok found)
                          ((rw e at p) ty typed)
                          (run ((name, param_value v) ∷ l)
                            (TopicThere-cons m name v l (free name (rw typed refl)) there))),
                )
          ]
        ]
    run_extractions-number_params _ i _ _ at ps = absurd ps
