-- ===== src/Macros/Generated/Bind.antt =====
-- The methods `for_…` that macros/src/codegen.rs emits: each binds the value and unwraps.
use mqtt_typed_client_next.Base.{
  ℕ, Bool, true, false, ◌||◌, none, some, List, [], ◌∷◌, any, Result, ok, err, ◌≡◌, refl, arith,
  ◌∙◌, ◌⊎◌, inl, inr, ◌==◌, ◌≢◌, All, Failure, panicked, Bool-cases, Result-cases, ◌++◌, ap, sym,
  >>=-eq-ok, ok-injective,
}
use mathlib.Core.Path.{subst}
use mqtt_typed_client_next.Base.Text.{Text, codes, text_Eq, text_eq, text_eq_iff}
use mqtt_typed_client_next.Topic.Item.{
  TopicPatternItem, TopicPatternError, str, plus, hash, param_name,
}
use mqtt_typed_client_next.Topic.PatternPath.{TopicPatternPath, validated, is_named}
use mqtt_typed_client_next.Topic.PatternPath.Binding
use mqtt_typed_client_next.Topic.PatternPath.Binding.{is_param, or_nil, get_bound_value}
use mqtt_typed_client_next.Topic.PatternPath.Binding.Laws.{
  get_bound_value-bind_parameter, bind_parameter-fails,
}
use mqtt_typed_client_next.Topic.PatternPath.Validation.{names, Distinct, validated-IsValidPattern}
use mqtt_typed_client_next.Client.Builder.{SubscriptionBuilder, bind_parameter}
use mqtt_typed_client_next.Macros.Analysis.{TopicParam}
use mqtt_typed_client_next.Macros.Codegen.{get_publisher_param_name, format_ident}
use mqtt_typed_client_next.Macros.Codegen.Items.{ForMethod, generate_single_for_method}

-- `self.bind_parameter(param_key, value.to_string()).unwrap()`.
unfoldable pub call_for_method :
    {C E : Type 0}
    → SubscriptionBuilder C
    → ForMethod
    → Text
    → Result (SubscriptionBuilder C) (Failure E)
unfolding bind_parameter
call_for_method b method value = elim (bind_parameter b method.param_key value) [
  | ok b' ↦ ok b'
  | err e ↦ err panicked
]

-- A wildcard `{name:#}`.
abbrev pub is_hash_param : Text → TopicPatternItem → Bool
is_hash_param name (hash (some n)) = n == name
is_hash_param name _ = false

absent :
    (n : Text) (items : List TopicPatternItem)
    → All (λ m. m ≢ n) (names items)
    → any (is_param n) items ≡ false
unfolding param_name
absent n [] h = refl
absent n (str s ∷ items) h = absent n items h
absent n (plus none ∷ items) h = absent n items h
absent n (plus (some m) ∷ items) (h, hs) =
    let rest = absent n items hs in ground (arith, text_eq_iff m n)
absent n (hash none ∷ items) h = absent n items h
absent n (hash (some m) ∷ items) (h, hs) = absent n items hs

absent_hash :
    (n : Text) (items : List TopicPatternItem)
    → All (λ m. m ≢ n) (names items)
    → any (is_hash_param n) items ≡ false
unfolding param_name
absent_hash n [] h = refl
absent_hash n (str s ∷ items) h = absent_hash n items h
absent_hash n (plus none ∷ items) h = absent_hash n items h
absent_hash n (plus (some m) ∷ items) (h, hs) = absent_hash n items hs
absent_hash n (hash none ∷ items) h = absent_hash n items h
absent_hash n (hash (some m) ∷ items) (h, hs) =
    let rest = absent_hash n items hs in ground (arith, text_eq_iff m n)

-- A name stands once: it is that of a single-level wildcard or of a multi-level one.
not_both :
    (n : Text) (items : List TopicPatternItem)
    → Distinct (names items)
    → any (is_hash_param n) items ≡ true
    → any (is_param n) items ≡ false
unfolding param_name
not_both n [] d h = refl
not_both n (str s ∷ items) d h = not_both n items d h
not_both n (plus none ∷ items) d h = not_both n items d h
not_both n (plus (some m) ∷ items) (new, d) h = elim (Bool-cases (text_eq m n)) [
  | inl same ↦
      let none_there = absent_hash n items (rw ((text_eq_iff m n).0 same) at new) in absurd (cc)
  | inr other ↦ rw other (not_both n items d h)
]
not_both n (hash none ∷ items) d h = not_both n items d h
not_both n (hash (some m) ∷ items) (new, d) h = elim (Bool-cases (text_eq m n)) [
  | inl same ↦ absent n items (rw ((text_eq_iff m n).0 same) at new)
  | inr other ↦ not_both n items d (rw other at h)
]

named_once :
    (n : Text) (items : List TopicPatternItem)
    → is_named n (names items) ≡ (any (is_param n) items || any (is_hash_param n) items)
unfolding param_name
named_once n [] = refl
named_once n (str s ∷ items) = named_once n items
named_once n (plus none ∷ items) = named_once n items
named_once n (plus (some m) ∷ items) = let rest = named_once n items in ground arith
named_once n (hash none ∷ items) = named_once n items
named_once n (hash (some m) ∷ items) = let rest = named_once n items in ground arith

param_key :
    (decimal : ℕ → Text) (param : TopicParam) (n : Text)
    → param.name ≡ some n
    → get_publisher_param_name decimal param ≡ n
unfolding get_publisher_param_name
param_key decimal param n named = rw named refl

module _ {C : Type 0} (p : TopicPatternPath C) (name value : Text) where
  bind_parameter-there :
      any (is_param name) p.segments ≡ true
      → (q : TopicPatternPath C) × (Binding.bind_parameter p name value ≡ ok q)
  bind_parameter-there h = elim (Result-cases (Binding.bind_parameter p name value)) [
    | inl (q, e) ↦ (q, e)
    | inr (failure, e) ↦
        let gone = (bind_parameter-fails p name value).0 (failure, e) in absurd (cc)
  ]

  bind_parameter-absent :
      any (is_param name) p.segments ≡ false
      → (e : TopicPatternError) × (Binding.bind_parameter p name value ≡ err e)
  bind_parameter-absent h = (bind_parameter-fails p name value).1 h

module _ {C : Type 0} (b : SubscriptionBuilder C) (method : ForMethod) (value : Text) where
  call-ok :
      {q : TopicPatternPath C}
      → Binding.bind_parameter b.pattern method.param_key value ≡ ok q
      → call_for_method {E = Text} b method value ≡ ok (record b { pattern = q })
  unfolding call_for_method bind_parameter
  call-ok h = rw (call_for_method, bind_parameter, h) refl

  call-err :
      {e : TopicPatternError}
      → Binding.bind_parameter b.pattern method.param_key value ≡ err e
      → call_for_method {E = Text} b method value ≡ err panicked
  unfolding call_for_method bind_parameter
  call-err h = rw (call_for_method, bind_parameter, h) refl

-- A method that is generated binds to the name of its parameter.
generate_single_for_method-key :
    (decimal : ℕ → Text) (is_ident : Text → Bool) (param : TopicParam) (method : ForMethod)
    → generate_single_for_method decimal is_ident param ≡ ok method
    → method.param_key ≡ get_publisher_param_name decimal param
unfolding generate_single_for_method
generate_single_for_method-key decimal is_ident param method h =
    let (name, e, h') =
      >>=-eq-ok (format_ident is_ident (codes "for_" ++ get_publisher_param_name decimal param)) _
        h in
    ap (λ m. m.param_key) (sym (ok-injective h'))

generate_single_for_method-name :
    (decimal : ℕ → Text) (is_ident : Text → Bool) (param : TopicParam) (method : ForMethod)
    → generate_single_for_method decimal is_ident param ≡ ok method
    → method.method_name ≡ codes "for_" ++ get_publisher_param_name decimal param
unfolding generate_single_for_method
generate_single_for_method-name decimal is_ident param method h =
    elim (Bool-cases (is_ident (codes "for_" ++ get_publisher_param_name decimal param))) [
      | inl fits ↦
          ap (λ m. m.method_name) (sym (ok-injective (rw (fits, generate_single_for_method) at h)))
      | inr other ↦ absurd (cc (rw (other, generate_single_for_method) at h))
    ]

module _ {C : Type 0} (b : SubscriptionBuilder C) (value : Text) (method : ForMethod) where
  abbrev pub called : Result (SubscriptionBuilder C) (Failure Text)
  called = call_for_method b method value

  -- Without a single-level wildcard of its key, the method panics.
  pub called-panics :
      any (is_param method.param_key) b.pattern.segments ≡ false → called ≡ err panicked
  called-panics none_there =
      let (e, refused) = bind_parameter-absent b.pattern method.param_key value none_there in
      call-err b method value refused

  -- The method returns a builder whose pattern is as before, with the value bound to the name.
  abbrev pub Binds : Text → Type 0
  Binds n =
      (b' : SubscriptionBuilder C) × (called ≡ ok b')
      × (get_bound_value b'.pattern (some n) ≡ some value)
      × (b'.pattern.segments ≡ b.pattern.segments)

  called-Binds : any (is_param method.param_key) b.pattern.segments ≡ true → Binds method.param_key
  called-Binds there =
      let key = method.param_key in
      let (q, bound) = bind_parameter-there b.pattern key value there in
      let (reads, segments, _) = get_bound_value-bind_parameter b.pattern key value key q bound in
      (
        record b { pattern = q },
        call-ok b method value bound,
        reads ∙ rw ((text_eq_iff key key).1 refl) refl,
        segments,
      )

  -- Let a subscription have a valid pattern, and let `n` be the name of one of its wildcards, for
  -- which the macro generates a method. If the wildcard is a single level, the generated method
  -- `for_n` binds the value to it; if it is `{n:#}`, the method panics. One of the two is the case.
  pub called-named :
      (decimal : ℕ → Text) (is_ident : Text → Bool) (param : TopicParam) (text n : Text)
      → generate_single_for_method decimal is_ident param ≡ ok method
      → validated text ≡ ok b.pattern.segments
      → param.name ≡ some n
      → is_named n (names b.pattern.segments) ≡ true
      → (method.method_name ≡ codes "for_" ++ n)
        × (((any (is_param n) b.pattern.segments ≡ true) × Binds n)
            ⊎ ((any (is_hash_param n) b.pattern.segments ≡ true) × (called ≡ err panicked)))
  called-named decimal is_ident param text n generated valid named wild =
      let key : method.param_key ≡ n =
        generate_single_for_method-key decimal is_ident param method generated
        ∙ param_key decimal param n named in
      let name : method.method_name ≡ codes "for_" ++ n =
        generate_single_for_method-name decimal is_ident param method generated
        ∙ ap (λ t. codes "for_" ++ t) (param_key decimal param n named) in
      (
        name,
        elim (Bool-cases (any (is_hash_param n) b.pattern.segments)) [
          | inl open_end ↦
              let none_there =
                not_both n b.pattern.segments
                  (validated-IsValidPattern text b.pattern.segments valid).distinct open_end in
              inr (
                open_end,
                called-panics (ap (λ k. any (is_param k) b.pattern.segments) key ∙ none_there),
              )
          | inr closed ↦
              let there : any (is_param n) b.pattern.segments ≡ true =
                let once = named_once n b.pattern.segments in ground arith in
              inl (
                there,
                subst Binds key
                    (called-Binds (ap (λ k. any (is_param k) b.pattern.segments) key ∙ there)),
              )
        ],
      )
