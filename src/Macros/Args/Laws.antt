-- ===== src/Macros/Args/Laws.antt =====
-- What holds of the arguments that `parse_macro_args` of macros/src/lib.rs accepts.
use mqtt_typed_client_next.Base.{
  ◌≤◌, true, false, ◌||◌, ◌&&◌, List, [], ◌∷◌, ◌++◌, length, ok, ◌≡◌, refl, arith, ap, sym, ◌∙◌,
  Bool-cases, Result-cases, inl, inr, >>=-eq-ok, ok-injective, append-nil, append_assoc, ltb,
  if◌then◌else◌,
}
use mqtt_typed_client_next.Base.Text.{Text, codes}
use mqtt_typed_client_next.Topic.Cache.{LruCache}
use mqtt_typed_client_next.Topic.TopicMatch.{TopicMatch}
use mqtt_typed_client_next.Topic.PatternPath.{TopicPatternPath, new_from_string, validated}
use mqtt_typed_client_next.Topic.PatternPath.Access.{contains_hash}
use mqtt_typed_client_next.Macros.Syntax.{Expr, lit_str, expr_path, assign, other_expr, is_ident}
use mqtt_typed_client_next.Macros.Args.{
  MacroArgs, Flags, no_flags, parse_assign, parse_flag, parse_flags, with_mode, validated_args,
  parse_topic_pattern, parse_macro_args,
}

-- The modes among the arguments, in their order.
abbrev pub mode_of : Expr → List Text
mode_of (expr_path leading segments) =
    if is_ident leading segments (codes "subscriber")
    then codes "subscriber" ∷ []
    else if is_ident leading segments (codes "publisher")
    then codes "publisher" ∷ []
    else []
mode_of _ = []

abbrev pub modes_of : List Expr → List Text
modes_of [] = []
modes_of (arg ∷ rest) = mode_of arg ++ modes_of rest

parse_assign-modes :
    (left right : Expr) (flags after : Flags)
    → parse_assign left right flags ≡ ok after
    → after.explicit_modes ≡ flags.explicit_modes
unfolding parse_assign
parse_assign-modes (expr_path leading segments) (expr_path colon target) flags after h =
    elim (Bool-cases (is_ident leading segments (codes "serializer"))) [
      | inl e ↦ ap (λ f. f.explicit_modes) (sym (ok-injective (rw e at h)))
      | inr e ↦ absurd (cc (rw e at h))
    ]
parse_assign-modes (expr_path leading parts) (lit_str t) flags after h = absurd (ground arith)
parse_assign-modes (expr_path leading parts) (assign l r) flags after h = absurd (ground arith)
parse_assign-modes (expr_path leading parts) other_expr flags after h = absurd (ground arith)
parse_assign-modes (lit_str t) right flags after h = absurd (cc)
parse_assign-modes (assign l r) right flags after h = absurd (cc)
parse_assign-modes other_expr right flags after h = absurd (cc)

parse_flag-modes :
    (arg : Expr) (flags after : Flags)
    → parse_flag arg flags ≡ ok after
    → after.explicit_modes ≡ flags.explicit_modes ++ mode_of arg
unfolding parse_flag
parse_flag-modes (expr_path leading segments) flags after h =
    elim (Bool-cases (is_ident leading segments (codes "subscriber"))) [
      | inl e ↦ rw e (ap (λ f. f.explicit_modes) (sym (ok-injective (rw e at h))))
      | inr e ↦ elim (Bool-cases (is_ident leading segments (codes "publisher"))) [
        | inl k ↦ rw (e, k) (ap (λ f. f.explicit_modes) (sym (ok-injective (rw (e, k) at h))))
        | inr k ↦ absurd (cc (rw (e, k) at h))
      ]
    ]
parse_flag-modes (assign left right) flags after h =
    parse_assign-modes left right flags after h ∙ sym (append-nil flags.explicit_modes)
parse_flag-modes (lit_str t) flags after h = absurd (cc)
parse_flag-modes other_expr flags after h = absurd (cc)

parse_flags-modes :
    (args : List Expr) (flags after : Flags)
    → parse_flags args flags ≡ ok after
    → after.explicit_modes ≡ flags.explicit_modes ++ modes_of args
unfolding parse_flags
parse_flags-modes [] flags after h =
    ap (λ f. f.explicit_modes) (sym (ok-injective h)) ∙ sym (append-nil flags.explicit_modes)
parse_flags-modes (arg ∷ args) flags after h =
    let (middle, first, more) = >>=-eq-ok (parse_flag arg flags) _ h in
    parse_flags-modes args middle after more
    ∙ ap (λ (r : List Text). r ++ modes_of args) (parse_flag-modes arg flags middle first)
    ∙ append_assoc flags.explicit_modes (mode_of arg) (modes_of args)

-- What accepted arguments ask for.
pub record IsAccepted {C : Type 0} (text : Text) (rest : List Expr) (ma : MacroArgs C)
    : Type 0 where
  pub valid : validated text ≡ ok ma.pattern.segments
  pub template : ma.pattern.template_pattern ≡ text
  pub subscriber : ma.generate_subscriber ≡ with_mode (codes "subscriber") (modes_of rest)
  pub publisher : ma.generate_publisher ≡ with_mode (codes "publisher") (modes_of rest)
  pub some_mode : (ma.generate_subscriber || ma.generate_publisher) ≡ true
  pub no_hash : ma.generate_publisher ≡ true → contains_hash ma.pattern ≡ false
  pub last_will : ma.generate_last_will ≡ ma.generate_publisher
  pub few : length (modes_of rest) ≤ 2

module _ {C : Type 0} (p : TopicPatternPath C) (text : Text) (rest : List Expr) (flags : Flags)
    (ma : MacroArgs C) (valid : validated text ≡ ok p.segments)
    (template : p.template_pattern ≡ text) (modes : flags.explicit_modes ≡ modes_of rest) where
  validated_args-IsAccepted : validated_args p flags ≡ ok ma → IsAccepted text rest ma
  unfolding validated_args
  validated_args-IsAccepted h =
      let subscriber = with_mode (codes "subscriber") flags.explicit_modes in
      let publisher = with_mode (codes "publisher") flags.explicit_modes in
      elim (Bool-cases (ltb 2 (length flags.explicit_modes))) [
        | inl many ↦ absurd (cc (rw many at h))
        | inr few ↦ elim (Bool-cases (subscriber || publisher)) [
          | inr neither ↦ absurd (cc (rw (few, neither) at h))
          | inl either ↦ elim (Bool-cases (publisher && contains_hash p)) [
            | inl open_end ↦ absurd (cc (rw (few, either, open_end) at h))
            | inr closed ↦ rw (← ok-injective (rw (few, either, closed) at h)) (record {
              valid = valid;
              template = template;
              subscriber = ap (with_mode (codes "subscriber")) modes;
              publisher = ap (with_mode (codes "publisher")) modes;
              some_mode = either;
              no_hash = λ e. rw e at closed;
              last_will = refl;
              few = rw (← modes) (ground arith);
            })
          ]
        ]
      ]

module _ (cache : LruCache Text TopicMatch) where
  open cache use {Cache}

  parse_topic_pattern-ok :
      (text : Text) (p : TopicPatternPath Cache)
      → parse_topic_pattern cache text ≡ ok p
      → (validated text ≡ ok p.segments) × (p.template_pattern ≡ text)
  unfolding parse_topic_pattern new_from_string
  parse_topic_pattern-ok text p h = elim (Result-cases (validated text)) [
    | inl (segments, e) ↦
        let made = ok-injective (rw e at h) in
        (rw e (ap (λ q. ok q.segments) made), ap (λ q. q.template_pattern) (sym made))
    | inr (failure, e) ↦ absurd (cc (rw e at h))
  ]

  pub parse_macro_args-IsAccepted :
      (args : List Expr) (ma : MacroArgs Cache)
      → parse_macro_args cache args ≡ ok ma
      → (text : Text) × (rest : List Expr) × (args ≡ lit_str text ∷ rest) × IsAccepted text rest ma
  unfolding parse_macro_args
  parse_macro_args-IsAccepted [] ma h = absurd (cc)
  parse_macro_args-IsAccepted (lit_str text ∷ rest) ma h =
      let (p, parsed, h') = >>=-eq-ok (parse_topic_pattern cache text) _ h in
      let (flags, read, built) = >>=-eq-ok (parse_flags rest no_flags) _ h' in
      let (valid, template) = parse_topic_pattern-ok text p parsed in
      (
        text,
        rest,
        refl,
        validated_args-IsAccepted p text rest flags ma valid template
            (parse_flags-modes rest no_flags flags read) built,
      )
  parse_macro_args-IsAccepted (expr_path l s ∷ rest) ma h = absurd (cc)
  parse_macro_args-IsAccepted (assign l r ∷ rest) ma h = absurd (cc)
  parse_macro_args-IsAccepted (other_expr ∷ rest) ma h = absurd (cc)
