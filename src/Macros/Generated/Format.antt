-- ===== src/Macros/Generated/Format.antt =====
-- The topic that a generated publisher formats, against `format_topic` of topic_pattern_path.rs.
use mqtt_typed_client_next.Base.{
  ℕ, ◌+◌, Bool, false, none, some, Option, List, [], ◌∷◌, ◌++◌, get_elem?, Result, ok, ◌>>=◌,
  >>=-eq-ok, ok-injective, Bool-cases, inl, inr, map, length, drop, ◌≡◌, refl, arith, ap, sym, ◌∙◌,
  append_assoc, append-nil, All,
}
use mqtt_typed_client_next.Base.Text.{Text, codes, join}
use mqtt_typed_client_next.Topic.Item.{TopicPatternItem, str, plus, hash, is_wildcard, as_str}
use mqtt_typed_client_next.Topic.PatternPath.Format.{wildcard_count}
use mqtt_typed_client_next.Topic.PatternPath.Format.RoundTrip.{filled, NoHash}
use mqtt_typed_client_next.Topic.PatternPath.Matching.Decides.{drop_cons}
use mqtt_typed_client_next.Macros.Analysis.{TopicParam}
use mqtt_typed_client_next.Macros.Codegen.{
  MacroPanic, topic_format, get_publisher_param_name, next_index, param_arg,
}
use mqtt_typed_client_next.Macros.Generated.{run_format, prepend, is_brace}

abbrev pub NoBrace : Text → Type 0
NoBrace = All (λ c. is_brace c ≡ false)

-- No literal of the pattern has a brace.
abbrev pub LiteralNoBrace : TopicPatternItem → Type 0
LiteralNoBrace (str s) = NoBrace s
LiteralNoBrace (plus _) = Unit
LiteralNoBrace (hash _) = Unit

prepend_append : (a b : Text) (t : Option Text) → prepend (a ++ b) t ≡ prepend a (prepend b t)
prepend_append a b none = refl
prepend_append a b (some t) = ap some (append_assoc a b t)

prepend_nil : (t : Option Text) → prepend [] t ≡ t
prepend_nil none = refl
prepend_nil (some t) = refl

-- A character other than a brace stands for itself.
run_format-plain :
    (c : ℕ) (rest : Text) (args : List Text)
    → is_brace c ≡ false
    → run_format (c ∷ rest) args ≡ prepend (c ∷ []) (run_format rest args)
unfolding run_format
run_format-plain c [] [] h = ground arith
run_format-plain c [] (arg ∷ args) h = ground arith
run_format-plain c (d ∷ rest) args h = ground arith

run_format-literal :
    (s rest : Text) (args : List Text)
    → NoBrace s
    → run_format (s ++ rest) args ≡ prepend s (run_format rest args)
run_format-literal [] rest args h = sym (prepend_nil (run_format rest args))
run_format-literal (c ∷ s) rest args (h, hs) =
    run_format-plain c (s ++ rest) args h
    ∙ ap (prepend (c ∷ [])) (run_format-literal s rest args hs)
    ∙ sym (prepend_append (c ∷ []) s (run_format rest args))

run_format-placeholder :
    (rest arg : Text) (args : List Text)
    → run_format (b'{' ∷ b'}' ∷ rest) (arg ∷ args) ≡ prepend arg (run_format rest args)
unfolding run_format
run_format-placeholder rest arg args = refl

abbrev pub format_part : TopicPatternItem → Text
format_part (str s) = s
format_part (plus _) = codes "{}"
format_part (hash _) = codes "{}"

-- What follows the first of the joined texts.
abbrev tail_of : List Text → Text
tail_of [] = []
tail_of (t ∷ ts) = b'/' ∷ join (t ∷ ts)

join_cons : (s : Text) (ts : List Text) → join (s ∷ ts) ≡ s ++ tail_of ts
unfolding join
join_cons s [] = sym (append-nil s)
join_cons s (t ∷ ts) = refl

abbrev parts_of : List TopicPatternItem → List Text
parts_of = map format_part

-- What the format string does after its first part carries over to the whole.
module _ (items : List TopicPatternItem) (args : List Text)
    (rest : run_format (tail_of (parts_of items)) args ≡ some (tail_of (filled items args))) where
  literal_first :
      (s : Text)
      → NoBrace s
      → run_format (join (s ∷ parts_of items)) args ≡ some (join (s ∷ filled items args))
  literal_first s h =
      rw
        (join_cons s (parts_of items), run_format-literal s (tail_of (parts_of items)) args h, rest)
        (ap some (sym (join_cons s (filled items args))))

  placeholder_first :
      (arg : Text)
      → run_format (join (codes "{}" ∷ parts_of items)) (arg ∷ args)
        ≡ some (join (arg ∷ filled items args))
  placeholder_first arg =
      rw
        (
          join_cons (codes "{}") (parts_of items),
          run_format-placeholder (tail_of (parts_of items)) arg args,
          rest,
        )
        (ap some (sym (join_cons arg (filled items args))))

slash_first :
    (t : Text) (ts : List Text) (args : List Text) {out : Text}
    → run_format (join (t ∷ ts)) args ≡ some out
    → run_format (tail_of (t ∷ ts)) args ≡ some (b'/' ∷ out)
slash_first t ts args h =
    run_format-plain b'/' (join (t ∷ ts)) args refl ∙ ap (prepend (b'/' ∷ [])) h

run_format-tail :
    (items : List TopicPatternItem) (args : List Text)
    → NoHash items
    → All LiteralNoBrace items
    → length args ≡ wildcard_count items
    → run_format (tail_of (parts_of items)) args ≡ some (tail_of (filled items args))
unfolding wildcard_count is_wildcard run_format
run_format-tail [] [] h b n = refl
run_format-tail [] (a ∷ args) h b n = absurd (omega arith)
run_format-tail (str s ∷ items) args (_, h) (b, bs) n =
    slash_first s (parts_of items) args
      (literal_first items args (run_format-tail items args h bs n) s b)
run_format-tail (plus name ∷ items) [] h b n = absurd (omega arith)
run_format-tail (plus name ∷ items) (a ∷ args) (_, h) (_, bs) n =
    slash_first (codes "{}") (parts_of items) (a ∷ args)
      (placeholder_first items args (run_format-tail items args h bs (omega arith)) a)
run_format-tail (hash name ∷ items) args (h, _) b n = absurd (cc)

-- The format string gives the segments of the pattern with the arguments filled in.
pub run_format-join :
    (items : List TopicPatternItem) (args : List Text)
    → NoHash items
    → All LiteralNoBrace items
    → length args ≡ wildcard_count items
    → run_format (join (map format_part items)) args ≡ some (join (filled items args))
unfolding wildcard_count is_wildcard run_format join
run_format-join [] [] h b n = refl
run_format-join [] (a ∷ args) h b n = absurd (omega arith)
run_format-join (str s ∷ items) args (_, h) (b, bs) n =
    literal_first items args (run_format-tail items args h bs n) s b
run_format-join (plus name ∷ items) [] h b n = absurd (omega arith)
run_format-join (plus name ∷ items) (a ∷ args) (_, h) (_, bs) n =
    placeholder_first items args (run_format-tail items args h bs (omega arith)) a
run_format-join (hash name ∷ items) args (h, _) b n = absurd (cc)

module _ (decimal : ℕ → Text) (is_ident : Text → Bool) (params : List TopicParam) where
  abbrev names_of : List TopicParam → List Text
  names_of left = map (get_publisher_param_name decimal) left

  abbrev Formats : List TopicPatternItem → List TopicParam → List Text × List Text → Type 0
  Formats items left r = (r.0 ≡ map format_part items) × (r.1 ≡ names_of left)

  -- What a segment adds to what the others give.
  abbrev joined :
      Text
      → Result (List Text) MacroPanic
      → Result (List Text × List Text) MacroPanic
      → Result (List Text × List Text) MacroPanic
  joined part arg rest = arg >>= λ a. rest >>= λ others. ok (part ∷ others.0, a ++ others.1)

  joined-ok :
      (part : Text) (a : List Text) (rest : Result (List Text × List Text) MacroPanic)
      (r : List Text × List Text)
      → joined part (ok a) rest ≡ ok r
      → (o : List Text × List Text) × (rest ≡ ok o) × (r.0 ≡ part ∷ o.0) × (r.1 ≡ a ++ o.1)
  joined-ok part a rest r h =
      let (o, e, h') = >>=-eq-ok rest _ h in
      (o, e, ap (λ x. x.0) (sym (ok-injective h')), ap (λ x. x.1) (sym (ok-injective h')))

  param_arg-ok :
      (p : TopicParam) (arg : List Text)
      → param_arg decimal is_ident (some p) ≡ ok arg
      → arg ≡ get_publisher_param_name decimal p ∷ []
  param_arg-ok p arg h = elim (Bool-cases (is_ident (get_publisher_param_name decimal p))) [
    | inl fits ↦ sym (ok-injective (rw fits at h))
    | inr other ↦ absurd (cc (rw other at h))
  ]

  wildcard-Formats :
      (items : List TopicPatternItem) (i : ℕ) (p : TopicParam) (left : List TopicParam)
      (r : List Text × List Text)
      → get_elem? params i ≡ some p
      → ((o : List Text × List Text)
          → topic_format decimal is_ident params items (i + 1) ≡ ok o
          → Formats items left o)
      → joined
          (codes "{}")
          (param_arg decimal is_ident (get_elem? params i))
          (topic_format decimal is_ident params items (next_index decimal (get_elem? params i) i))
        ≡ ok r
      → (r.0 ≡ codes "{}" ∷ map format_part items) × (r.1 ≡ names_of (p ∷ left))
  wildcard-Formats items i p left r found later h =
      let h' = rw (found, next_index) at h in
      let (arg, e, h1) = >>=-eq-ok (param_arg decimal is_ident (some p)) _ h' in
      let (o, more, first, second) =
        joined-ok (codes "{}") arg (topic_format decimal is_ident params items (i + 1)) r h1 in
      let (parts, args) = later o more in
      (
        first ∙ ap (λ (t : List Text). codes "{}" ∷ t) parts,
        second ∙ ap (λ t. arg ++ t) args ∙ ap (λ t. t ++ names_of left) (param_arg-ok p arg e),
      )

  -- With a parameter for each wildcard left, the format string has the segments with `{}` in place
  -- of the wildcards, and the arguments are the names of the parameters in order.
  pub topic_format-ok :
      (items : List TopicPatternItem) (i : ℕ) (left : List TopicParam) (r : List Text × List Text)
      → drop i params ≡ left
      → length left ≡ wildcard_count items
      → topic_format decimal is_ident params items i ≡ ok r
      → (r.0 ≡ map format_part items) × (r.1 ≡ map (get_publisher_param_name decimal) left)
  unfolding topic_format is_wildcard wildcard_count as_str
  topic_format-ok [] i [] r at n h =
      (ap (λ x. x.0) (sym (ok-injective h)), ap (λ x. x.1) (sym (ok-injective h)))
  topic_format-ok [] i (p ∷ left) r at n h = absurd (omega arith)
  topic_format-ok (str s ∷ items) i left r at n h =
      let (o, more, first, second) =
        joined-ok s [] (topic_format decimal is_ident params items i) r h in
      let (parts, args) = topic_format-ok items i left o at n more in
      (first ∙ ap (λ (t : List Text). s ∷ t) parts, second ∙ args)
  topic_format-ok (plus name ∷ items) i [] r at n h = absurd (omega arith)
  topic_format-ok (plus name ∷ items) i (p ∷ left) r at n h =
      let (found, next, _) = drop_cons i params at in
      wildcard-Formats items i p left r found
        (λ o more. topic_format-ok items (i + 1) left o next (omega arith) more) h
  topic_format-ok (hash name ∷ items) i [] r at n h = absurd (omega arith)
  topic_format-ok (hash name ∷ items) i (p ∷ left) r at n h =
      let (found, next, _) = drop_cons i params at in
      wildcard-Formats items i p left r found
        (λ o more. topic_format-ok items (i + 1) left o next (omega arith) more) h
