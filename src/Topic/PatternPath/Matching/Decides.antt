-- ===== src/Topic/PatternPath/Matching/Decides.antt =====
-- The matcher of a pattern decides whether the pattern's filter matches the topic, and captures
-- the segments under its wildcards.
use mqtt_typed_client_next.Base.{
  ℕ, ◌+◌, true, false, Option, none, some, List, [], ◌∷◌, ◌++◌, length, get_elem?, drop, ltb, zero,
  suc, ◌≤◌, ◌<◌, Bool-cases, inl, inr, ok, err, ◌≡◌, refl, arith, map, append_assoc, append-nil,
  ◌∙◌, sym,
}
use native.Mathlib.Numerals.{towards_suc}
use mqtt_typed_client_next.Base.Text.{Text, text_eq, text_eq_iff}
use mqtt_typed_client_next.Topic.Item.{TopicPatternItem, str, plus, hash}
use mqtt_typed_client_next.Topic.Filter.{matches, filter_of}
use mqtt_typed_client_next.Topic.TopicMatch.{
  TopicPath, TopicMatch, Range, Substr, TopicMatchError, unexpected_end_of_pattern,
  unexpected_end_of_topic, segment_mismatch,
}
use mqtt_typed_client_next.Topic.PatternPath.{TopicPatternPath, is_hash}
use mqtt_typed_client_next.Topic.PatternPath.Matching.{match_loop, try_match_internal, push_named}

-- `#` stands at the end only.
abbrev pub HashIsLast : List TopicPatternItem → Type 0
HashIsLast [] = Unit
HashIsLast (item ∷ rest) = (is_hash item ≡ true → rest ≡ []) × HashIsLast rest

-- The ranges of the wildcards of a pattern that starts at segment `i` of a topic of `n` segments.
abbrev pub ranges : List TopicPatternItem → ℕ → ℕ → List Range
ranges [] i n = []
ranges (str _ ∷ rest) i n = ranges rest (i + 1) n
ranges (plus _ ∷ rest) i n = (i, i + 1) ∷ ranges rest (i + 1) n
ranges (hash _ ∷ rest) i n = (i, n) ∷ []

abbrev pub named_ranges : List TopicPatternItem → ℕ → ℕ → List (Text × Range)
named_ranges [] i n = []
named_ranges (str _ ∷ rest) i n = named_ranges rest (i + 1) n
named_ranges (plus name ∷ rest) i n = push_named name (i, i + 1) [] ++ named_ranges rest (i + 1) n
named_ranges (hash name ∷ rest) i n = push_named name (i, n) []

abbrev pub text_list : List Substr → List Text
text_list = map (λ s. s.text)

pub drop_nil {ℓ} :
    {A : Type ℓ} (i : ℕ) (xs : List A) → drop i xs ≡ [] → (get_elem? xs i ≡ none) × (length xs ≤ i)
drop_nil i [] h = (refl, omega arith)
drop_nil zero (x ∷ xs) h = absurd (cc)
drop_nil (suc i) (x ∷ xs) h = let (a, b) = drop_nil i xs h in (a, omega (arith, b))

pub drop_cons {ℓ} :
    {A : Type ℓ} (i : ℕ) (xs : List A) {a : A} {rest : List A}
    → drop i xs ≡ a ∷ rest
    → (get_elem? xs i ≡ some a) × (drop (i + 1) xs ≡ rest) × (i < length xs)
drop_cons zero [] h = absurd (cc)
drop_cons (suc i) [] h = absurd (cc)
drop_cons zero (x ∷ xs) h = (cc, cc, omega arith)
drop_cons (suc i) (x ∷ xs) h =
    let (a, b, c) = drop_cons i xs h in (a, simp towards_suc (simp towards_suc at b), omega arith)

module _ (topic : TopicPath) (items : List TopicPatternItem) (i : ℕ) (ps : List Range)
    (ns : List (Text × Range)) where
  -- One round of the loop, for each kind of segment that goes on.
  str_step :
      (t : Text) (s : Substr)
      → get_elem? topic.segments i ≡ some s
      → text_eq t s.text ≡ true
      → match_loop topic (str t ∷ items) i ps ns ≡ match_loop topic items (i + 1) ps ns
  unfolding match_loop
  str_step t s found same =
      rw (found, match_loop, (text_eq_iff s.text t).1 (sym ((text_eq_iff t s.text).0 same)))

  str_stop :
      (t : Text) (s : Substr)
      → get_elem? topic.segments i ≡ some s
      → text_eq t s.text ≡ false
      → match_loop topic (str t ∷ items) i ps ns ≡ err (segment_mismatch t s.text i)
  unfolding match_loop
  str_stop t s found differs =
      let other : text_eq s.text t ≡ false =
        ground (arith, text_eq_iff s.text t, text_eq_iff t s.text) in
      rw (found, match_loop, other)

  plus_step :
      (name : Option Text) (s : Substr)
      → get_elem? topic.segments i ≡ some s
      → match_loop topic (plus name ∷ items) i ps ns
        ≡ match_loop topic items (i + 1) (ps ++ (i, i + 1) ∷ []) (push_named name (i, i + 1) ns)
  unfolding match_loop
  plus_step name s found = rw (found, match_loop)

module _ (topic : TopicPath) where
  -- Where the filter of the rest of the pattern fails on the rest of the topic, so does the loop.
  match_loop-err :
      (items : List TopicPatternItem) (i : ℕ) (rest : List Substr) (ps : List Range)
      (ns : List (Text × Range))
      → drop i topic.segments ≡ rest
      → matches (filter_of items) (text_list rest) ≡ false
      → (e : TopicMatchError) × (match_loop topic items i ps ns ≡ err e)
  unfolding match_loop
  match_loop-err [] i [] ps ns at h = absurd (cc)
  match_loop-err [] i (s ∷ rest) ps ns at h =
      let (_, _, more) = drop_cons i topic.segments at in (unexpected_end_of_pattern, ground arith)
  match_loop-err (str t ∷ items) i [] ps ns at h =
      let (gone, _) = drop_nil i topic.segments at in
      (unexpected_end_of_topic, rw (gone, match_loop))
  match_loop-err (str t ∷ items) i (s ∷ rest) ps ns at h =
      let (found, next, _) = drop_cons i topic.segments at in
      elim (Bool-cases (text_eq t s.text)) [
        | inl same ↦
            let (e, run) = match_loop-err items (i + 1) rest ps ns next (ground arith) in
            (e, str_step topic items i ps ns t s found same ∙ run)
        | inr differs ↦
            (segment_mismatch t s.text i, str_stop topic items i ps ns t s found differs)
      ]
  match_loop-err (plus name ∷ items) i [] ps ns at h =
      let (gone, _) = drop_nil i topic.segments at in
      (unexpected_end_of_topic, rw (gone, match_loop))
  match_loop-err (plus name ∷ items) i (s ∷ rest) ps ns at h =
      let (found, next, _) = drop_cons i topic.segments at in
      let (e, run) =
        match_loop-err items (i + 1) rest (ps ++ (i, i + 1) ∷ []) (push_named name (i, i + 1) ns)
          next h in
      (e, plus_step topic items i ps ns name s found ∙ run)
  match_loop-err (hash name ∷ items) i rest ps ns at h = absurd (cc)

  -- The match that the loop returns where the filter matches.
  abbrev captured : List TopicPatternItem → ℕ → List Range → List (Text × Range) → TopicMatch
  captured items i ps ns =
      let n = length topic.segments in
      record {
        topic = topic;
        params = ps ++ ranges items i n;
        named_params = ns ++ named_ranges items i n;
      }

  push_named_lem :
      (name : Option Text) (r : Range) (ns : List (Text × Range)) (more : List (Text × Range))
      → push_named name r ns ++ more ≡ ns ++ (push_named name r [] ++ more)
  push_named_lem none r ns more = refl
  push_named_lem (some n) r ns more = append_assoc ns _ more

  push_named_nil :
      (name : Option Text) (r : Range) (ns : List (Text × Range))
      → push_named name r ns ≡ ns ++ push_named name r []
  push_named_nil none r ns = sym (append-nil ns)
  push_named_nil (some n) r ns = refl

  match_loop-ok :
      (items : List TopicPatternItem) (i : ℕ) (rest : List Substr) (ps : List Range)
      (ns : List (Text × Range))
      → HashIsLast items
      → drop i topic.segments ≡ rest
      → matches (filter_of items) (text_list rest) ≡ true
      → match_loop topic items i ps ns ≡ ok (captured items i ps ns)
  unfolding match_loop
  match_loop-ok [] i [] ps ns last at h =
      let (_, end) = drop_nil i topic.segments at in
      let past : ltb i (length topic.segments) ≡ false = ground arith in
      rw (past, append-nil ps, append-nil ns)
  match_loop-ok [] i (s ∷ rest) ps ns last at h = absurd (cc)
  match_loop-ok (str t ∷ items) i [] ps ns last at h = absurd (cc)
  match_loop-ok (str t ∷ items) i (s ∷ rest) ps ns last at h =
      let (found, next, _) = drop_cons i topic.segments at in
      str_step topic items i ps ns t s found (ground arith)
      ∙ match_loop-ok items (i + 1) rest ps ns last.1 next (ground arith)
  match_loop-ok (plus name ∷ items) i [] ps ns last at h = absurd (cc)
  match_loop-ok (plus name ∷ items) i (s ∷ rest) ps ns last at h =
      let (found, next, _) = drop_cons i topic.segments at in
      plus_step topic items i ps ns name s found
      ∙ match_loop-ok items (i + 1) rest (ps ++ (i, i + 1) ∷ []) (push_named name (i, i + 1) ns)
          last.1 next h
      ∙ rw (append_assoc ps ((i, i + 1) ∷ []), push_named_lem name (i, i + 1) ns)
  match_loop-ok (hash name ∷ items) i rest ps ns last at h =
      rw (last.0 refl, push_named_nil name (i, length topic.segments) ns)

-- The match that a pattern with the segments `items` makes of a topic.
abbrev pub match_of : List TopicPatternItem → TopicPath → TopicMatch
match_of items topic =
    let n = length topic.segments in
    record { topic = topic; params = ranges items 0 n; named_params = named_ranges items 0 n }

module _ {C : Type 0} (p : TopicPatternPath C) (topic : TopicPath) where
  -- A pattern with `#` at its end only matches every topic that its filter matches, and captures
  -- the segments of its wildcards in order.
  pub try_match_internal-ok :
      HashIsLast p.segments
      → matches (filter_of p.segments) (text_list topic.segments) ≡ true
      → try_match_internal p topic ≡ ok (match_of p.segments topic)
  unfolding try_match_internal
  try_match_internal-ok last h = match_loop-ok topic p.segments 0 topic.segments [] [] last refl h

  -- A topic that the filter of the pattern does not match gives an error, whatever the pattern.
  pub try_match_internal-err :
      matches (filter_of p.segments) (text_list topic.segments) ≡ false
      → (e : TopicMatchError) × (try_match_internal p topic ≡ err e)
  unfolding try_match_internal
  try_match_internal-err h = match_loop-err topic p.segments 0 topic.segments [] [] refl h
