-- ===== src/Topic/PatternPath/Format/RoundTrip.antt =====
-- Formatting puts the parameters in the places of the wildcards, and matching takes them out.
use mqtt_typed_client_next.Base.{
  ℕ, suc, ◌+◌, Bool, true, false, Option, some, List, [], ◌∷◌, ◌++◌, map, length, get_elem?, nat_eq,
  ok, err, failed, ◌≡◌, refl, arith, ap, sym, ◌∙◌, append_assoc, append-nil, All, drop, ◌≢◌,
}
use mqtt_typed_client_next.Base.Text.{Text, split, join, text_eq_iff}
use mqtt_typed_client_next.Base.Text.Split.{NoSlash, split-join}
use mqtt_typed_client_next.Topic.Item.{TopicPatternItem, str, plus, hash, is_wildcard}
use mqtt_typed_client_next.Topic.Filter.{matches, filter_of}
use mqtt_typed_client_next.Topic.TopicMatch.{TopicMatch, new, get_param}
use mqtt_typed_client_next.Topic.PatternPath.{TopicPatternPath, is_hash, parameter_count_mismatch}
use mqtt_typed_client_next.Topic.PatternPath.Format.{
  wildcard_count, format_loop, format_topic, separated,
}
use mqtt_typed_client_next.Topic.PatternPath.Matching.{try_match_internal}
use mqtt_typed_client_next.Topic.PatternPath.Matching.Decides.{
  HashIsLast, match_of, try_match_internal-ok, drop_cons,
}
use mqtt_typed_client_next.Topic.PatternPath.Matching.Captures.{
  captures, get_param-match_of, text_list-new,
}

abbrev pub shown : List Text → List (Option Text)
shown = map some

-- The segments of the topic: each wildcard is replaced by the next parameter.
abbrev pub filled : List TopicPatternItem → List Text → List Text
filled [] params = []
filled (str s ∷ rest) params = s ∷ filled rest params
filled (plus _ ∷ rest) [] = []
filled (plus _ ∷ rest) (t ∷ params) = t ∷ filled rest params
filled (hash _ ∷ rest) params = []

abbrev pub NoHash : List TopicPatternItem → Type 0
NoHash = All (λ item. is_hash item ≡ false)

-- The text that the loop adds for the segments `xs`.
abbrev added : Bool → List Text → Text
added first [] = []
added true (x ∷ xs) = x ++ added false xs
added false (x ∷ xs) = b'/' ∷ (x ++ added false xs)

added-join : (x : Text) (xs : List Text) → added true (x ∷ xs) ≡ join (x ∷ xs)
unfolding join
added-join x [] = append-nil x
added-join x (y ∷ ys) = ap (λ (r : Text). x ++ b'/' ∷ r) (added-join y ys)

separated_lem :
    (first : Bool) (result x : Text) (xs : List Text)
    → (separated first result ++ x) ++ added false xs ≡ result ++ added first (x ∷ xs)
separated_lem true result x xs = append_assoc result x (added false xs)
separated_lem false result x xs = simp append_assoc

format_loop_lem :
    (first : Bool) (items : List TopicPatternItem) (all : List (Option Text)) (i : ℕ)
    (params : List Text) (result : Text)
    → NoHash items
    → drop i all ≡ shown params
    → length params ≡ wildcard_count items
    → format_loop first items all i result ≡ ok (result ++ added first (filled items params))
unfolding format_loop wildcard_count is_wildcard
format_loop_lem first [] all i params result h at n = rw (append-nil result)
format_loop_lem first (str s ∷ items) all i params result (_, h) at n =
    format_loop_lem false items all i params (separated first result ++ s) h at n
    ∙ ap ok (separated_lem first result s (filled items params))
format_loop_lem first (plus name ∷ items) all i [] result (_, h) at n = absurd (omega arith)
format_loop_lem first (plus name ∷ items) all i (t ∷ params) result (_, h) at n =
    let (found, next, _) = drop_cons i all at in
    rw (found, format_loop)
      (format_loop_lem false items all (i + 1) params (separated first result ++ t) h next
          (omega arith)
        ∙ ap ok (separated_lem first result t (filled items params)))
format_loop_lem first (hash name ∷ items) all i params result (h, _) at n = absurd (cc)

length-shown : (params : List Text) → length (shown params) ≡ length params
length-shown [] = refl
length-shown (t ∷ params) = ap suc (length-shown params)

module _ {C : Type 0} (p : TopicPatternPath C) where
  -- A number of parameters other than the number of wildcards is refused with both numbers.
  pub format_topic-count :
      (params : List (Option Text))
      → length params ≢ wildcard_count p.segments
      → format_topic p params
        ≡ err (failed (parameter_count_mismatch (wildcard_count p.segments) (length params)))
  unfolding format_topic
  format_topic-count params h = ground arith

  module _ (x : Text) (xs params : List Text) (no_hash : NoHash p.segments)
      (count : length params ≡ wildcard_count p.segments)
      (shape : filled p.segments params ≡ x ∷ xs) where
    -- With as many parameters as wildcards, and no `#`, the topic is the join of the segments with
    -- the parameters filled in.
    pub format_topic-ok : format_topic p (shown params) ≡ ok (join (x ∷ xs))
    unfolding format_topic
    format_topic-ok =
        let same : nat_eq (length (shown params)) (wildcard_count p.segments) ≡ true =
          ground (arith, length-shown params) in
        rw same (
          format_loop_lem true p.segments (shown params) 0 params [] no_hash refl count
          ∙ ap ok (ap (added true) shape ∙ added-join x xs))

-- No literal of the pattern has a slash: the parser splits there.
abbrev pub LiteralNoSlash : TopicPatternItem → Type 0
LiteralNoSlash (str s) = NoSlash s
LiteralNoSlash (plus _) = Unit
LiteralNoSlash (hash _) = Unit

NoHash→HashIsLast : (items : List TopicPatternItem) → NoHash items → HashIsLast items
NoHash→HashIsLast [] h = tt
NoHash→HashIsLast (item ∷ items) (h, hs) = (λ e. absurd (cc), NoHash→HashIsLast items hs)

-- The filled segments match the pattern, give the parameters back, and have no slash.
filled-matches :
    (items : List TopicPatternItem) (params : List Text)
    → NoHash items
    → length params ≡ wildcard_count items
    → (matches (filter_of items) (filled items params) ≡ true)
      × (captures items (filled items params) ≡ params)
unfolding wildcard_count is_wildcard
filled-matches [] [] h n = (refl, refl)
filled-matches [] (t ∷ params) h n = absurd (omega arith)
filled-matches (str s ∷ items) params (_, h) n =
    let (m, c) = filled-matches items params h n in (ground (arith, text_eq_iff s s), c)
filled-matches (plus name ∷ items) [] (_, h) n = absurd (omega arith)
filled-matches (plus name ∷ items) (t ∷ params) (_, h) n =
    let (m, c) = filled-matches items params h (omega arith) in (m, ap (λ (r : List Text). t ∷ r) c)
filled-matches (hash name ∷ items) params (h, _) n = absurd (cc)

filled-NoSlash :
    (items : List TopicPatternItem) (params : List Text)
    → All LiteralNoSlash items
    → All NoSlash params
    → All NoSlash (filled items params)
filled-NoSlash [] params h k = tt
filled-NoSlash (str s ∷ items) params (l, h) k = (l, filled-NoSlash items params h k)
filled-NoSlash (plus name ∷ items) [] (_, h) k = tt
filled-NoSlash (plus name ∷ items) (t ∷ params) (_, h) (q, k) = (q, filled-NoSlash items params h k)
filled-NoSlash (hash name ∷ items) params h k = tt

pub filled-ne_nil :
    (items : List TopicPatternItem) (params : List Text)
    → items ≢ []
    → NoHash items
    → length params ≡ wildcard_count items
    → filled items params ≢ []
unfolding wildcard_count is_wildcard
filled-ne_nil [] params h k n = absurd (h refl)
filled-ne_nil (str s ∷ items) params h k n = cc
filled-ne_nil (plus name ∷ items) [] h k n = absurd (omega arith)
filled-ne_nil (plus name ∷ items) (t ∷ params) h k n = cc
filled-ne_nil (hash name ∷ items) params h (k, _) n = absurd (cc)

module _ {C : Type 0} (p : TopicPatternPath C) (params : List Text) where
  -- Let a pattern have segments, none of them `#`, whose literals have no slash. A topic that is
  -- formatted from as many parameters as there are wildcards, none with a slash, is matched by the
  -- pattern, and every parameter is read back from the match.
  pub match-format :
      p.segments ≢ []
      → NoHash p.segments
      → All LiteralNoSlash p.segments
      → length params ≡ wildcard_count p.segments
      → All NoSlash params
      → (topic : Text) × (m : TopicMatch) × (format_topic p (shown params) ≡ ok topic)
        × (try_match_internal p (new topic) ≡ ok m)
        × ((j : ℕ) → get_param m j ≡ ok (get_elem? params j))
  match-format filled_up no_hash literals count slashes = go (filled p.segments params) refl
    where
      go :
          (l : List Text)
          → filled p.segments params ≡ l
          → (topic : Text) × (m : TopicMatch) × (format_topic p (shown params) ≡ ok topic)
            × (try_match_internal p (new topic) ≡ ok m)
            × ((j : ℕ) → get_param m j ≡ ok (get_elem? params j))
      go [] e = absurd (filled-ne_nil p.segments params filled_up no_hash count e)
      go (x ∷ xs) e =
          let (m, c) = filled-matches p.segments params no_hash count in
          let parts : split (join (x ∷ xs)) ≡ x ∷ xs =
            split-join x xs (rw e at (filled-NoSlash p.segments params literals slashes)) in
          let matched : matches (filter_of p.segments) (split (join (x ∷ xs))) ≡ true =
            rw (parts, ← e) m in
          (
            join (x ∷ xs),
            match_of p.segments (new (join (x ∷ xs))),
            format_topic-ok p x xs params no_hash count e,
            try_match_internal-ok p (new (join (x ∷ xs))) (NoHash→HashIsLast p.segments no_hash)
                (rw text_list-new matched),
            λ j. get_param-match_of p.segments (join (x ∷ xs)) j matched ∙ rw (parts, ← e, c),
          )

  -- That topic is the join of the pattern's segments with the parameters filled in.
  pub format_topic-filled :
      p.segments ≢ []
      → NoHash p.segments
      → length params ≡ wildcard_count p.segments
      → format_topic p (shown params) ≡ ok (join (filled p.segments params))
  format_topic-filled filled_up no_hash count = go (filled p.segments params) refl
    where
      go :
          (l : List Text)
          → filled p.segments params ≡ l
          → format_topic p (shown params) ≡ ok (join (filled p.segments params))
      go [] e = absurd (filled-ne_nil p.segments params filled_up no_hash count e)
      go (x ∷ xs) e = format_topic-ok p x xs params no_hash count e ∙ ap (λ l. ok (join l)) (sym e)
