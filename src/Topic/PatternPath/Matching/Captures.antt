-- ===== src/Topic/PatternPath/Matching/Captures.antt =====
-- What `get_param` returns for a match: the text of the captured segments.
use mqtt_typed_client_next.Base.{
  ℕ, zero, suc, ◌+◌, ◌-◌, ◌≤◌, ◌<◌, true, false, none, some, List, [], ◌∷◌, ◌++◌, length, get_elem?,
  take, drop, ok, ◌≡◌, refl, arith, ap, ◌∙◌, sym, leb, nat_eq, length-append, Option-cases, inl,
  inr,
}
use mathlib.Core.Option.{some-injective}
use mqtt_typed_client_next.Base.Text.{Text, split, join}
use mqtt_typed_client_next.Base.Text.Split.{join-split, split-ne_nil}
use mqtt_typed_client_next.Topic.Item.{TopicPatternItem, str, plus, hash}
use mqtt_typed_client_next.Topic.Filter.{matches, filter_of}
use mqtt_typed_client_next.Topic.TopicMatch.{
  TopicPath, TopicMatch, Range, Substr, spans, new, get_param, get_param_range, substr,
}
use mqtt_typed_client_next.Topic.PatternPath.Matching.Decides.{
  ranges, named_ranges, match_of, text_list, drop_nil, drop_cons,
}

-- The texts that the wildcards of a pattern stand for in a topic that it matches.
abbrev pub captures : List TopicPatternItem → List Text → List Text
captures [] topic = []
captures (str _ ∷ items) [] = []
captures (str _ ∷ items) (s ∷ topic) = captures items topic
captures (plus _ ∷ items) [] = []
captures (plus _ ∷ items) (s ∷ topic) = s ∷ captures items topic
captures (hash _ ∷ items) topic = join topic ∷ []

drop-append {ℓ} :
    {A : Type ℓ} (n k : ℕ) (xs ys : List A) → n ≡ length xs + k → drop n (xs ++ ys) ≡ drop k ys
drop-append n k [] ys h = let e : n ≡ k = omega arith in rw e
drop-append zero k (x ∷ xs) ys h = absurd (omega arith)
drop-append (suc n) k (x ∷ xs) ys h = drop-append n k xs ys (omega arith)

take-all {ℓ} : {A : Type ℓ} (n : ℕ) (xs : List A) → length xs ≤ n → take n xs ≡ xs
take-all zero [] h = refl
take-all zero (x ∷ xs) h = absurd (omega arith)
take-all (suc n) [] h = refl
take-all (suc n) (x ∷ xs) h = ap (λ (r : List _). x ∷ r) (take-all n xs (omega arith))

length-drop {ℓ} : {A : Type ℓ} (n : ℕ) (xs : List A) → length (drop n xs) ≡ length xs - n
length-drop zero xs = omega arith
length-drop (suc n) [] = omega arith
length-drop (suc n) (x ∷ xs) = omega (arith, length-drop n xs)

text_list-spans : (i : ℕ) (xs : List Text) → text_list (spans i xs) ≡ xs
text_list-spans i [] = refl
text_list-spans i (x ∷ xs) = ap (λ (r : List Text). x ∷ r) (text_list-spans (i + length x + 1) xs)

length-spans : (i : ℕ) (xs : List Text) → length (spans i xs) ≡ length xs
length-spans i [] = refl
length-spans i (x ∷ xs) = ap suc (length-spans (i + length x + 1) xs)

-- Where the segments `xs` begin at `a` in the path, the last of them ends where their join ends.
span_end :
    (a : ℕ) (x : Text) (xs : List Text)
    → (s : Substr) × (get_elem? (spans a (x ∷ xs)) (length xs) ≡ some s)
      × (s.start + length s.text ≡ a + length (join (x ∷ xs)))
unfolding join
span_end a x [] = (record { start = a; text = x }, refl, refl)
span_end a x (y ∷ ys) =
    let (s, at, end) = span_end (a + length x + 1) y ys in
    (s, at, omega (arith, length-append {0} x (b'/' ∷ join (y ∷ ys))))

-- Where they begin at `a`, segment `i` begins where the join of the segments from `i` on begins.
span_start :
    (a i : ℕ) (xs : List Text)
    → i < length xs
    → (s : Substr) × (k : ℕ) × (get_elem? (spans a xs) i ≡ some s)
      × (s.start ≡ a + k)
      × (drop k (join xs) ≡ join (drop i xs))
unfolding join
span_start a i [] h = absurd (omega arith)
span_start a zero (x ∷ xs) h = (record { start = a; text = x }, 0, refl, omega arith, refl)
span_start a (suc i) (x ∷ []) h = absurd (omega arith)
span_start a (suc i) (x ∷ y ∷ ys) h =
    let (s, k, at, start, rest) = span_start (a + length x + 1) i (y ∷ ys) (omega arith) in
    (
      s,
      length x + suc k,
      at,
      omega arith,
      drop-append (length x + suc k) (suc k) x (b'/' ∷ join (y ∷ ys)) refl ∙ rest,
    )

get_elem?-spans :
    (a i : ℕ) (xs : List Text) {t : Text}
    → get_elem? xs i ≡ some t
    → (s : Substr) × (get_elem? (spans a xs) i ≡ some s) × (s.text ≡ t)
get_elem?-spans a i [] h = absurd (cc)
get_elem?-spans a zero (x ∷ xs) h = (record { start = a; text = x }, refl, cc)
get_elem?-spans a (suc i) (x ∷ xs) h = get_elem?-spans (a + length x + 1) i xs h

-- A topic by its segments, of which there is always one.
abbrev pub joined : Text → List Text → TopicPath
joined x xs = record { path = join (x ∷ xs); segments = spans 0 (x ∷ xs) }

module _ (x : Text) (xs : List Text) (ps : List Range) (ns : List (Text × Range)) where
  abbrev found : TopicMatch
  found = record { topic = joined x xs; params = ps; named_params = ns }

  -- A range of one segment is its text.
  pub single_range :
      (i : ℕ) (t : Text) → get_elem? (x ∷ xs) i ≡ some t → get_param_range found (i, i + 1) ≡ ok t
  unfolding get_param_range
  single_range i t h =
      let (s, at, text) = get_elem?-spans 0 i (x ∷ xs) h in
      let some_left : leb (i + 1) i ≡ false = ground arith in
      let one : nat_eq (i + 1 - i) 1 ≡ true = ground arith in rw (some_left, one, at, text)

  -- A longer range is the slice of the path from its first segment to its last.
  slice_range :
      (i n : ℕ) (first last : Substr)
      → i + 1 < n
      → get_elem? (spans 0 (x ∷ xs)) i ≡ some first
      → get_elem? (spans 0 (x ∷ xs)) (n - 1) ≡ some last
      → get_param_range found (i, n)
        ≡ ok (substr (join (x ∷ xs)) first.start (last.start + length last.text))
  unfolding get_param_range
  slice_range i n first last more at_first at_last = ground arith

  -- A range to the end is the join of the segments in it.
  open_range :
      (i n : ℕ) (rest : List Text)
      → n ≡ length (x ∷ xs)
      → drop i (x ∷ xs) ≡ rest
      → get_param_range found (i, n) ≡ ok (join rest)
  unfolding get_param_range
  open_range i n [] e h =
      let (_, past) = drop_nil i (x ∷ xs) h in
      let none_left : leb n i ≡ true = ground arith in rw none_left (unfold join in refl)
  open_range i n (t ∷ []) e h =
      let (at, none_after, below) = drop_cons i (x ∷ xs) h in
      let (_, past) = drop_nil (i + 1) (x ∷ xs) none_after in
      let stop : n ≡ i + 1 = omega arith in rw stop (unfold join in single_range i t at)
  open_range i n (t ∷ u ∷ rest) e h =
      let (_, next, below) = drop_cons i (x ∷ xs) h in
      let (_, _, more) = drop_cons (i + 1) (x ∷ xs) next in
      let (first, k, at_first, start, from) = span_start 0 i (x ∷ xs) (omega arith) in
      let (last, at_last, end) = span_end 0 x xs in
      let last_index : n - 1 ≡ length xs = omega arith in
      let start_k : first.start ≡ k = omega arith in
      let all : Text = join (x ∷ xs) in
      slice_range i n first last (omega arith) at_first (rw last_index at_last)
      ∙ rw (start_k, end)
          (ap ok (
            take-all (0 + length all - k) (drop k all) (omega (arith, length-drop k all))
            ∙ from
            ∙ ap join h))

  -- The text of the `j`th range of a pattern is the `j`th of what its wildcards stand for.
  range_text :
      (items : List TopicPatternItem) (i j : ℕ) (rest : List Text) (r : Range)
      → drop i (x ∷ xs) ≡ rest
      → matches (filter_of items) rest ≡ true
      → get_elem? (ranges items i (length (spans 0 (x ∷ xs)))) j ≡ some r
      → (t : Text) × (get_param_range found r ≡ ok t) × (get_elem? (captures items rest) j ≡ some t)
  range_text [] i j rest r at h e = absurd (cc)
  range_text (str s ∷ items) i j [] r at h e = absurd (cc)
  range_text (str s ∷ items) i j (t ∷ rest) r at h e =
      let (_, next, _) = drop_cons i (x ∷ xs) at in
      range_text items (i + 1) j rest r next (ground arith) e
  range_text (plus name ∷ items) i j [] r at h e = absurd (cc)
  range_text (plus name ∷ items) i zero (t ∷ rest) r at h e =
      let (here, _, _) = drop_cons i (x ∷ xs) at in
      (t, rw (← some-injective (i, i + 1) r e) (single_range i t here), refl)
  range_text (plus name ∷ items) i (suc j) (t ∷ rest) r at h e =
      let (_, next, _) = drop_cons i (x ∷ xs) at in range_text items (i + 1) j rest r next h e
  range_text (hash name ∷ items) i zero rest r at h e = (
    join rest,
    rw (← some-injective (i, length (spans 0 (x ∷ xs))) r e)
        (open_range i (length (spans 0 (x ∷ xs))) rest (length-spans 0 (x ∷ xs)) at),
    refl,
  )
  range_text (hash name ∷ items) i (suc j) rest r at h e = absurd (cc)

  range_none :
      (items : List TopicPatternItem) (i j n : ℕ) (rest : List Text)
      → matches (filter_of items) rest ≡ true
      → get_elem? (ranges items i n) j ≡ none
      → get_elem? (captures items rest) j ≡ none
  range_none [] i j n rest h e = refl
  range_none (str s ∷ items) i j n [] h e = refl
  range_none (str s ∷ items) i j n (t ∷ rest) h e =
      range_none items (i + 1) j n rest (ground arith) e
  range_none (plus name ∷ items) i j n [] h e = refl
  range_none (plus name ∷ items) i zero n (t ∷ rest) h e = absurd (cc)
  range_none (plus name ∷ items) i (suc j) n (t ∷ rest) h e = range_none items (i + 1) j n rest h e
  range_none (hash name ∷ items) i zero n rest h e = absurd (cc)
  range_none (hash name ∷ items) i (suc j) n rest h e = refl

get_param-joined :
    (items : List TopicPatternItem) (x : Text) (xs : List Text) (j : ℕ)
    → matches (filter_of items) (x ∷ xs) ≡ true
    → get_param (match_of items (joined x xs)) j ≡ ok (get_elem? (captures items (x ∷ xs)) j)
unfolding get_param
get_param-joined items x xs j h =
    let n = length (spans 0 (x ∷ xs)) in
    let ps = ranges items 0 n in
    elim (Option-cases (get_elem? ps j)) [
      | inl e ↦ rw (e, range_none x xs ps (named_ranges items 0 n) items 0 j n (x ∷ xs) h e)
      | inr (r, e) ↦
          let (t, run, at) =
            range_text x xs ps (named_ranges items 0 n) items 0 j (x ∷ xs) r refl h e in
          rw (e, run, at)
    ]

new-joined : (path x : Text) (xs : List Text) → split path ≡ x ∷ xs → new path ≡ joined x xs
unfolding new
new-joined path x xs e =
    let whole : path ≡ join (x ∷ xs) = sym (join-split path) ∙ ap join e in
    λ i. record { path = whole i; segments = spans 0 (e i) }

pub text_list-new : (path : Text) → text_list (new path).segments ≡ split path
unfolding new
text_list-new path = text_list-spans 0 (split path)

-- A parameter of a match is the text under its wildcard, a `#` takes the joined rest of the topic,
-- and no lookup of a parameter, in range or not, panics.
pub get_param-match_of :
    (items : List TopicPatternItem) (path : Text) (j : ℕ)
    → matches (filter_of items) (split path) ≡ true
    → get_param (match_of items (new path)) j ≡ ok (get_elem? (captures items (split path)) j)
get_param-match_of items path j h = go (split path) refl
  where
    go :
        (l : List Text)
        → split path ≡ l
        → get_param (match_of items (new path)) j ≡ ok (get_elem? (captures items (split path)) j)
    go [] e = absurd (split-ne_nil path e)
    go (x ∷ xs) e = rw (new-joined path x xs e, e) (get_param-joined items x xs j (rw e at h))
