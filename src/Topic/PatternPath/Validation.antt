-- ===== src/Topic/PatternPath/Validation.antt =====
-- What holds of every pattern that `new_from_string` of topic_pattern_path.rs accepts.
use mqtt_typed_client_next.Base.{
  ℕ, suc, false, ◌||◌, Option, none, some, List, [], ◌∷◌, length, Result, ok, ◌≡◌, refl, arith, All,
  ◌≢◌, inl, inr, Bool-cases, Option-cases, >>=-eq-ok, ok-injective,
}
use mqtt_typed_client_next.Base.Text.{Text, text_Eq, text_eq_iff, split, is_empty, is_blank}
use mqtt_typed_client_next.Base.Text.Split.{NoSlash, split-NoSlash, split-ne_nil}
use mqtt_typed_client_next.Topic.Item.{TopicPatternItem, str, plus, hash, param_name, try_from}
use mqtt_typed_client_next.Topic.Item.Parsed.{IsParsed, try_from-IsParsed}
use mqtt_typed_client_next.Topic.PatternPath.{
  is_hash, is_named, position, check_hash, check_names, parse_segments, validated,
}
use mqtt_typed_client_next.Topic.PatternPath.Matching.Decides.{HashIsLast}
use mqtt_typed_client_next.Topic.PatternPath.Format.RoundTrip.{LiteralNoSlash}

-- Every segment is the one that the text at its place stands for.
abbrev pub AllParsed : List Text → List TopicPatternItem → Type 0
AllParsed [] [] = Unit
AllParsed [] (i ∷ items) = ⊥
AllParsed (s ∷ parts) [] = ⊥
AllParsed (s ∷ parts) (i ∷ items) = IsParsed s i × AllParsed parts items

abbrev with_name : Option Text → List Text → List Text
with_name none ns = ns
with_name (some n) ns = n ∷ ns

abbrev pub names : List TopicPatternItem → List Text
names [] = []
names (i ∷ items) = with_name (param_name i) (names items)

-- No name stands twice.
abbrev pub Distinct : List Text → Type 0
Distinct [] = Unit
Distinct (n ∷ ns) = All (λ m. m ≢ n) ns × Distinct ns

parse_segments-AllParsed :
    (parts : List Text) (items : List TopicPatternItem)
    → parse_segments parts ≡ ok items
    → AllParsed parts items
unfolding parse_segments
parse_segments-AllParsed [] [] h = tt
parse_segments-AllParsed [] (i ∷ items) h = absurd (cc)
parse_segments-AllParsed (s ∷ parts) items h =
    let (i, ei, h') = >>=-eq-ok (try_from s) _ h in
    let (is, eis, e) = >>=-eq-ok (parse_segments parts) _ h' in
    rw (← ok-injective e) (try_from-IsParsed s i ei, parse_segments-AllParsed parts is eis)

-- A name that the loop accepts is new, and what it accepts later differs from it.
older :
    (n : Text) (seen ns : List Text)
    → All (λ m. is_named m (n ∷ seen) ≡ false) ns
    → All (λ m. m ≢ n) ns × All (λ m. is_named m seen ≡ false) ns
older n seen [] h = (tt, tt)
older n seen (m ∷ ns) (h, hs) =
    let (a, b) = older n seen ns hs in
    ((λ e. ground (arith, text_eq_iff n m), a), (ground arith, b))

-- The loop over `seen_names` passes only names that are new.
check_names-Distinct :
    (seen : List Text) (items : List TopicPatternItem)
    → check_names seen items ≡ ok tt
    → Distinct (names items) × All (λ n. is_named n seen ≡ false) (names items)
unfolding check_names
check_names-Distinct seen [] h = (tt, tt)
check_names-Distinct seen (i ∷ items) h = elim (Option-cases (param_name i)) [
  | inl e ↦ rw e (check_names-Distinct seen items (ground arith))
  | inr (n, e) ↦
      let new : is_named n seen ≡ false = ground arith in
      let (d, f) = check_names-Distinct (n ∷ seen) items (ground arith) in
      let (a, b) = older n seen (names items) f in rw e ((a, d), (new, b))
]

position-last :
    (items : List TopicPatternItem)
    → ((k : ℕ) → position is_hash items ≡ some k → suc k ≡ length items)
    → HashIsLast items
unfolding position
position-last [] h = tt
position-last (hash name ∷ []) h = (λ e. refl, tt)
position-last (hash name ∷ i ∷ items) h = absurd (omega (arith, h 0 refl))
position-last (str s ∷ items) h =
    (λ e. absurd (cc), position-last items (λ k e. omega (arith, h (suc k) (rw e))))
position-last (plus s ∷ items) h =
    (λ e. absurd (cc), position-last items (λ k e. omega (arith, h (suc k) (rw e))))

check_hash-HashIsLast :
    (pattern : Text) (items : List TopicPatternItem)
    → check_hash pattern items ≡ ok tt
    → HashIsLast items
unfolding check_hash
check_hash-HashIsLast pattern [] h = tt
check_hash-HashIsLast pattern (i ∷ items) h = position-last (i ∷ items) (λ k e. ground arith)

LiteralNoSlash-parsed :
    (s : Text) (i : TopicPatternItem) → IsParsed s i → NoSlash s → LiteralNoSlash i
LiteralNoSlash-parsed s (str t) (e, _, _, _) h = rw e h
LiteralNoSlash-parsed s (plus name) p h = tt
LiteralNoSlash-parsed s (hash name) p h = tt

literals_of :
    (parts : List Text) (items : List TopicPatternItem)
    → AllParsed parts items
    → All NoSlash parts
    → All LiteralNoSlash items
literals_of [] [] a h = tt
literals_of [] (i ∷ items) a h = absurd a
literals_of (s ∷ parts) [] a h = absurd a
literals_of (s ∷ parts) (i ∷ items) (p, a) (k, h) =
    (LiteralNoSlash-parsed s i p k, literals_of parts items a h)

pub record IsValidPattern (pattern : Text) (items : List TopicPatternItem) : Type 0 where
  pub parsed : AllParsed (split pattern) items
  pub distinct : Distinct (names items)
  pub hash_last : HashIsLast items
  pub literals : All LiteralNoSlash items
  pub filled : items ≢ []
  pub visible : (is_empty pattern || is_blank pattern) ≡ false

nonempty :
    (parts : List Text) (items : List TopicPatternItem)
    → AllParsed parts items
    → parts ≢ []
    → items ≢ []
nonempty [] items a h = absurd (h refl)
nonempty (s ∷ parts) [] a h = absurd a
nonempty (s ∷ parts) (i ∷ items) a h = cc

unit_ok {ℓ} : {E : Type ℓ} (r : Result (Unit {0}) E) (u : Unit {0}) → r ≡ ok u → r ≡ ok tt
unit_ok r u h = h

-- Of an accepted pattern: it is not blank; no name stands twice, `#` stands at the end only, and no
-- literal has a slash; and it has a segment for each part between the slashes, at least one. A
-- part `+` or `#` stands for that wildcard. A part between braces is a wildcard named by what is
-- left without the braces in front and the endings at the back, and not empty: a multi-level one if
-- it ends in `:#}`, else a single-level one. Any other part is a literal, without `+` and `#`.
pub validated-IsValidPattern :
    (pattern : Text) (items : List TopicPatternItem)
    → validated pattern ≡ ok items
    → IsValidPattern pattern items
unfolding validated
validated-IsValidPattern pattern items h =
    elim (Bool-cases (is_empty pattern || is_blank pattern)) [
      | inl blank ↦ absurd (ground arith)
      | inr visible ↦
          let (parts, parsed, h1) =
            >>=-eq-ok (parse_segments (split pattern)) _ (rw visible at h) in
          let (u, unique, h2) = >>=-eq-ok (check_names [] parts) _ h1 in
          let (v, last, h3) = >>=-eq-ok (check_hash pattern parts) _ h2 in
          let all = parse_segments-AllParsed (split pattern) parts parsed in
          rw (← ok-injective h3) (record {
            parsed = all;
            distinct = (check_names-Distinct [] parts (unit_ok _ u unique)).0;
            hash_last = check_hash-HashIsLast pattern parts (unit_ok _ v last);
            literals = literals_of (split pattern) parts all (split-NoSlash pattern);
            filled = nonempty (split pattern) parts all (split-ne_nil pattern);
            visible = visible;
          })
    ]
