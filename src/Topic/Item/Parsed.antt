-- ===== src/Topic/Item/Parsed.antt =====
-- What the parser of topic_pattern_item.rs makes of a text, described without it.
use mqtt_typed_client_next.Base.{
  ℕ, ◌≡◌, ◌≢◌, refl, ap, sym, ◌∙◌, some, none, ok, true, false, ◌&&◌, [], ◌∷◌, ◌++◌, arith, reverse,
}
use mqtt_typed_client_next.Base.Text.{
  Text, codes, is_empty, starts_with, ends_with, trim_start_matches, trim_end_matches, contains,
  text_eq_iff,
}
use mqtt_typed_client_next.Base.Text.Trimmed.{
  repeated, trim_start_matches-repeated, trim_end_matches-repeated, starts_with-front,
}
use mqtt_typed_client_next.Topic.Item.{TopicPatternItem, str, plus, hash, try_from, named}

-- `name` is what is left of a text between braces, where all braces in front and all endings at
-- the back are taken off.
abbrev pub IsNamed : Text → Text → Text → Type 0
IsNamed ending item name =
    (j : ℕ) × (k : ℕ) × (item ≡ repeated j (codes "{") ++ (name ++ repeated k ending))
    × (name ≢ [])
    × (starts_with name (codes "{") ≡ false)
    × (ends_with name ending ≡ false)
    × (starts_with item (codes "{") ≡ true)
    × (ends_with item ending ≡ true)

-- A literal is the text itself, without a wildcard character and not between braces; an unnamed
-- wildcard is written `+` or `#`; `{name:#}` is a multi-level parameter and any other `{name}` a
-- single-level one.
abbrev pub IsParsed : Text → TopicPatternItem → Type 0
IsParsed item (str s) =
    (s ≡ item)
    × (contains s b'+' ≡ false)
    × (contains s b'#' ≡ false)
    × ((starts_with s (codes "{") && ends_with s (codes "}")) ≡ false)
IsParsed item (plus none) = item ≡ codes "+"
IsParsed item (hash none) = item ≡ codes "#"
IsParsed item (plus (some n)) = IsNamed (codes "}") item n × (ends_with item (codes ":#}") ≡ false)
IsParsed item (hash (some n)) = IsNamed (codes ":#}") item n

abbrev trimmed : Text → Text → Text
trimmed item ending = trim_end_matches (trim_start_matches item (codes "{")) ending

IsNamed-trimmed :
    (ending : Text) (q : ℕ) (qs item name : Text)
    → reverse ending ≡ q ∷ qs
    → trimmed item ending ≡ name
    → is_empty name ≡ false
    → starts_with item (codes "{") ≡ true
    → ends_with item ending ≡ true
    → IsNamed ending item name
IsNamed-trimmed ending q qs item name e same filled front back =
    let inner = trim_start_matches item (codes "{") in
    let (j, whole, no_brace) = trim_start_matches-repeated item b'{' [] in
    let (k, parts, no_end) = trim_end_matches-repeated inner ending q qs e in
    let parts' : inner ≡ name ++ repeated k ending =
      parts ∙ ap (λ n. n ++ repeated k ending) same in
    (
      j,
      k,
      whole ∙ ap (λ t. repeated j (codes "{") ++ t) parts',
      (λ none_left. ground arith),
      starts_with-front name (repeated k ending) b'{'
          (ap (λ t. starts_with t (codes "{")) (sym parts') ∙ no_brace),
      ap (λ t. ends_with t ending) (sym same) ∙ no_end,
      front,
      back,
    )

plus-trimmed :
    (s n : Text)
    → try_from s ≡ ok (plus (some n))
    → (trimmed s (codes "}") ≡ n)
      × (is_empty n ≡ false)
      × (starts_with s (codes "{") ≡ true)
      × (ends_with s (codes "}") ≡ true)
      × (ends_with s (codes ":#}") ≡ false)
unfolding try_from named
plus-trimmed s n h = ground arith

hash-trimmed :
    (s n : Text)
    → try_from s ≡ ok (hash (some n))
    → (trimmed s (codes ":#}") ≡ n)
      × (is_empty n ≡ false)
      × (starts_with s (codes "{") ≡ true)
      × (ends_with s (codes ":#}") ≡ true)
unfolding try_from named
hash-trimmed s n h = ground arith

-- Whatever segment the parser returns is the one that the text stands for.
pub try_from-IsParsed : (s : Text) (i : TopicPatternItem) → try_from s ≡ ok i → IsParsed s i
unfolding try_from named
try_from-IsParsed s (str t) h = ground arith
try_from-IsParsed s (plus none) h = ground (arith, text_eq_iff s (codes "+"))
try_from-IsParsed s (hash none) h = ground (arith, text_eq_iff s (codes "#"))
try_from-IsParsed s (plus (some n)) h =
    let (same, filled, front, back, single) = plus-trimmed s n h in
    (IsNamed-trimmed (codes "}") b'}' [] s n refl same filled front back, single)
try_from-IsParsed s (hash (some n)) h =
    let (same, filled, front, back) = hash-trimmed s n h in
    IsNamed-trimmed (codes ":#}") b'}' (codes "#:") s n refl same filled front back
