-- ===== src/Topic/Item/RoundTrip.antt =====
-- Parsing a printed segment gives the segment back.
use mqtt_typed_client_next.Base.{
  ◌≡◌, refl, some, none, ok, false, ◌&&◌, [], ◌∷◌, ◌++◌, reverse, arith,
}
use mathlib.Core.List.{reverse_aux-append, reverse_aux-eq}
use mqtt_typed_client_next.Base.Text.{
  Text, codes, is_empty, starts_with, ends_with, trim_start_matches, contains, text_eq_iff,
}
use mqtt_typed_client_next.Base.Text.Trim.{
  starts_with-append, ends_with-append, trim_start_matches-append, trim_end_matches-append,
}
use mqtt_typed_client_next.Topic.Item.{TopicPatternItem, str, plus, hash, try_from, as_wildcard}

-- The segments whose printed form is read back: no literal looks like a wildcard or a parameter,
-- and no name has a brace where the parser trims, or ends like a multi-level parameter.
abbrev pub IsCanonical : TopicPatternItem → Type 0
IsCanonical (str s) =
    (contains s b'+' ≡ false)
    × (contains s b'#' ≡ false)
    × ((starts_with s (codes "{") && ends_with s (codes "}")) ≡ false)
IsCanonical (plus none) = Unit
IsCanonical (hash none) = Unit
IsCanonical (plus (some n)) =
    (is_empty n ≡ false)
    × (starts_with n (codes "{") ≡ false)
    × (ends_with n (codes "}") ≡ false)
    × (ends_with n (codes ":#") ≡ false)
IsCanonical (hash (some n)) =
    (is_empty n ≡ false) × (starts_with n (codes "{") ≡ false) × (ends_with n (codes ":#}") ≡ false)

starts_with-append_right :
    (n t : Text)
    → is_empty n ≡ false
    → starts_with n (codes "{") ≡ false
    → starts_with (n ++ t) (codes "{") ≡ false
unfolding starts_with
starts_with-append_right [] t e h = cc
starts_with-append_right (c ∷ n) t e h = ground arith

ends_with-hash : (s : Text) → ends_with s (codes "}") ≡ false → ends_with s (codes ":#}") ≡ false
unfolding ends_with starts_with
ends_with-hash s h = ground arith

hash_sign-before_brace :
    (r : Text)
    → starts_with r (codes "#:") ≡ false
    → starts_with (r ++ codes "{") (codes "#:") ≡ false
unfolding starts_with
hash_sign-before_brace [] h = refl
hash_sign-before_brace (a ∷ []) h = ground arith
hash_sign-before_brace (a ∷ b ∷ r) h = ground arith

-- With a `}` behind it, a name that does not end in `:#` does not make a multi-level parameter.
ends_with-brace :
    (n : Text)
    → ends_with n (codes ":#") ≡ false
    → ends_with (codes "{" ++ (n ++ codes "}")) (codes ":#}") ≡ false
unfolding ends_with
ends_with-brace n h =
    rw (reverse_aux-append n (codes "}") (codes "{"), reverse_aux-eq n (codes "{"))
      (unfold starts_with in hash_sign-before_brace (reverse n) h)

module _ (n : Text) (filled : is_empty n ≡ false) (bare : starts_with n (codes "{") ≡ false) where
  -- The brace in front is trimmed.
  trim_start-brace : (t : Text) → trim_start_matches (codes "{" ++ (n ++ t)) (codes "{") ≡ n ++ t
  trim_start-brace t =
      trim_start_matches-append b'{' [] (n ++ t) (starts_with-append_right n t filled bare)

  try_from-plus :
      ends_with n (codes "}") ≡ false
      → ends_with n (codes ":#") ≡ false
      → try_from (codes "{" ++ (n ++ codes "}")) ≡ ok (plus (some n))
  unfolding try_from
  try_from-plus end kind = rw (
    starts_with-append (n ++ codes "}") (codes "{"),
    ends_with-brace n kind,
    ends_with-append (codes "{" ++ n) (codes "}"),
    trim_start-brace (codes "}"),
    trim_end_matches-append n (codes "}") b'}' [] refl end,
    filled,
  )

  try_from-hash :
      ends_with n (codes ":#}") ≡ false
      → try_from (codes "{" ++ (n ++ codes ":#}")) ≡ ok (hash (some n))
  unfolding try_from
  try_from-hash end = rw (
    starts_with-append (n ++ codes ":#}") (codes "{"),
    ends_with-append (codes "{" ++ n) (codes ":#}"),
    trim_start-brace (codes ":#}"),
    trim_end_matches-append n (codes ":#}") b'}' (codes "#:") refl end,
    filled,
  )

try_from-str :
    (s : Text)
    → contains s b'+' ≡ false
    → contains s b'#' ≡ false
    → (starts_with s (codes "{") && ends_with s (codes "}")) ≡ false
    → try_from s ≡ ok (str s)
unfolding try_from contains
try_from-str s p h b =
    ground (arith, ends_with-hash s, text_eq_iff s (codes "+"), text_eq_iff s (codes "#"))

-- A canonical segment, printed with its name and parsed again, is the same segment.
pub try_from-as_wildcard : (i : TopicPatternItem) → IsCanonical i → try_from (as_wildcard i) ≡ ok i
unfolding as_wildcard
try_from-as_wildcard (str s) (p, h, b) = try_from-str s p h b
try_from-as_wildcard (plus none) h = unfold try_from in refl
try_from-as_wildcard (hash none) h = unfold try_from in refl
try_from-as_wildcard (plus (some n)) (filled, bare, end, kind) =
    try_from-plus n filled bare end kind
try_from-as_wildcard (hash (some n)) (filled, bare, end) = try_from-hash n filled bare end
