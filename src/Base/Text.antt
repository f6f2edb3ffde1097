-- ===== src/Base/Text.antt =====
-- UTF-8 text as its bytes, with the operations of Rust's `str` that the program calls. The bytes
-- that the program looks for are ASCII, so a search by byte is a search by character.
pub mod Trim
pub mod Trimmed
pub mod Split
use Prim.Native.Nat.{ℕ, zero, suc}
use Prim.Native.Char.{code}
use Prim.Native.String
use Prim.Native.String.{String}
use mathlib.Core.Path.{◌≡◌, refl, ap, ap₂}
use mathlib.Core.Logic.{◌↔◌}
use mathlib.Core.Bool.{Bool, true, false, ◌&&◌, ◌||◌}
use mathlib.Core.Option.{Option, none, some}
use mathlib.Core.List.{List, [], ◌∷◌, ◌++◌, reverse, map}
use native.Mathlib.Omega.{arith}
use mqtt_typed_client_next.Base.Tests.{nat_eq, leb, if◌then◌else◌, Eq}
use mqtt_typed_client_next.Base.Lists.{length, any}

abbrev pub Text : Type 0
Text = List ℕ

-- The bytes of an ASCII text.
abbrev pub codes : String → Text
codes String.[] = []
codes (String.◌∷◌ c s) = code c ∷ codes s

abbrev pub text_eq : Text → Text → Bool
text_eq [] [] = true
text_eq [] (b ∷ t) = false
text_eq (a ∷ s) [] = false
text_eq (a ∷ s) (b ∷ t) = nat_eq a b && text_eq s t

text_eq→eq : (s t : Text) → text_eq s t ≡ true → s ≡ t
text_eq→eq [] [] h = refl
text_eq→eq [] (b ∷ t) h = cc
text_eq→eq (a ∷ s) [] h = cc
text_eq→eq (a ∷ s) (b ∷ t) h = ground (arith, text_eq→eq s t)

text_eq_refl : (s : Text) → text_eq s s ≡ true
text_eq_refl [] = refl
text_eq_refl (a ∷ s) = ground (arith, text_eq_refl s)

pub text_eq_iff : (s t : Text) → (text_eq s t ≡ true) ↔ (s ≡ t)
text_eq_iff s t = (text_eq→eq s t, λ e. rw e (text_eq_refl t))

instance abbrev pub text_Eq : Eq Text
text_Eq = record { beq = text_eq; beq_iff = text_eq_iff }

abbrev pub is_empty {ℓ} : {A : Type ℓ} → List A → Bool
is_empty [] = true
is_empty (x ∷ xs) = false

-- `s.strip_prefix(pat)`, with the pattern first.
unfoldable pub strip_prefix : Text → Text → Option Text
strip_prefix [] s = some s
strip_prefix (p ∷ pat) [] = none
strip_prefix (p ∷ pat) (c ∷ s) = if nat_eq p c then strip_prefix pat s else none

abbrev is_some {ℓ} : {A : Type ℓ} → Option A → Bool
is_some none = false
is_some (some a) = true

unfoldable pub starts_with : Text → Text → Bool
unfolding strip_prefix
starts_with s pat = is_some (strip_prefix pat s)

unfoldable pub ends_with : Text → Text → Bool
unfolding starts_with
ends_with s pat = starts_with (reverse s) (reverse pat)

-- The loop of `trim_start_matches`; each round with a nonempty pattern shortens the text.
unfoldable pub trim_loop : ℕ → Text → Text → Text
unfolding strip_prefix
trim_loop zero s pat = s
trim_loop (suc fuel) s pat = elim (strip_prefix pat s) [
  | none ↦ s
  | some rest ↦ trim_loop fuel rest pat
]

unfoldable pub trim_start_matches : Text → Text → Text
unfolding trim_loop
trim_start_matches s pat = trim_loop (length s) s pat

unfoldable pub trim_end_matches : Text → Text → Text
unfolding trim_start_matches
trim_end_matches s pat = reverse (trim_start_matches (reverse s) (reverse pat))

-- `s.contains(c)` for a character of one byte.
unfoldable pub contains : Text → ℕ → Bool
contains s c = any (λ x. nat_eq x c) s

-- The first segment and the others: `split('/')` never returns an empty list.
split_parts : Text → Text × List Text
split_parts [] = ([], [])
split_parts (c ∷ s) =
    let (part, parts) = split_parts s in
    if nat_eq c b'/' then ([], part ∷ parts) else (c ∷ part, parts)

-- `s.split('/').collect()`.
unfoldable pub split : Text → List Text
unfolding split_parts
split s = let (part, parts) = split_parts s in part ∷ parts

-- The segments joined by `/`, with no separator before the first.
unfoldable pub join : List Text → Text
join [] = []
join (s ∷ []) = s
join (s ∷ t ∷ ts) = s ++ b'/' ∷ join (t ∷ ts)

-- The White_Space characters of Unicode by their UTF-8 bytes: `s.trim().is_empty()`.
is_space : ℕ → Bool
is_space c = (leb 9 c && leb c 13) || nat_eq c 32

is_space_2 : ℕ → ℕ → Bool
is_space_2 a b = nat_eq a 0xc2 && (nat_eq b 0x85 || nat_eq b 0xa0)

is_space_3 : ℕ → ℕ → ℕ → Bool
is_space_3 a b c =
    (nat_eq a 0xe1 && nat_eq b 0x9a && nat_eq c 0x80)
    || (nat_eq a 0xe2
        && nat_eq b 0x80
        && ((leb 0x80 c && leb c 0x8a) || nat_eq c 0xa8 || nat_eq c 0xa9 || nat_eq c 0xaf))
    || (nat_eq a 0xe2 && nat_eq b 0x81 && nat_eq c 0x9f)
    || (nat_eq a 0xe3 && nat_eq b 0x80 && nat_eq c 0x80)

unfoldable pub is_blank : Text → Bool
unfolding is_space is_space_2 is_space_3
is_blank [] = true
is_blank (a ∷ []) = is_space a
is_blank (a ∷ b ∷ []) = (is_space a && is_space b) || is_space_2 a b
is_blank (a ∷ b ∷ c ∷ s) =
    (is_space a && is_blank (b ∷ c ∷ s))
    || (is_space_2 a b && is_blank (c ∷ s))
    || (is_space_3 a b c && is_blank s)
