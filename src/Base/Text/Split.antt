-- ===== src/Base/Text/Split.antt =====
-- `split('/')` and joining by `/` undo one another.
use Prim.Native.Nat.{ℕ}
use mathlib.Core.Path.{◌≡◌, refl, ap, ◌∙◌, sym, ap₂}
use mathlib.Core.Logic.{◌≢◌, inl, inr}
use mathlib.Core.Bool.{false}
use mathlib.Core.List.{List, [], ◌∷◌, ◌++◌}
use native.Mathlib.Omega.{arith}
use mqtt_typed_client_next.Base.Tests.{nat_eq, nat_eq_iff, Bool-cases}
use mqtt_typed_client_next.Base.Lists.{All}
use mqtt_typed_client_next.Base.Text.{Text, split, split_parts, join, contains}

abbrev pub NoSlash : Text → Type 0
NoSlash s = contains s b'/' ≡ false

split-single : (s : Text) → NoSlash s → split_parts s ≡ (s, [])
unfolding split_parts contains
split-single [] h = refl
split-single (c ∷ s) h = ground (arith, split-single s)

split-cons_slash : (s t : Text) → NoSlash s → split_parts (s ++ b'/' ∷ t) ≡ (s, split t)
unfolding split contains
split-cons_slash [] t h = refl
split-cons_slash (c ∷ s) t h = ground (arith, split-cons_slash s t)

split-slash : (s t : Text) → NoSlash s → split (s ++ b'/' ∷ t) ≡ s ∷ split t
unfolding split
split-slash s t h = rw (split-cons_slash s t h)

-- Segments without a slash are read back.
pub split-join : (x : Text) (xs : List Text) → All NoSlash (x ∷ xs) → split (join (x ∷ xs)) ≡ x ∷ xs
unfolding join
split-join x [] (h, _) = unfold split in rw (split-single x h)
split-join x (y ∷ ys) (h, hs) =
    split-slash x (join (y ∷ ys)) h ∙ ap (λ (r : List Text). x ∷ r) (split-join y ys hs)

join-cons : (c : ℕ) (p : Text) (ps : List Text) → join ((c ∷ p) ∷ ps) ≡ c ∷ join (p ∷ ps)
unfolding join
join-cons c p [] = refl
join-cons c p (q ∷ ps) = refl

join-cons_nil : (p : Text) (ps : List Text) → join ([] ∷ p ∷ ps) ≡ b'/' ∷ join (p ∷ ps)
unfolding join
join-cons_nil p ps = refl

-- Joining the segments of a text gives the text.
pub join-split : (s : Text) → join (split s) ≡ s
unfolding split
join-split [] = unfold join in refl
join-split (c ∷ s) =
    let (p, ps) = split_parts s in
    elim (Bool-cases (nat_eq c b'/')) [
      | inl e ↦ rw e (
          join-cons_nil p ps
          ∙ ap₂ (λ (a : ℕ) (r : Text). a ∷ r) (sym ((nat_eq_iff c b'/').0 e)) (join-split s))
      | inr e ↦ rw e (join-cons c p ps ∙ ap (λ (r : Text). c ∷ r) (join-split s))
    ]

-- No segment of a text has a slash.
pub split-NoSlash : (s : Text) → All NoSlash (split s)
unfolding split contains
split-NoSlash [] = (refl, tt)
split-NoSlash (c ∷ s) =
    let (h, hs) = split-NoSlash s in
    elim (Bool-cases (nat_eq c b'/')) [ inl e ↦ rw e (refl, (h, hs)) | inr e ↦ rw (e, e) (h, hs) ]

pub split-ne_nil : (s : Text) → split s ≢ []
unfolding split
split-ne_nil s = cc
