-- ===== src/Base/Text/Trimmed.antt =====
-- What the two trims leave of any text.
use Prim.Native.Nat.{ℕ, zero, suc, ◌≤◌}
use mathlib.Core.Path.{◌≡◌, refl, sym, ap, ◌∙◌}
use mathlib.Core.Logic.{inl, inr}
use mathlib.Core.Bool.{false}
use mathlib.Core.Option.{some}
use mathlib.Core.List.{
  [], ◌∷◌, ◌++◌, reverse, append_assoc, append-nil, reverse-append, reverse-reverse,
}
use native.Mathlib.Omega.{arith}
use mqtt_typed_client_next.Base.Lists.{length}
use mqtt_typed_client_next.Base.Tests.{Option-cases}
use mqtt_typed_client_next.Base.Text.{
  Text, strip_prefix, starts_with, ends_with, trim_loop, trim_start_matches, trim_end_matches,
}

-- A text so many times.
abbrev pub repeated : ℕ → Text → Text
repeated zero pat = []
repeated (suc k) pat = pat ++ repeated k pat

strip_prefix-some : (pat s rest : Text) → strip_prefix pat s ≡ some rest → s ≡ pat ++ rest
unfolding strip_prefix
strip_prefix-some [] s rest h = ground arith
strip_prefix-some (p ∷ pat) [] rest h = ground arith
strip_prefix-some (p ∷ pat) (c ∷ s) rest h = ground (arith, strip_prefix-some pat s rest)

strip_prefix-length :
    (p : ℕ) (pat s rest : Text) → s ≡ p ∷ (pat ++ rest) → suc (length rest) ≤ length s
strip_prefix-length p pat s rest e = rw e (shorter pat rest)
  where
    shorter : (pat rest : Text) → suc (length rest) ≤ suc (length (pat ++ rest))
    shorter [] rest = omega arith
    shorter (q ∷ pat) rest = let h = shorter pat rest in omega arith

-- With enough fuel, what is taken off is so many times the pattern, and no more of it is there.
trim_loop-repeated :
    (fuel : ℕ) (s : Text) (p : ℕ) (pat : Text)
    → length s ≤ fuel
    → (k : ℕ) × (s ≡ repeated k (p ∷ pat) ++ trim_loop fuel s (p ∷ pat))
      × (starts_with (trim_loop fuel s (p ∷ pat)) (p ∷ pat) ≡ false)
unfolding trim_loop starts_with
trim_loop-repeated zero [] p pat h = (0, refl, refl)
trim_loop-repeated zero (c ∷ s) p pat h = absurd (omega arith)
trim_loop-repeated (suc fuel) s p pat h = elim (Option-cases (strip_prefix (p ∷ pat) s)) [
  | inl e ↦ (0, rw (e, trim_loop) refl, rw (e, trim_loop) (rw (e, starts_with) refl))
  | inr (rest, e) ↦
      let split = strip_prefix-some (p ∷ pat) s rest e in
      let shorter = strip_prefix-length p pat s rest split in
      let (k, parts, none_left) = trim_loop-repeated fuel rest p pat (omega arith) in
      let step : trim_loop (suc fuel) s (p ∷ pat) ≡ trim_loop fuel rest (p ∷ pat) =
        rw (e, trim_loop) refl in
      (
        suc k,
        rw step (
            split
            ∙ ap (λ t. (p ∷ pat) ++ t) parts
            ∙ sym (append_assoc (p ∷ pat) (repeated k (p ∷ pat)) (trim_loop fuel rest (p ∷ pat)))),
        rw step none_left,
      )
]

pub trim_start_matches-repeated :
    (s : Text) (p : ℕ) (pat : Text)
    → (k : ℕ) × (s ≡ repeated k (p ∷ pat) ++ trim_start_matches s (p ∷ pat))
      × (starts_with (trim_start_matches s (p ∷ pat)) (p ∷ pat) ≡ false)
unfolding trim_start_matches
trim_start_matches-repeated s p pat = trim_loop-repeated (length s) s p pat (omega arith)

repeated-append : (k : ℕ) (pat : Text) → repeated k pat ++ pat ≡ pat ++ repeated k pat
repeated-append zero pat = sym (append-nil pat)
repeated-append (suc k) pat =
    append_assoc pat (repeated k pat) pat ∙ ap (λ t. pat ++ t) (repeated-append k pat)

reverse-repeated : (k : ℕ) (pat : Text) → reverse (repeated k (reverse pat)) ≡ repeated k pat
reverse-repeated zero pat = refl
reverse-repeated (suc k) pat =
    reverse-append (reverse pat) (repeated k (reverse pat))
    ∙ ap (λ t. t ++ reverse (reverse pat)) (reverse-repeated k pat)
    ∙ ap (λ t. repeated k pat ++ t) (reverse-reverse pat)
    ∙ repeated-append k pat

pub trim_end_matches-repeated :
    (s pat : Text) (q : ℕ) (qs : Text)
    → reverse pat ≡ q ∷ qs
    → (k : ℕ) × (s ≡ trim_end_matches s pat ++ repeated k pat)
      × (ends_with (trim_end_matches s pat) pat ≡ false)
unfolding trim_end_matches ends_with
trim_end_matches-repeated s pat q qs e =
    let (k, parts, none_left) = trim_start_matches-repeated (reverse s) q qs in
    let t = trim_start_matches (reverse s) (q ∷ qs) in
    let whole : s ≡ reverse t ++ repeated k pat =
      sym (reverse-reverse s)
      ∙ ap reverse parts
      ∙ reverse-append (repeated k (q ∷ qs)) t
      ∙ ap (λ r. reverse t ++ reverse (repeated k r)) (sym e)
      ∙ ap (λ r. reverse t ++ r) (reverse-repeated k pat) in
    (k, rw e whole, rw (e, reverse-reverse t) none_left)

-- What stands at the front of a text that is not empty is at its front with more behind it.
pub starts_with-front :
    (n t : Text) (c : ℕ) → starts_with (n ++ t) (c ∷ []) ≡ false → starts_with n (c ∷ []) ≡ false
unfolding starts_with strip_prefix
starts_with-front [] t c h = refl
starts_with-front (d ∷ n) t c h = ground arith
