-- ===== src/Base/Text/Trim.antt =====
-- Prefixes and suffixes: what `starts_with`, `ends_with` and the two trims do to a text that is
-- built from the pattern and a rest.
use mathlib.Core.List.{reverse-append, reverse-reverse}
use mqtt_typed_client_next.Base.Lists.{length}
use mqtt_typed_client_next.Base.Text.{
  Text, strip_prefix, starts_with, ends_with, trim_loop, trim_start_matches, trim_end_matches,
}
use Prim.Native.Nat.{ℕ, zero, suc}
use mathlib.Core.Path.{◌≡◌, refl, ap, ◌∙◌}
use mathlib.Core.Bool.{true, false}
use mathlib.Core.Option.{none, some}
use mathlib.Core.List.{[], ◌∷◌, ◌++◌, reverse}
use native.Mathlib.Omega.{arith}

pub strip_prefix-append : (pat s : Text) → strip_prefix pat (pat ++ s) ≡ some s
unfolding strip_prefix
strip_prefix-append [] s = refl
strip_prefix-append (p ∷ pat) s = ground (arith, strip_prefix-append pat s)

pub strip_prefix-none : (s pat : Text) → starts_with s pat ≡ false → strip_prefix pat s ≡ none
unfolding starts_with
strip_prefix-none s pat h = ground arith

pub starts_with-append : (s pat : Text) → starts_with (pat ++ s) pat ≡ true
unfolding starts_with
starts_with-append s pat = rw strip_prefix-append

pub ends_with-append : (s pat : Text) → ends_with (s ++ pat) pat ≡ true
unfolding ends_with
ends_with-append s pat = rw reverse-append (starts_with-append (reverse s) (reverse pat))

trim_loop_stop : (fuel : ℕ) (s pat : Text) → starts_with s pat ≡ false → trim_loop fuel s pat ≡ s
unfolding trim_loop
trim_loop_stop zero s pat h = refl
trim_loop_stop (suc fuel) s pat h = rw (strip_prefix-none s pat h, trim_loop)

trim_loop_strip :
    (fuel : ℕ) (s pat rest : Text)
    → strip_prefix pat s ≡ some rest
    → trim_loop (suc fuel) s pat ≡ trim_loop fuel rest pat
unfolding trim_loop
trim_loop_strip fuel s pat rest e = rw (e, trim_loop)

-- One occurrence in front is taken off, and no more.
pub trim_start_matches-append :
    (p : ℕ) (pat s : Text)
    → starts_with s (p ∷ pat) ≡ false
    → trim_start_matches (p ∷ (pat ++ s)) (p ∷ pat) ≡ s
unfolding trim_start_matches
trim_start_matches-append p pat s h =
    trim_loop_strip (length (pat ++ s)) (p ∷ (pat ++ s)) (p ∷ pat) s
      (strip_prefix-append (p ∷ pat) s)
    ∙ trim_loop_stop (length (pat ++ s)) s (p ∷ pat) h

-- One occurrence at the end is taken off, and no more.
pub trim_end_matches-append :
    (s pat : Text) (q : ℕ) (qs : Text)
    → reverse pat ≡ q ∷ qs
    → ends_with s pat ≡ false
    → trim_end_matches (s ++ pat) pat ≡ s
unfolding trim_end_matches ends_with
trim_end_matches-append s pat q qs e h =
    rw (reverse-append s pat, e)
      (ap reverse (trim_start_matches-append q qs (reverse s) (rw e at h)) ∙ reverse-reverse s)
