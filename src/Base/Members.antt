-- ===== src/Base/Members.antt =====
-- Membership with its position, for the list functions that the library treats up to truncation.
use mathlib.Core.Path.{◌≡◌, refl, sym, ap, ◌∙◌}
use mathlib.Core.Logic.{inl, inr}
use mathlib.Core.Option.{Option, some}
use mathlib.Core.List.{List, [], ◌∷◌, Memᴰ, filter_map, filter_map-cons-none, filter_map-cons-some}
use mqtt_typed_client_next.Base.Tests.{Option-cases}

module _ {ℓ κ} {A : Type ℓ} {B : Type κ} (f : A → Option B) where
  pub Memᴰ-filter_map :
      (l : List A) {b : B} → Memᴰ b (filter_map f l) → (a : A) × Memᴰ a l × (f a ≡ some b)
  unfolding filter_map
  Memᴰ-filter_map [] m = elim m [ ]
  Memᴰ-filter_map (a ∷ l) m = elim (Option-cases (f a)) [
    | inl e ↦
        let (x, mx, ex) = Memᴰ-filter_map l (rw (filter_map-cons-none f a l e) at m) in
        (x, Memᴰ.tail mx, ex)
    | inr (b', e) ↦ here b' e (rw (filter_map-cons-some f a l e) at m) (Memᴰ-filter_map l)
  ]
    where
      here :
          (b' : B)
          → f a ≡ some b'
          → {b : B} → Memᴰ b (b' ∷ filter_map f l)
          → (Memᴰ b (filter_map f l) → (x : A) × Memᴰ x l × (f x ≡ some b))
          → (x : A) × Memᴰ x (a ∷ l) × (f x ≡ some b)
      here b' e (Memᴰ.head h) ih = (a, Memᴰ.head refl, e ∙ ap some (sym h))
      here b' e (Memᴰ.tail m') ih = let (x, mx, ex) = ih m' in (x, Memᴰ.tail mx, ex)

  pub filter_map-Memᴰ :
      (l : List A) {a : A} {b : B} → Memᴰ a l → f a ≡ some b → Memᴰ b (filter_map f l)
  filter_map-Memᴰ [] m h = elim m [ ]
  filter_map-Memᴰ (x ∷ l) (Memᴰ.head e) h =
      rw (filter_map-cons-some f x l (ap f (sym e) ∙ h)) (Memᴰ.head refl)
  filter_map-Memᴰ (x ∷ l) (Memᴰ.tail m) h = elim (Option-cases (f x)) [
    | inl e ↦ rw (filter_map-cons-none f x l e) (filter_map-Memᴰ l m h)
    | inr (b', e) ↦ rw (filter_map-cons-some f x l e) (Memᴰ.tail (filter_map-Memᴰ l m h))
  ]
