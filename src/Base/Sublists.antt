-- ===== src/Base/Sublists.antt =====
-- Lists that are part of another in its order.
use mathlib.Core.Path.{refl}
use mathlib.Core.List.{List, [], ◌∷◌, ◌++◌, Sublistᴰ}
use mathlib.Core.List.Sublistᴰ

module _ {ℓ} {A : Type ℓ} where
  pub snoc-Sublistᴰ : (m : A) {xs ys : List A} → Sublistᴰ xs ys → Sublistᴰ xs (ys ++ m ∷ [])
  snoc-Sublistᴰ m Sublistᴰ.slnil = Sublistᴰ.cons Sublistᴰ.slnil
  snoc-Sublistᴰ m (Sublistᴰ.cons s) = Sublistᴰ.cons (snoc-Sublistᴰ m s)
  snoc-Sublistᴰ m (Sublistᴰ.cons-cons e s) = Sublistᴰ.cons-cons e (snoc-Sublistᴰ m s)

  pub snoc_both-Sublistᴰ :
      (m : A) {xs ys : List A} → Sublistᴰ xs ys → Sublistᴰ (xs ++ m ∷ []) (ys ++ m ∷ [])
  snoc_both-Sublistᴰ m Sublistᴰ.slnil = Sublistᴰ.cons-cons refl Sublistᴰ.slnil
  snoc_both-Sublistᴰ m (Sublistᴰ.cons s) = Sublistᴰ.cons (snoc_both-Sublistᴰ m s)
  snoc_both-Sublistᴰ m (Sublistᴰ.cons-cons e s) = Sublistᴰ.cons-cons e (snoc_both-Sublistᴰ m s)

  Sublistᴰ-nil : (xs : List A) → Sublistᴰ [] xs
  Sublistᴰ-nil [] = Sublistᴰ.slnil
  Sublistᴰ-nil (x ∷ xs) = Sublistᴰ.cons (Sublistᴰ-nil xs)

  Sublistᴰ-prefix : (a b : List A) → Sublistᴰ a (a ++ b)
  Sublistᴰ-prefix [] b = Sublistᴰ-nil b
  Sublistᴰ-prefix (x ∷ a) b = Sublistᴰ.cons-cons refl (Sublistᴰ-prefix a b)

  pub Sublistᴰ-drop_tail : (a b : List A) {l : List A} → Sublistᴰ (a ++ b) l → Sublistᴰ a l
  Sublistᴰ-drop_tail a b s = Sublistᴰ.trans (Sublistᴰ-prefix a b) s

  Sublistᴰ-refl : (xs : List A) → Sublistᴰ xs xs
  Sublistᴰ-refl [] = Sublistᴰ.slnil
  Sublistᴰ-refl (x ∷ xs) = Sublistᴰ.cons-cons refl (Sublistᴰ-refl xs)

  Sublistᴰ-after : (a b c : List A) → Sublistᴰ b c → Sublistᴰ (a ++ b) (a ++ c)
  Sublistᴰ-after [] b c s = s
  Sublistᴰ-after (x ∷ a) b c s = Sublistᴰ.cons-cons refl (Sublistᴰ-after a b c s)

  -- One that is not the first of what is behind the first part may go.
  pub Sublistᴰ-drop_one :
      (a : List A) (x : A) (c : List A) {l : List A} → Sublistᴰ (a ++ x ∷ c) l → Sublistᴰ (a ++ c) l
  Sublistᴰ-drop_one a x c s =
      Sublistᴰ.trans (Sublistᴰ-after a c (x ∷ c) (Sublistᴰ.cons (Sublistᴰ-refl c))) s
