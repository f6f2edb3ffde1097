-- ===== src/Base/Map.antt =====
-- Rust's `HashMap` as an association list. The order of its entries stands for the unspecified
-- order of iteration, and no theorem depends on it.
use mathlib.Core.Path.{◌≡◌, refl, ◌∙◌}
use mathlib.Core.Logic.{◌⊎◌, inl, inr}
use mathlib.Core.Bool.{false}
use mathlib.Core.Option.{Option, none, some}
use mathlib.Core.List.{List, [], ◌∷◌, Memᴰ}
use mathlib.Core.List.Memᴰ
use native.Mathlib.Omega.{arith}
use mqtt_typed_client_next.Base.Tests.{if◌then◌else◌, Eq, ◌==◌, Bool-cases}

module _ {ℓ κ} {K : Type ℓ} {V : Type κ} ⦃e : Eq K⦄ where
  unfoldable pub lookup : K → List (K × V) → Option V
  lookup k [] = none
  lookup k ((j, v) ∷ m) = if j == k then some v else lookup k m

  unfoldable pub insert : K → V → List (K × V) → List (K × V)
  insert k v [] = (k, v) ∷ []
  insert k v ((j, w) ∷ m) = if j == k then (k, v) ∷ m else (j, w) ∷ insert k v m

  unfoldable pub remove : K → List (K × V) → List (K × V)
  remove k [] = []
  remove k ((j, v) ∷ m) = let rest = remove k m in if j == k then rest else (j, v) ∷ rest

  pub lookup-insert :
      (j k : K) (v : V) (m : List (K × V))
      → lookup j (insert k v m) ≡ (if k == j then some v else lookup j m)
  unfolding lookup insert
  lookup-insert j k v [] = refl
  lookup-insert j k v ((i, w) ∷ m) =
      ground (arith, e.beq_iff k j, e.beq_iff i k, e.beq_iff i j, lookup-insert j k v m)

  pub lookup-remove :
      (j k : K) (m : List (K × V)) → lookup j (remove k m) ≡ (if k == j then none else lookup j m)
  unfolding lookup remove
  lookup-remove j k [] = ground arith
  lookup-remove j k ((i, w) ∷ m) =
      ground (arith, e.beq_iff k j, e.beq_iff i k, e.beq_iff i j, lookup-remove j k m)

  -- What is found is an entry.
  pub lookup-Memᴰ : (k : K) (m : List (K × V)) {v : V} → lookup k m ≡ some v → Memᴰ (k, v) m
  unfolding lookup
  lookup-Memᴰ k [] h = absurd (cc)
  lookup-Memᴰ k ((j, w) ∷ m) h = elim (Bool-cases (j == k)) [
    | inl same ↦ Memᴰ.head (ground (arith, e.beq_iff j k))
    | inr other ↦ Memᴰ.tail (lookup-Memᴰ k m (ground arith))
  ]

  -- An entry after an insertion is the new one or an old one.
  pub Memᴰ-insert :
      (k : K) (v : V) (m : List (K × V)) {x : K × V}
      → Memᴰ x (insert k v m)
      → (x ≡ (k, v)) ⊎ Memᴰ x m
  unfolding insert
  Memᴰ-insert k v [] h = inl (Memᴰ.eq_of_singleton h)
  Memᴰ-insert k v ((j, w) ∷ m) h = elim (Bool-cases (j == k)) [
    | inl same ↦ elim (Memᴰ.cases_cons (rw same at h)) [ inl q ↦ inl q | inr q ↦ inr (Memᴰ.tail q) ]
    | inr other ↦ elim (Memᴰ.cases_cons (rw other at h)) [
      | inl q ↦ inr (Memᴰ.head q)
      | inr q ↦ elim (Memᴰ-insert k v m q) [ inl a ↦ inl a | inr b ↦ inr (Memᴰ.tail b) ]
    ]
  ]

  -- What is left after a removal was there, under another key.
  pub Memᴰ-remove :
      (k : K) (m : List (K × V)) {x : K × V} → Memᴰ x (remove k m) → Memᴰ x m × ((x.0 == k) ≡ false)
  unfolding remove
  Memᴰ-remove k [] h = elim h [ ]
  Memᴰ-remove k ((j, w) ∷ m) h = elim (Bool-cases (j == k)) [
    | inl same ↦ let (a, b) = Memᴰ-remove k m (rw same at h) in (Memᴰ.tail a, b)
    | inr other ↦ elim (Memᴰ.cases_cons (rw other at h)) [
      | inl q ↦ (Memᴰ.head q, rw q other)
      | inr q ↦ let (a, b) = Memᴰ-remove k m q in (Memᴰ.tail a, b)
    ]
  ]

pub ruleset map_laws = (lookup-insert, lookup-remove)

module _ {ℓ κ} {K : Type ℓ} {V : Type κ} ⦃e : Eq K⦄ where
  -- No key stands twice.
  abbrev pub DistinctKeys : List (K × V) → Type κ
  DistinctKeys [] = Unit
  DistinctKeys ((k, v) ∷ m) = (lookup k m ≡ none) × DistinctKeys m

  pub insert-DistinctKeys :
      (k : K) (v : V) (m : List (K × V)) → DistinctKeys m → DistinctKeys (insert k v m)
  unfolding insert
  insert-DistinctKeys k v [] h = (unfold lookup in refl, tt)
  insert-DistinctKeys k v ((j, w) ∷ m) (new, h) = elim (Bool-cases (j == k)) [
    | inl same ↦ rw (same, insert) (rw ((e.beq_iff j k).0 same) at new, h)
    | inr other ↦
        rw (other, insert)
          (
            lookup-insert j k v m ∙ ground (arith, e.beq_iff j k, e.beq_iff k j),
            insert-DistinctKeys k v m h,
          )
  ]

  pub remove-DistinctKeys : (k : K) (m : List (K × V)) → DistinctKeys m → DistinctKeys (remove k m)
  unfolding remove
  remove-DistinctKeys k [] h = tt
  remove-DistinctKeys k ((j, w) ∷ m) (new, h) = elim (Bool-cases (j == k)) [
    | inl same ↦ rw (same, remove) (remove-DistinctKeys k m h)
    | inr other ↦
        rw (other, remove)
          (
            lookup-remove j k m ∙ ground (arith, e.beq_iff j k, e.beq_iff k j),
            remove-DistinctKeys k m h,
          )
  ]

  -- A key that is not found has no entry.
  pub lookup-eq_none : (k : K) (v : V) (m : List (K × V)) → lookup k m ≡ none → Memᴰ (k, v) m → ⊥
  unfolding lookup
  lookup-eq_none k v [] h mem = elim mem [ ]
  lookup-eq_none k v ((j, w) ∷ m) h mem = elim (Bool-cases (j == k)) [
    | inl same ↦ absurd (ground arith)
    | inr other ↦ elim (Memᴰ.cases_cons mem) [
      | inl q ↦ ground (arith, e.beq_iff j k, q)
      | inr mem' ↦ lookup-eq_none k v m (rw other at h) mem'
    ]
  ]
