-- ===== src/Base/Results.antt =====
-- Rust's `Result`, and `?` as bind.
use mathlib.Core.Path.{◌≡◌, refl}
use mathlib.Core.Logic.{◌⊎◌, inl, inr}

pub data Result {ℓ κ} (A : Type ℓ) (E : Type κ) : Type (ℓ ⊔ κ) where
  ok : A → Result A E
  err : E → Result A E

abbrev pub ◌>>=◌ {ℓ κ μ} :
    {A : Type ℓ} {B : Type μ} {E : Type κ} → Result A E → (A → Result B E) → Result B E
ok value >>= next = next value
err failure >>= next = err failure

abbrev pub ◌>>◌ {κ μ} : {B : Type μ} {E : Type κ} → Result (Unit {0}) E → Result B E → Result B E
first >> second = first >>= λ _. second

infixl 5 ◌>>=◌ ◌>>◌
module _ {ℓ κ} {A : Type ℓ} {E : Type κ} where
  pub Result-cases : (r : Result A E) → ((a : A) × (r ≡ ok a)) ⊎ ((e : E) × (r ≡ err e))
  Result-cases (ok a) = inl (a, refl)
  Result-cases (err e) = inr (e, refl)

  abbrev pub map_err {μ} : {F : Type μ} → (E → F) → Result A E → Result A F
  map_err f (ok a) = ok a
  map_err f (err e) = err (f e)

-- How a call of the program fails: by an error value or by a panic.
pub data Failure {ℓ} (E : Type ℓ) : Type ℓ where
  panicked : Failure E
  failed : E → Failure E

-- The parts of a bind that has succeeded.
pub >>=-eq-ok {ℓ κ μ} :
    {A : Type ℓ} {B : Type μ} {E : Type κ} (r : Result A E) (next : A → Result B E) {y : B}
    → (r >>= next) ≡ ok y
    → (x : A) × (r ≡ ok x) × (next x ≡ ok y)
>>=-eq-ok (ok x) next bound = (x, refl, bound)
>>=-eq-ok (err failure) next bound = absurd (cc)

pub ok-injective {ℓ κ} :
    {A : Type ℓ} {E : Type κ} {a b : A} → ◌≡◌ {A = Result A E} (ok a) (ok b) → a ≡ b
ok-injective h = cc
