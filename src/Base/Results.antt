-- ===== src/Base/Results.antt =====
-- What a function that may raise returns: a value, or the error that it raises.
use mathlib.Core.Path.{◌≡◌, refl}
use mathlib.Core.Bool.{Bool, true, false}
use mathlib.Core.Logic.{◌⊎◌, inl, inr}
use mathlib.Core.Option.{Option, none, some}

pub data Fallible {ℓ κ} (E : Type κ) (A : Type ℓ) : Type (ℓ ⊔ κ) where
  err : E → Fallible E A
  ok : A → Fallible E A

module _ {κ} {E : Type κ} where
  infixl 5 ◌>>=◌ ◌>>◌
  abbrev pub ◌>>=◌ {ℓ μ} :
      {A : Type ℓ} {B : Type μ} → Fallible E A → (A → Fallible E B) → Fallible E B
  err raised >>= next = err raised
  ok value >>= next = next value

  abbrev pub ◌>>◌ {ℓ} : {B : Type ℓ} → Fallible E (Unit {0}) → Fallible E B → Fallible E B
  check >> rest = check >>= λ _. rest

  -- `if not condition: raise error`
  abbrev pub require : Bool → E → Fallible E (Unit {0})
  require false error = err error
  require true error = ok tt

  -- a value that a check found, or the error of the check
  abbrev pub require_some {ℓ} : {A : Type ℓ} → Option A → E → Fallible E A
  require_some none error = err error
  require_some (some value) error = ok value

  pub >>=-eq-ok {ℓ μ} :
      {A : Type ℓ} {B : Type μ} (first : Fallible E A) (next : A → Fallible E B) {last : B}
      → (first >>= next) ≡ ok last
      → (value : A) × (first ≡ ok value) × (next value ≡ ok last)
  >>=-eq-ok (err raised) next h = cc
  >>=-eq-ok (ok value) next h = (value, refl, h)

  pub Fallible-cases {ℓ} :
      {A : Type ℓ} (m : Fallible E A)
      → ((value : A) × (m ≡ ok value)) ⊎ ((error : E) × (m ≡ err error))
  Fallible-cases (err error) = inr (error, refl)
  Fallible-cases (ok value) = inl (value, refl)

  pub ok-injective {ℓ} : {A : Type ℓ} {a b : A} → ◌≡◌ {A = Fallible E A} (ok a) (ok b) → a ≡ b
  ok-injective h = cc
