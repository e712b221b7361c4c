-- ===== src/Common/Results.antt =====
-- Results of code that may stop by `TT_FATAL` or `TT_THROW`.
use mathlib.Core.Path.{◌≡◌, refl}
use mathlib.Core.Logic.{◌⊎◌, inl, inr}
use mathlib.Core.Bool.{Bool, true, false}

-- `fatal` is the exception that `TT_FATAL` and `TT_THROW` raise.
pub data Result {ℓ} (A : Type ℓ) : Type ℓ where
  fatal : Result A
  ok : A → Result A

-- `TT_FATAL(condition, …)`: the program goes on only where the condition holds.
abbrev pub require : Bool → Result (Unit {0})
require false = fatal
require true = ok tt

infixl 5 ◌>>◌
-- A step after a check.
abbrev pub ◌>>◌ {ℓ} : {A : Type ℓ} → Result (Unit {0}) → Result A → Result A
fatal >> next = fatal
ok _ >> next = next

module _ {ℓ} {A : Type ℓ} where
  infixl 5 ◌>>=◌
  -- A step that uses the value of the one before.
  abbrev pub ◌>>=◌ {κ} : {B : Type κ} → Result A → (A → Result B) → Result B
  fatal >>= next = fatal
  ok value >>= next = next value

  pub Result-cases : (m : Result A) → (m ≡ fatal) ⊎ ((a : A) × (m ≡ ok a))
  Result-cases fatal = inl refl
  Result-cases (ok a) = inr (a, refl)

  pub ok-injective : {a b : A} → ok a ≡ ok b → a ≡ b
  ok-injective h = cc

  -- A chain that succeeds went through all its parts.
  pub >>-eq-ok :
      (c : Bool) (next : Result A) {a : A} → (require c >> next) ≡ ok a → (c ≡ true) × (next ≡ ok a)
  >>-eq-ok false next h = cc
  >>-eq-ok true next h = (refl, h)

  pub >>-both-ok :
      (first : Result (Unit {0})) (next : Result A) {a : A}
      → (first >> next) ≡ ok a
      → (first ≡ ok tt) × (next ≡ ok a)
  >>-both-ok fatal next h = cc
  >>-both-ok (ok tt) next h = (refl, h)

  pub >>=-eq-ok {κ} :
      {B : Type κ} (first : Result A) (next : A → Result B) {result : B}
      → (first >>= next) ≡ ok result
      → (value : A) × (first ≡ ok value) × (next value ≡ ok result)
  >>=-eq-ok fatal next h = cc
  >>=-eq-ok (ok value) next h = (value, refl, h)
