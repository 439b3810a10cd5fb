-- ===== src/Prelude/Raises.antt =====
-- A call that may raise, as a value: `ok` with its result or `err` with the exception.
use mathlib.Core.Path.{◌≡◌, refl}
use mathlib.Core.Bool.{Bool, true, false}

pub data Result {ℓ κ} (E : Type ℓ) (A : Type κ) : Type (ℓ ⊔ κ) where
  ok : A → Result E A
  err : E → Result E A

infixl 5 ◌>>=◌ ◌>>◌
unfoldable pub ◌>>=◌ {ℓ κ μ} :
    {E : Type ℓ} {A : Type κ} {B : Type μ} → Result E A → (A → Result E B) → Result E B
ok a >>= f = f a
err e >>= f = err e

abbrev pub ◌>>◌ {ℓ κ} : {E : Type ℓ} {B : Type κ} → Result E (Unit {0}) → Result E B → Result E B
m >> k = m >>= λ _. k

-- `if c: raise e`
unfoldable pub raise_if {ℓ} : {E : Type ℓ} → Bool → E → Result E (Unit {0})
raise_if true e = err e
raise_if false e = ok tt

-- What a call that does not raise ensures of its result.
pub record Ensures {ℓ κ μ} {E : Type ℓ} {A : Type κ} (P : A → Type μ) (r : Result E A)
    : Type (ℓ ⊔ κ ⊔ μ) where
  pub at : (a : A) → r ≡ ok a → P a

module _ {ℓ κ μ} {E : Type ℓ} {A : Type κ} where
  ok-injective : (a b : A) → ◌≡◌ {A = Result E A} (ok a) (ok b) → a ≡ b
  ok-injective a b e = cc

  pub Ensures-ok : (P : A → Type μ) (a : A) → P a → Ensures {E = E} P (ok a)
  Ensures-ok P a h = record { at = λ b e. rw (← ok-injective a b e) h }

  pub Ensures-err : (P : A → Type μ) (x : E) → Ensures P (err x)
  Ensures-err P x = record { at = λ b e. cc }

module _ {ℓ κ μ ν} {E : Type ℓ} {A : Type κ} {B : Type μ} where
  -- What the first call ensures is at hand for the rest.
  pub Ensures-then {ρ} :
      {P : B → Type ν} (Q : A → Type ρ) (m : Result E A) (f : A → Result E B)
      → Ensures Q m
      → ((a : A) → Q a → Ensures P (f a))
      → Ensures P (m >>= f)
  unfolding ◌>>=◌
  Ensures-then Q (ok a) f q h = h a (q.at a refl)
  Ensures-then Q (err e) f q h = Ensures-err _ e

  pub Ensures-bind :
      {P : B → Type ν} {m : Result E A} {f : A → Result E B}
      → ((a : A) → m ≡ ok a → Ensures P (f a))
      → Ensures P (m >>= f)
  unfolding ◌>>=◌
  Ensures-bind {m = ok a} h = h a refl
  Ensures-bind {m = err e} h = Ensures-err _ e

module _ {ℓ μ ν} {E : Type ℓ} {B : Type μ} where
  pub Ensures-guard :
      {P : B → Type ν} {c : Bool} (e : E) (k : Unit {0} → Result E B)
      → (c ≡ false → Ensures P (k tt))
      → Ensures P (raise_if c e >>= k)
  unfolding ◌>>=◌ raise_if
  Ensures-guard {c = true} e k h = Ensures-err _ e
  Ensures-guard {c = false} e k h = h refl

-- A call that returns has run its first part to a result, and its second part from there.
pub >>=-eq-ok {ℓ κ μ} :
    {E : Type ℓ} {A : Type κ} {B : Type μ} (m : Result E A) (f : A → Result E B) {y : B}
    → (m >>= f) ≡ ok y
    → (x : A) × (m ≡ ok x) × (f x ≡ ok y)
unfolding ◌>>=◌
>>=-eq-ok (err raised) f returned = cc
>>=-eq-ok (ok x) f returned = (x, refl, returned)
