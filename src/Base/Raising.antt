-- ===== src/Base/Raising.antt =====
-- A computation that may raise an error of the type `E`.
use mathlib.Core.Path.{◌≡◌, refl}
use mathlib.Core.Logic.{◌⊎◌, inl, inr}
use mathlib.Core.Bool.{Bool, true, false}

pub data Try {ℓ κ} (E : Type κ) (A : Type ℓ) : Type (ℓ ⊔ κ) where
  done : A → Try E A
  raised : E → Try E A

infixl 5 ◌>>=◌ ◌>>◌
abbrev pub ◌>>=◌ {ℓ κ μ} :
    {E : Type κ} {A : Type ℓ} {B : Type μ} → Try E A → (A → Try E B) → Try E B
done a >>= f = f a
raised e >>= f = raised e

abbrev pub ◌>>◌ {κ μ} : {E : Type κ} {B : Type μ} → Try E (Unit {0}) → Try E B → Try E B
m >> k = m >>= λ _. k

-- `if test: raise e`
abbrev pub raise_if {κ} : {E : Type κ} → Bool → E → Try E (Unit {0})
raise_if true e = raised e
raise_if false e = done tt

-- Inversion of a computation that returned.
pub >>=-eq-done {ℓ κ μ} :
    {E : Type κ} {A : Type ℓ} {B : Type μ} (m : Try E A) (f : A → Try E B) {b : B}
    → (m >>= f) ≡ done b
    → (a : A) × (m ≡ done a) × (f a ≡ done b)
>>=-eq-done (done a) f h = (a, refl, h)
>>=-eq-done (raised e) f h = cc

pub Try-cases {ℓ κ} :
    {E : Type κ} {A : Type ℓ} (m : Try E A) → ((e : E) × (m ≡ raised e)) ⊎ ((a : A) × (m ≡ done a))
Try-cases (done a) = inr (a, refl)
Try-cases (raised e) = inl (e, refl)
