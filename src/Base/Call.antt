-- ===== src/Base/Call.antt =====
-- What a call of the program does: it returns, it throws, it does what C++ leaves undefined (a
-- null pointer followed, a `static_cast` to a class that the object is not of, a signed overflow),
-- or the fuel of the model runs out.
use mathlib.Core.Path.{◌≡◌, refl}
use b.Base.Text.{Str}

-- the exceptions that the passes and the visitors throw
pub data Exception : Type 0 where
  division_by_zero modulo_by_zero unsupported : Exception
  missing_variable_reference : Str → Str → Exception
  -- a syntax error in the file, or the error of a file that cannot be opened
  parse_failed unreadable : Str → Exception

pub data Outcome {ℓ} (A : Type ℓ) : Type ℓ where
  ok : A → Outcome A
  throw : Exception → Outcome A
  undefined out_of_fuel : Outcome A

infixl 5 ◌>>=◌
abbrev pub ◌>>=◌ {ℓ κ} : {A : Type ℓ} {B : Type κ} → Outcome A → (A → Outcome B) → Outcome B
ok a >>= f = f a
throw e >>= f = throw e
undefined >>= f = undefined
out_of_fuel >>= f = out_of_fuel

-- Inversion of a bind that returns.
pub bind_returned {ℓ κ} :
    {A : Type ℓ} {B : Type κ} {b : B} (call : Outcome A) (f : A → Outcome B)
    → (call >>= f) ≡ ok b
    → (a : A) × (call ≡ ok a) × (f a ≡ ok b)
bind_returned out_of_fuel f h = cc
bind_returned undefined f h = cc
bind_returned (throw e) f h = cc
bind_returned (ok a) f h = (a, refl, h)

pub bind_assoc {ℓ κ μ} :
    {A : Type ℓ} {B : Type κ} {C : Type μ} (m : Outcome A) (f : A → Outcome B) (g : B → Outcome C)
    → (m >>= λ a. f a >>= g) ≡ ((m >>= f) >>= g)
bind_assoc (ok a) f g = refl
bind_assoc (throw e) f g = refl
bind_assoc undefined f g = refl
bind_assoc out_of_fuel f g = refl

pub bind_congr {ℓ κ} :
    {A : Type ℓ} {B : Type κ} (m : Outcome A) {f g : A → Outcome B}
    → ((a : A) → f a ≡ g a)
    → (m >>= f) ≡ (m >>= g)
bind_congr m h = λ i. m >>= λ a. h a i
