-- ===== src/Base/Post.antt =====
-- Postconditions on a call: `P` holds of what it returns, if it returns; and `Fuel` holds if the
-- fuel ran out.
use mathlib.Core.Path.{◌≡◌, refl, subst}
use mathlib.Core.Logic.{◌≢◌}
use mathlib.Core.Bool.{Bool, true, false}
use b.Base.Tests.{if◌then◌else◌}
use b.Base.Call.{Outcome, Exception, ok, throw, undefined, out_of_fuel, ◌>>=◌}

pub data Post {ℓ κ} {A : Type ℓ} (Fuel : Type 0) (P : A → Type κ) : Outcome A → Type (ℓ ⊔ κ) where
  returns : {a : A} → P a → Post Fuel P (ok a)
  throws : {e : Exception} → Post Fuel P (throw e)
  breaks : Post Fuel P undefined
  stops : Fuel → Post Fuel P out_of_fuel

-- The fuel lasts.
abbrev pub Total {ℓ κ} : {A : Type ℓ} → (A → Type κ) → Outcome A → Type (ℓ ⊔ κ)
Total P r = Post ⊥ P r

abbrev pub Partial {ℓ κ} : {A : Type ℓ} → (A → Type κ) → Outcome A → Type (ℓ ⊔ κ)
Partial P r = Post (Unit {0}) P r

module _ {ℓ κ} {A : Type ℓ} {Fuel : Type 0} {P : A → Type κ} where
  pub Post-bind {ℓ' κ'} :
      {B : Type ℓ'} {Q : B → Type κ'} {r : Outcome A} {f : A → Outcome B}
      → Post Fuel P r
      → ((a : A) → P a → Post Fuel Q (f a))
      → Post Fuel Q (r >>= f)
  Post-bind (returns {a} h) k = k a h
  Post-bind throws k = throws
  Post-bind breaks k = breaks
  Post-bind (stops h) k = stops h

  pub Post-weaken {κ'} :
      {Q : A → Type κ'} {r : Outcome A} → Post Fuel P r → ((a : A) → P a → Q a) → Post Fuel Q r
  Post-weaken (returns {a} h) k = returns (k a h)
  Post-weaken throws k = throws
  Post-weaken breaks k = breaks
  Post-weaken (stops h) k = stops h

  pub Post-ok : {r : Outcome A} {a : A} → Post Fuel P r → r ≡ ok a → P a
  Post-ok (returns h) e = subst P (cc) h
  Post-ok throws e = cc
  Post-ok breaks e = cc
  Post-ok (stops h) e = cc

  pub Post-if :
      (test : Bool) {x y : Outcome A}
      → (test ≡ true → Post Fuel P x)
      → (test ≡ false → Post Fuel P y)
      → Post Fuel P (if test then x else y)
  Post-if true hx hy = hx (cc)
  Post-if false hx hy = hy (cc)

pub Total-ne-out_of_fuel {ℓ κ} :
    {A : Type ℓ} {P : A → Type κ} {r : Outcome A} → Total P r → r ≢ out_of_fuel
Total-ne-out_of_fuel (returns h) e = cc
Total-ne-out_of_fuel throws e = cc
Total-ne-out_of_fuel breaks e = cc
Total-ne-out_of_fuel (stops h) e = h

-- The same by recursion on the outcome, which computes in a proof by cases.
abbrev pub Checks {ℓ} : {A : Type ℓ} → (A → Type 0) → Outcome A → Type 0
Checks P (ok a) = P a
Checks P (throw e) = Unit
Checks P undefined = Unit
Checks P out_of_fuel = ⊥

pub Checks-Post {ℓ} :
    {A : Type ℓ} {Fuel : Type 0} (P : A → Type 0) (r : Outcome A) → Checks P r → Post Fuel P r
Checks-Post P (ok a) h = returns h
Checks-Post P (throw e) h = throws
Checks-Post P undefined h = breaks
Checks-Post P out_of_fuel h = absurd h

-- Nothing is said of what is returned.
pub Partial-any {ℓ} : {A : Type ℓ} (r : Outcome A) → Partial (λ _. Unit {0}) r
Partial-any (ok a) = returns tt
Partial-any (throw e) = throws
Partial-any undefined = breaks
Partial-any out_of_fuel = stops tt

-- A family of postconditions on one call.
pub Partial-all {ℓ κ μ} :
    {A : Type ℓ} {I : Type μ} (P : I → A → Type κ) (r : Outcome A)
    → ((i : I) → Partial (P i) r)
    → Partial (λ a. (i : I) → P i a) r
Partial-all P (ok a) h = returns (λ i. Post-ok (h i) refl)
Partial-all P (throw e) h = throws
Partial-all P undefined h = breaks
Partial-all P out_of_fuel h = stops tt
