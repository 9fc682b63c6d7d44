-- ===== src/Llvm/Returns.antt =====
-- Total correctness of a piece of the visitor: it returns, and `Q` holds of the value and the state.
use mathlib.Core.Path.{◌≡◌, refl}
use b.Llvm.{State, Reply, done, thrown, broken, M, ◌>>=◌}

pub data Returns {B A : Type 0} (Q : A → State B → Type 0) : Reply (State B) A → Type 0 where
  returns : {a : A} {s : State B} → Q a s → Returns Q (done a s)

module _ {B A : Type 0} {Q : A → State B → Type 0} where
  pub Returns-bind :
      {C : Type 0} {R : C → State B → Type 0} (m : M B A) (f : A → M B C) (s : State B)
      → Returns Q (m s)
      → ((a : A) (s' : State B) → Q a s' → Returns R (f a s'))
      → Returns R ((m >>= f) s)
  Returns-bind {R = R} m f s h k = bind (m s) h
    where
      bind :
          (r : Reply (State B) A)
          → Returns Q r
          → Returns R (elim r [ done a s' ↦ f a s' | thrown e s' ↦ thrown e s' | broken ↦ broken ])
      bind r (returns {a} {s = s'} q) = k a s' q

  pub Returns-weaken :
      {R : A → State B → Type 0} {r : Reply (State B) A}
      → Returns Q r
      → ((a : A) (s : State B) → Q a s → R a s)
      → Returns R r
  Returns-weaken (returns {a} {s} q) k = returns (k a s q)

  -- The call gives that value and that state.
  pub Returns-same :
      {r : Reply (State B) A} → Returns Q r → Returns (λ a s. Q a s × (r ≡ done a s)) r
  Returns-same (returns q) = returns (q, refl)

  pub Returns-done :
      {r : Reply (State B) A} → Returns Q r → (a : A) × (s : State B) × (r ≡ done a s) × Q a s
  Returns-done (returns {a} {s} q) = (a, s, refl, q)
