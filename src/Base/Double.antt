-- ===== src/Base/Double.antt =====
-- The arithmetic of `double`, which the model takes as a parameter: a value is the number of its 64
-- bits, and the operations are those of the C++ implementation and of its output streams.
use Prim.Native.Nat.{ℕ}
use mathlib.Core.Bool.{Bool}
use b.Base.Text.{Str}
use b.Base.Int.{ℤ}

pub record DoubleOps : Type 0 where
  pub add : ℕ → ℕ → ℕ
  pub sub : ℕ → ℕ → ℕ
  pub mul : ℕ → ℕ → ℕ
  pub div : ℕ → ℕ → ℕ
  -- `==`, `<` and `<=`
  pub eq : ℕ → ℕ → Bool
  pub lt : ℕ → ℕ → Bool
  pub le : ℕ → ℕ → Bool
  -- the conversion of a `long`
  pub of_long : ℤ → ℕ
  -- `stream << value` and `std::to_string(value)`
  pub print : ℕ → Str
  pub to_string : ℕ → Str
