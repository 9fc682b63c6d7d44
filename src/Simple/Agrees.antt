-- ===== src/Simple/Agrees.antt =====
-- The simple runtime against the codes of the compiler and against constant folding.
use b.Base.{◌≡◌, ◌≢◌, ◌↔◌, true, [], ok, undefined, arith}
use b.Base.Int.{ℤ}
use b.Base.Double.{DoubleOps}
use b.Ast.Expression.{
  BinaryOperation, ComparisonOperation, binary_code, comparison_code, integer_literal, equal,
}
use b.Passes.Fold.{fold_long}
use b.Simple.{Variant, integer, is_number, compare_variant, binary_variant_operation}

module _ (d : DoubleOps) where
  -- With two numbers, the simple runtime has a value for the comparison `==` only: the codes of the
  -- other seven operators, as the compiler packs them, are in none of its cases, and it flows off
  -- the end of the function.
  pub compare_variant-undefined_iff :
      (op : ComparisonOperation) (left right : Variant)
      → is_number left ≡ true
      → is_number right ≡ true
      → (compare_variant d (comparison_code op) left right ≡ undefined) ↔ (op ≢ equal)
  unfolding compare_variant
  compare_variant-undefined_iff op left right hl hr = ground arith

  -- On two integers the simple runtime returns an integer, with nothing on the error stream, exactly
  -- where constant folding returns one, and then the same.
  pub binary_variant_operation-fold_iff :
      (op : BinaryOperation) (a c n : ℤ)
      → (binary_variant_operation d (binary_code op) (integer a) (integer c) ≡ ok ([], integer n))
        ↔ (fold_long op a c ≡ ok (integer_literal n))
  unfolding binary_variant_operation fold_long
  binary_variant_operation-fold_iff op a c n = ground arith
