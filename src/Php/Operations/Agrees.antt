-- ===== src/Php/Operations/Agrees.antt =====
-- The operators of the PHP runtime against constant folding: what the optimiser computes at compile
-- time is what the compiled template would compute.
use b.Base.{◌≡◌, Bool, true, false, some, ok, arith, if◌then◌else◌}
use b.Base.Int.{ℤ, pos, negsuc, ◌+ℤ◌, ◌-ℤ◌, ◌*ℤ◌, quot_ℤ, rem_ℤ, ltb_ℤ, in_long, is_zero}
use b.Base.Double.{DoubleOps}
use b.Ast.Expression.{
  Expression, BinaryOperation, ComparisonOperation, binary_code, comparison_code, integer_literal,
  boolean_literal, division,
}
use b.Meaning.{Exact, Host}
use b.Passes.Fold.{fold_comparison, fold_equality, fold_order, fold_connective, fold_long}
use b.Php.{Zend}
use b.Php.Operations.{success, compare_variant, binary_variant_operation}

-- The sign of `a - c`, as `compare_function` gives it.
abbrev pub sign_of_longs : ℤ → ℤ → ℤ
sign_of_longs a c = if ltb_ℤ a c then negsuc 0 else if ltb_ℤ c a then pos 1 else pos 0

abbrev pub sign_of_booleans : Bool → Bool → ℤ
sign_of_booleans true true = pos 0
sign_of_booleans true false = pos 1
sign_of_booleans false true = negsuc 0
sign_of_booleans false false = pos 0

pub data Operands : Type 0 where
  longs : ℤ → ℤ → Operands
  booleans : Bool → Bool → Operands

module _ {Z H P : Type 0} (z : Zend Z H P) (d : DoubleOps) where
  -- What the engine documents of its operators on integers and on Booleans: a comparison gives the
  -- sign, and arithmetic an integer where it is in range; a quotient that is not whole is a double.
  pub record Documented : Type 0 where
    pub compare_longs :
        (a c : ℤ) → z.compare_function (z.of_long a) (z.of_long c) ≡ some (sign_of_longs a c)
    pub compare_booleans :
        (a c : Bool) → z.compare_function (z.of_bool a) (z.of_bool c) ≡ some (sign_of_booleans a c)
    pub true_boolean : (v : Bool) → z.is_true (z.of_bool v) ≡ v
    pub add :
        (a c : ℤ)
        → in_long (a +ℤ c) ≡ true
        → z.add_function (z.of_long a) (z.of_long c) ≡ some (z.of_long (a +ℤ c))
    pub sub :
        (a c : ℤ)
        → in_long (a -ℤ c) ≡ true
        → z.sub_function (z.of_long a) (z.of_long c) ≡ some (z.of_long (a -ℤ c))
    pub mul :
        (a c : ℤ)
        → in_long (a *ℤ c) ≡ true
        → z.mul_function (z.of_long a) (z.of_long c) ≡ some (z.of_long (a *ℤ c))
    pub div :
        (a c : ℤ)
        → is_zero c ≡ false
        → in_long (quot_ℤ a c) ≡ true
        → z.div_function (z.of_long a) (z.of_long c)
          ≡ some (
              if is_zero (rem_ℤ a c)
              then z.of_long (quot_ℤ a c)
              else z.of_double (d.div (d.of_long a) (d.of_long c)))
    pub mod_ :
        (a c : ℤ)
        → is_zero c ≡ false
        → z.mod_function (z.of_long a) (z.of_long c) ≡ some (z.of_long (rem_ℤ a c))

  -- Two literals of one kind, and the values that the code of a template makes of them.
  abbrev pub left_literal : Operands → Expression
  left_literal (longs a c) = integer_literal a
  left_literal (booleans a c) = boolean_literal a

  abbrev pub right_literal : Operands → Expression
  right_literal (longs a c) = integer_literal c
  right_literal (booleans a c) = boolean_literal c

  abbrev pub left_value : Operands → Z
  left_value (longs a c) = z.of_long a
  left_value (booleans a c) = z.of_bool a

  abbrev pub right_value : Operands → Z
  right_value (longs a c) = z.of_long c
  right_value (booleans a c) = z.of_bool c

  -- A comparison of integers that is folded by way of doubles is that of the integers.
  abbrev pub Comparable : Host → Operands → Type 0
  Comparable h (longs a c) = Exact d h a c
  Comparable h (booleans a c) = Unit

  -- What the runtime gives where folding gives `n`.
  abbrev pub runtime_value : BinaryOperation → ℤ → ℤ → ℤ → Z
  runtime_value division a c n =
      if is_zero (rem_ℤ a c) then z.of_long n else z.of_double (d.div (d.of_long a) (d.of_long c))
  runtime_value op a c n = z.of_long n

  module _ (doc : Documented) where
    -- Where constant folding decides a comparison of two integers or of two Booleans, with any of
    -- the eight operators, the PHP runtime decides it the same way from the code of the operator and
    -- the two values. The engine's comparison of integers and of Booleans is taken to give the sign,
    -- and the integers to compare as the doubles do to which they convert.
    pub compare_variant-fold :
        (h : Host) (o : Operands) (op : ComparisonOperation) (v : Bool)
        → Comparable h o
        → fold_comparison d (left_literal o) (right_literal o) op ≡ ok (boolean_literal v)
        → compare_variant z (comparison_code op) (left_value o) (right_value o) ≡ success v
    unfolding compare_variant fold_comparison fold_equality fold_order fold_connective
    compare_variant-fold h (longs a c) op v ex e = ground (arith, doc.compare_longs a c, ex op)
    compare_variant-fold h (booleans a c) op v ex e =
        ground (arith, doc.compare_booleans a c, doc.true_boolean a, doc.true_boolean c)

    -- Where constant folding computes an integer from two integers, the PHP runtime computes the
    -- same from the code of the operator, but for one case: a quotient that is not whole is
    -- truncated by folding, and is a double at run time. The engine's operators are taken to give
    -- an integer that is in range, and a double for such a quotient.
    pub binary_variant_operation-fold :
        (a c n : ℤ) (op : BinaryOperation)
        → fold_long op a c ≡ ok (integer_literal n)
        → binary_variant_operation z (binary_code op) (z.of_long a) (z.of_long c)
          ≡ success (runtime_value op a c n)
    unfolding binary_variant_operation fold_long
    binary_variant_operation-fold a c n op h =
        ground (arith, doc.add a c, doc.sub a c, doc.mul a c, doc.div a c, doc.mod_ a c)
