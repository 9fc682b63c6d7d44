-- ===== src/Passes/Fold.antt =====
-- lib/ast/passes/fold_constant_expressions_pass.cpp: constant folding.
pub mod Kept
pub mod Total
pub mod Sound
pub mod Keeps
pub mod Mixed
pub mod Stable
pub mod Settles
pub mod Idempotent
use b.Base.{
  Bool, true, false, ◌&&◌, not, str_eq, Outcome, ok, throw, undefined, ◌>>=◌, if◌then◌else◌,
  division_by_zero, modulo_by_zero, ℕ,
}
use b.Base.Int.{ℤ, pos, negsuc, ◌+ℤ◌, ◌-ℤ◌, ◌*ℤ◌, quot_ℤ, rem_ℤ, in_long, is_zero}
use b.Base.Double.{DoubleOps}
use b.Ast.Expression.{
  Expression, BinaryOperation, UnaryOperation, ComparisonOperation, double_literal, integer_literal,
  boolean_literal, string_literal, binary_operation, unary_operation, comparison, addition,
  subtraction, multiplication, division, modulus, numeric_negative, boolean_negation, equal,
  not_equal, greater_than, greater_or_equal, less_than, less_or_equal, or, and,
}
use b.Passes.Walk.{ExpressionPass}

abbrev pub is_literal_expression : Expression → Bool
is_literal_expression (double_literal _) = true
is_literal_expression (integer_literal _) = true
is_literal_expression (boolean_literal _) = true
is_literal_expression (string_literal _) = true
is_literal_expression _ = false

abbrev pub is_numeric_literal_expression : Expression → Bool
is_numeric_literal_expression (double_literal _) = true
is_numeric_literal_expression (integer_literal _) = true
is_numeric_literal_expression _ = false

abbrev pub is_boolean_literal_expression : Expression → Bool
is_boolean_literal_expression (boolean_literal _) = true
is_boolean_literal_expression _ = false

abbrev is_string_literal_expression : Expression → Bool
is_string_literal_expression (string_literal _) = true
is_string_literal_expression _ = false

-- Arithmetic on a `long` is undefined where the result is none.
abbrev long_literal : ℤ → Outcome Expression
long_literal n = if in_long n then ok (integer_literal n) else undefined

-- both operands are integers
unfoldable pub fold_long : BinaryOperation → ℤ → ℤ → Outcome Expression
fold_long addition a c = long_literal (a +ℤ c)
fold_long subtraction a c = long_literal (a -ℤ c)
fold_long multiplication a c = long_literal (a *ℤ c)
fold_long division a c = if is_zero c then throw division_by_zero else long_literal (quot_ℤ a c)
-- `%` is undefined where `/` overflows
fold_long modulus a c =
    if is_zero c
    then throw modulo_by_zero
    else if in_long (quot_ℤ a c)
    then ok (integer_literal (rem_ℤ a c))
    else undefined

module _ (d : DoubleOps) where
  -- `NUMERIC_VALUE`, at the type `double` that its two branches have in common. A literal of
  -- another class has no such value: the cast of it is undefined.
  abbrev numeric_value : Expression → Outcome ℕ
  numeric_value (integer_literal n) = ok (d.of_long n)
  numeric_value (double_literal v) = ok v
  numeric_value _ = undefined

  -- one of the operands is a double; `expression` is what the pass was given
  unfoldable pub fold_double : BinaryOperation → ℕ → ℕ → Expression → Outcome Expression
  fold_double addition a c expression = ok (double_literal (d.add a c))
  fold_double subtraction a c expression = ok (double_literal (d.sub a c))
  fold_double multiplication a c expression = ok (double_literal (d.mul a c))
  fold_double division a c expression = ok (double_literal (d.div a c))
  fold_double modulus a c expression = ok expression

  -- the part of `process_node` behind the test for two numeric literals
  unfoldable pub fold_binary : Expression → Expression → BinaryOperation → Outcome Expression
  unfolding fold_long fold_double
  fold_binary (integer_literal a) (integer_literal c) op = fold_long op a c
  fold_binary left right op = do
    a ← numeric_value left
    c ← numeric_value right
    fold_double op a c (binary_operation left right op)

  abbrev multiplier : UnaryOperation → ℤ
  multiplier numeric_negative = negsuc 0
  multiplier _ = pos 1

  unfoldable pub fold_sign : UnaryOperation → Expression → Outcome Expression
  fold_sign op (double_literal v) = ok (double_literal (d.mul v (d.of_long (multiplier op))))
  fold_sign op (integer_literal n) = long_literal (n *ℤ multiplier op)
  fold_sign op e = ok (unary_operation e op)

  unfoldable pub fold_negation : Expression → Outcome Expression
  fold_negation (boolean_literal v) = ok (boolean_literal (not v))
  fold_negation e = ok (unary_operation e boolean_negation)

  -- the comparison of two numeric values
  abbrev compare_doubles : ComparisonOperation → ℕ → ℕ → Bool
  compare_doubles equal a c = d.eq a c
  compare_doubles not_equal a c = not (d.eq a c)
  compare_doubles greater_than a c = d.lt c a
  compare_doubles greater_or_equal a c = d.le c a
  compare_doubles less_than a c = d.lt a c
  compare_doubles less_or_equal a c = d.le a c
  compare_doubles _ a c = false

  abbrev fold_numeric_comparison :
      Expression → Expression → ComparisonOperation → Outcome Expression
  fold_numeric_comparison left right op = do
    a ← numeric_value left
    c ← numeric_value right
    ok (boolean_literal (compare_doubles op a c))

  abbrev xor : Bool → Bool → Bool
  xor true c = not c
  xor false c = c

  -- `==` and `!=`: `negated` is whether the operation is `!=`
  unfoldable pub fold_equality :
      Expression → Expression → ComparisonOperation → Bool → Outcome Expression
  fold_equality (boolean_literal a) (boolean_literal c) op negated =
      ok (boolean_literal (xor negated (not (xor a c))))
  fold_equality (string_literal s) (string_literal t) op negated =
      ok (boolean_literal (xor negated (str_eq s t)))
  fold_equality left right op negated =
      if is_numeric_literal_expression left && is_numeric_literal_expression right
      then fold_numeric_comparison left right op
      else ok (comparison left right op)

  -- `>`, `>=`, `<` and `<=`: the guard leaves only where neither operand is numeric
  unfoldable pub fold_order : Expression → Expression → ComparisonOperation → Outcome Expression
  fold_order left right op =
      if not (is_numeric_literal_expression left) && not (is_numeric_literal_expression right)
      then ok (comparison left right op)
      else fold_numeric_comparison left right op

  -- the cast to `BooleanLiteralExpression`
  abbrev boolean_value : Expression → Outcome Bool
  boolean_value (boolean_literal v) = ok v
  boolean_value _ = undefined

  -- `||` and `&&`; C++ reads the right operand only where the left one does not decide
  abbrev short_circuit : ComparisonOperation → Bool → Expression → Outcome Bool
  short_circuit or true right = ok true
  short_circuit or false right = boolean_value right
  short_circuit _ true right = boolean_value right
  short_circuit _ false right = ok false

  -- the guard leaves only where neither operand is Boolean
  unfoldable pub fold_connective :
      Expression → Expression → ComparisonOperation → Outcome Expression
  fold_connective left right op =
      if not (is_boolean_literal_expression left) && not (is_boolean_literal_expression right)
      then ok (comparison left right op)
      else (do a ← boolean_value left; v ← short_circuit op a right; ok (boolean_literal v))

  -- the `switch` of the comparison pass, on two literals
  unfoldable pub fold_comparison :
      Expression → Expression → ComparisonOperation → Outcome Expression
  unfolding fold_equality fold_order fold_connective
  fold_comparison left right equal = fold_equality left right equal false
  fold_comparison left right not_equal = fold_equality left right not_equal true
  fold_comparison left right greater_than = fold_order left right greater_than
  fold_comparison left right greater_or_equal = fold_order left right greater_or_equal
  fold_comparison left right less_than = fold_order left right less_than
  fold_comparison left right less_or_equal = fold_order left right less_or_equal
  fold_comparison left right or = fold_connective left right or
  fold_comparison left right and = fold_connective left right and

  -- an operand that passes the test is taken as it is, any other is folded first
  abbrev pub fold_operand :
      (Expression → Bool) → (Expression → Outcome Expression) → Expression → Outcome Expression
  fold_operand test rec e = if test e then ok e else rec e

  unfoldable pub fold_node : (Expression → Outcome Expression) → Expression → Outcome Expression
  unfolding fold_binary fold_sign fold_negation fold_comparison
  fold_node rec (binary_operation l r op) = do
    left ← fold_operand is_numeric_literal_expression rec l
    right ← fold_operand is_numeric_literal_expression rec r
    if is_numeric_literal_expression left && is_numeric_literal_expression right
        then fold_binary left right op
        else ok (binary_operation left right op)
  fold_node rec (unary_operation e boolean_negation) = do
    sub_expr ← fold_operand is_boolean_literal_expression rec e
    fold_negation sub_expr
  fold_node rec (unary_operation e op) = do
    sub_expr ← fold_operand is_numeric_literal_expression rec e
    fold_sign op sub_expr
  fold_node rec (comparison l r op) = do
    left ← fold_operand is_literal_expression rec l
    right ← fold_operand is_literal_expression rec r
    if is_literal_expression left && is_literal_expression right
        then fold_comparison left right op
        else ok (comparison left right op)
  fold_node rec e = ok e

  abbrev pub fold_constant_expressions_pass : ExpressionPass
  fold_constant_expressions_pass = record { process_node = fold_node }
