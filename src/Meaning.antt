-- ===== src/Meaning.antt =====
-- What an expression means, as the reference for the passes: 64-bit integers with exact
-- comparisons, doubles, Booleans and texts, and the host for what has a variant in it.
use b.Base.{
  ℕ, Bool, true, false, not, Option, none, some, List, [], ◌∷◌, Str, str_eq, ◌≡◌, if◌then◌else◌,
}
use b.Base.Int.{
  ℤ, pos, negsuc, ◌+ℤ◌, ◌-ℤ◌, ◌*ℤ◌, quot_ℤ, rem_ℤ, in_long, is_zero, eqb_ℤ, ltb_ℤ, leb_ℤ,
}
use b.Base.Double.{DoubleOps}
use b.Ast.Expression.{
  Expression, ExpressionList, BinaryOperation, UnaryOperation, ComparisonOperation, nil,
  null_argument, argument, variable_reference, get_attribute, method_call, double_literal,
  integer_literal, boolean_literal, string_literal, binary_operation, unary_operation, comparison,
  addition, subtraction, multiplication, division, modulus, numeric_positive, numeric_negative,
  boolean_negation, equal, not_equal, greater_than, greater_or_equal, less_than, less_or_equal, or,
  and,
}

-- A variant is a handle of the host's.
pub data Value : Type 0 where
  double : ℕ → Value
  integer : ℤ → Value
  boolean : Bool → Value
  text : Str → Value
  variant : ℕ → Value

-- What the host does: `none` is a failure.
pub record Host : Type 0 where
  pub variable : Str → Option Value
  pub attribute : Value → Str → Option Value
  pub call : Str → List Value → Option Value
  pub binary : BinaryOperation → Value → Value → Option Value
  pub unary : UnaryOperation → Value → Option Value
  pub compare : ComparisonOperation → Value → Value → Option Value

infixl 5 ◌>>=◌
abbrev ◌>>=◌ : {A B : Type 0} → Option A → (A → Option B) → Option B
none >>= f = none
some a >>= f = f a

-- an integer that a `long` holds
abbrev fitting : ℤ → Option Value
fitting n = if in_long n then some (integer n) else none

abbrev long_value : BinaryOperation → ℤ → ℤ → Option Value
long_value addition a c = fitting (a +ℤ c)
long_value subtraction a c = fitting (a -ℤ c)
long_value multiplication a c = fitting (a *ℤ c)
long_value division a c = if is_zero c then none else fitting (quot_ℤ a c)
long_value modulus a c =
    if is_zero c then none else if in_long (quot_ℤ a c) then some (integer (rem_ℤ a c)) else none

-- the six comparisons of integers
abbrev compare_longs : ComparisonOperation → ℤ → ℤ → Bool
compare_longs equal a c = eqb_ℤ a c
compare_longs not_equal a c = not (eqb_ℤ a c)
compare_longs greater_than a c = ltb_ℤ c a
compare_longs greater_or_equal a c = leb_ℤ c a
compare_longs less_than a c = ltb_ℤ a c
compare_longs less_or_equal a c = leb_ℤ a c
compare_longs _ a c = false

module _ (d : DoubleOps) (h : Host) where
  abbrev double_value : BinaryOperation → ℕ → ℕ → Option Value
  double_value addition a c = some (double (d.add a c))
  double_value subtraction a c = some (double (d.sub a c))
  double_value multiplication a c = some (double (d.mul a c))
  double_value division a c = some (double (d.div a c))
  double_value modulus a c = h.binary modulus (double a) (double c)

  abbrev binary_value : BinaryOperation → Value → Value → Option Value
  binary_value op (integer a) (integer c) = long_value op a c
  binary_value modulus (integer a) (double c) = h.binary modulus (integer a) (double c)
  binary_value modulus (double a) (integer c) = h.binary modulus (double a) (integer c)
  binary_value op (integer a) (double c) = double_value op (d.of_long a) c
  binary_value op (double a) (integer c) = double_value op a (d.of_long c)
  binary_value op (double a) (double c) = double_value op a c
  binary_value op v w = h.binary op v w

  -- `+x` and `-x` multiply a double by the sign
  abbrev unary_value : UnaryOperation → Value → Option Value
  unary_value numeric_positive (integer n) = some (integer n)
  unary_value numeric_negative (integer n) = fitting (pos 0 -ℤ n)
  unary_value numeric_positive (double v) = some (double (d.mul v (d.of_long (pos 1))))
  unary_value numeric_negative (double v) = some (double (d.mul v (d.of_long (negsuc 0))))
  unary_value boolean_negation (boolean v) = some (boolean (not v))
  unary_value op v = h.unary op v

  abbrev compare_numbers : ComparisonOperation → ℕ → ℕ → Value
  compare_numbers equal a c = boolean (d.eq a c)
  compare_numbers not_equal a c = boolean (not (d.eq a c))
  compare_numbers greater_than a c = boolean (d.lt c a)
  compare_numbers greater_or_equal a c = boolean (d.le c a)
  compare_numbers less_than a c = boolean (d.lt a c)
  compare_numbers less_or_equal a c = boolean (d.le a c)
  compare_numbers _ a c = boolean false

  abbrev number_comparison : ComparisonOperation → Value → Value → Option Value
  number_comparison op (integer a) (integer c) = some (boolean (compare_longs op a c))
  number_comparison op (integer a) (double c) = some (compare_numbers op (d.of_long a) c)
  number_comparison op (double a) (integer c) = some (compare_numbers op a (d.of_long c))
  number_comparison op (double a) (double c) = some (compare_numbers op a c)
  number_comparison op v w = h.compare op v w

  -- a left operand that decides `||` or `&&` gives the value, whatever the right one is
  abbrev comparison_value : ComparisonOperation → Value → Value → Option Value
  comparison_value equal (boolean a) (boolean c) = some (boolean (if a then c else not c))
  comparison_value not_equal (boolean a) (boolean c) = some (boolean (if a then not c else c))
  comparison_value equal (text s) (text t) = some (boolean (str_eq s t))
  comparison_value not_equal (text s) (text t) = some (boolean (not (str_eq s t)))
  comparison_value or (boolean true) w = some (boolean true)
  comparison_value or (boolean false) (boolean c) = some (boolean c)
  comparison_value and (boolean false) w = some (boolean false)
  comparison_value and (boolean true) (boolean c) = some (boolean c)
  comparison_value or v w = h.compare or v w
  comparison_value and v w = h.compare and v w
  comparison_value op v w = number_comparison op v w

  unfoldable mutual
    pub eval : Expression → Option Value
    eval (variable_reference x) = h.variable x
    eval (get_attribute e a) = do v ← eval e; h.attribute v a
    eval (method_call m xs) = do vs ← eval_arguments xs; h.call m vs
    eval (double_literal v) = some (double v)
    eval (integer_literal n) = some (integer n)
    eval (boolean_literal v) = some (boolean v)
    eval (string_literal s) = some (text s)
    eval (binary_operation l r op) = do v ← eval l; w ← eval r; binary_value op v w
    eval (unary_operation e op) = do v ← eval e; unary_value op v
    eval (comparison l r op) = do v ← eval l; w ← eval r; comparison_value op v w

    pub eval_arguments : ExpressionList → Option (List Value)
    eval_arguments nil = some []
    eval_arguments (null_argument xs) = none
    eval_arguments (argument x xs) = do v ← eval x; vs ← eval_arguments xs; some (v ∷ vs)

  -- The comparison of two integers gives what that of the doubles gives to which they convert.
  abbrev pub Exact : ℤ → ℤ → Type 0
  Exact a c =
      (op : ComparisonOperation)
      → compare_numbers op (d.of_long a) (d.of_long c) ≡ boolean (compare_longs op a c)

  -- So it is at every comparison in the expression, as its operands evaluate.
  abbrev mutual
    pub IsExact : Expression → Type 0
    IsExact (get_attribute e a) = IsExact e
    IsExact (method_call m xs) = AreExact xs
    IsExact (binary_operation l r op) = IsExact l × IsExact r
    IsExact (unary_operation e op) = IsExact e
    IsExact (comparison l r op) =
        IsExact l
        × IsExact r
        × ((a c : ℤ) → eval l ≡ some (integer a) → eval r ≡ some (integer c) → Exact a c)
    IsExact _ = Unit

    pub AreExact : ExpressionList → Type 0
    AreExact nil = Unit
    AreExact (null_argument xs) = AreExact xs
    AreExact (argument x xs) = IsExact x × AreExact xs
