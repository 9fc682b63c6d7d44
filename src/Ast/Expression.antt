-- ===== src/Ast/Expression.antt =====
-- lib/ast/expressions.hpp: expressions, their static types and their copies.
use b.Base.{ℕ, ◌+◌, ◌*◌, Bool, true, false, Str, Outcome, ok, undefined, ◌>>=◌}
use b.Base.Int.{ℤ}

pub data BinaryOperation : Type 0 where
  addition subtraction multiplication division modulus : BinaryOperation

pub data UnaryOperation : Type 0 where
  numeric_positive numeric_negative boolean_negation : UnaryOperation

pub data ComparisonOperation : Type 0 where
  equal not_equal greater_than greater_or_equal less_than less_or_equal or and : ComparisonOperation

-- The characters of the operators; `PACK_UINT16` packs two of them.
abbrev pub binary_code : BinaryOperation → ℕ
binary_code addition = b'+'
binary_code subtraction = b'-'
binary_code multiplication = b'*'
binary_code division = b'/'
binary_code modulus = b'%'

abbrev pub unary_code : UnaryOperation → ℕ
unary_code numeric_positive = b'+'
unary_code numeric_negative = b'-'
unary_code boolean_negation = b'!'

abbrev pub comparison_code : ComparisonOperation → ℕ
comparison_code equal = b'=' * 256 + b'='
comparison_code not_equal = b'!' * 256 + b'='
comparison_code greater_than = b'>' * 256
comparison_code greater_or_equal = b'>' * 256 + b'='
comparison_code less_than = b'<' * 256
comparison_code less_or_equal = b'<' * 256 + b'='
comparison_code or = b'|' * 256 + b'|'
comparison_code and = b'&' * 256 + b'&'

-- An argument of a call is a `unique_ptr`, which may be null; a `double` is the number of its 64
-- bits, a `long` an integer.
mutual
  pub data Expression : Type 0 where
    variable_reference : Str → Expression
    get_attribute : Expression → Str → Expression
    method_call : Str → ExpressionList → Expression
    double_literal : ℕ → Expression
    integer_literal : ℤ → Expression
    boolean_literal : Bool → Expression
    string_literal : Str → Expression
    binary_operation : Expression → Expression → BinaryOperation → Expression
    unary_operation : Expression → UnaryOperation → Expression
    comparison : Expression → Expression → ComparisonOperation → Expression

  pub data ExpressionList : Type 0 where
    nil : ExpressionList
    null_argument : ExpressionList → ExpressionList
    argument : Expression → ExpressionList → ExpressionList

pub data ExpressionType : Type 0 where
  variable_reference_type get_attribute_type method_call_type : ExpressionType
  double_literal_type integer_literal_type boolean_literal_type : ExpressionType
  string_literal_type binary_operation_type unary_operation_type comparison_type : ExpressionType

pub data ExpressionValueType : Type 0 where
  double_type integer_type boolean_type string_type variant_type : ExpressionValueType

abbrev pub type : Expression → ExpressionType
type (variable_reference _) = variable_reference_type
type (get_attribute _ _) = get_attribute_type
type (method_call _ _) = method_call_type
type (double_literal _) = double_literal_type
type (integer_literal _) = integer_literal_type
type (boolean_literal _) = boolean_literal_type
type (string_literal _) = string_literal_type
type (binary_operation _ _ _) = binary_operation_type
type (unary_operation _ _) = unary_operation_type
type (comparison _ _ _) = comparison_type

abbrev pub is_same_type : ExpressionType → ExpressionType → Bool
is_same_type variable_reference_type variable_reference_type = true
is_same_type get_attribute_type get_attribute_type = true
is_same_type method_call_type method_call_type = true
is_same_type double_literal_type double_literal_type = true
is_same_type integer_literal_type integer_literal_type = true
is_same_type boolean_literal_type boolean_literal_type = true
is_same_type string_literal_type string_literal_type = true
is_same_type binary_operation_type binary_operation_type = true
is_same_type unary_operation_type unary_operation_type = true
is_same_type comparison_type comparison_type = true
is_same_type _ _ = false

-- The value type of a binary operation, from those of its operands.
abbrev binary_value_type : ExpressionValueType → ExpressionValueType → ExpressionValueType
binary_value_type variant_type _ = variant_type
binary_value_type _ variant_type = variant_type
binary_value_type double_type _ = double_type
binary_value_type _ double_type = double_type
binary_value_type integer_type integer_type = integer_type
binary_value_type _ _ = double_type

abbrev sign_value_type : ExpressionValueType → ExpressionValueType
sign_value_type variant_type = variant_type
sign_value_type double_type = double_type
sign_value_type integer_type = integer_type
sign_value_type _ = double_type

unfoldable pub value_type : Expression → ExpressionValueType
value_type (variable_reference _) = variant_type
value_type (get_attribute _ _) = variant_type
value_type (method_call _ _) = variant_type
value_type (double_literal _) = double_type
value_type (integer_literal _) = integer_type
value_type (boolean_literal _) = boolean_type
value_type (string_literal _) = string_type
value_type (binary_operation l r _) = binary_value_type (value_type l) (value_type r)
value_type (unary_operation e boolean_negation) = boolean_type
value_type (unary_operation e numeric_positive) = sign_value_type (value_type e)
value_type (unary_operation e numeric_negative) = sign_value_type (value_type e)
value_type (comparison _ _ _) = boolean_type

-- `new ExpressionList(exprList->size())` is a list of that many null pointers; the clones are
-- pushed behind them.
abbrev pub null_arguments : ExpressionList → ExpressionList → ExpressionList
null_arguments nil rest = rest
null_arguments (null_argument xs) rest = null_argument (null_arguments xs rest)
null_arguments (argument x xs) rest = null_argument (null_arguments xs rest)

-- Copying follows a null argument.
unfoldable mutual
  pub clone : Expression → Outcome Expression
  clone (variable_reference x) = ok (variable_reference x)
  clone (get_attribute e a) = do ok (get_attribute (← clone e) a)
  clone (method_call m xs) = do ok (method_call m (null_arguments xs (← clone_arguments xs)))
  clone (double_literal d) = ok (double_literal d)
  clone (integer_literal n) = ok (integer_literal n)
  clone (boolean_literal v) = ok (boolean_literal v)
  clone (string_literal s) = ok (string_literal s)
  clone (binary_operation l r op) = do ok (binary_operation (← clone l) (← clone r) op)
  clone (unary_operation e op) = do ok (unary_operation (← clone e) op)
  clone (comparison l r op) = do ok (comparison (← clone l) (← clone r) op)

  -- the clones that `cloneExpressionList` pushes
  pub clone_arguments : ExpressionList → Outcome ExpressionList
  clone_arguments nil = ok nil
  clone_arguments (null_argument xs) = undefined
  clone_arguments (argument x xs) = do ok (argument (← clone x) (← clone_arguments xs))

-- `cloneExpressionList`
unfoldable pub clone_expression_list : ExpressionList → Outcome ExpressionList
unfolding clone
clone_expression_list xs = do ok (null_arguments xs (← clone_arguments xs))
