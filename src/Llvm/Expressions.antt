-- ===== src/Llvm/Expressions.antt =====
-- lib/backends/llvm/llvm_visitor.cpp: the values of expressions.
pub mod Kinds
pub mod Numbers
pub mod Compared
pub mod Operators
pub mod Total
use b.Base.{
  ℕ, Bool, true, false, ◌&&◌, ◌||◌, not, Option, none, some, List, [], ◌∷◌, Str, ◌==◌,
  if◌then◌else◌,
}
use b.Base.Int.{ℤ, pos}
use b.Ast.Expression.{
  Expression, ExpressionList, BinaryOperation, UnaryOperation, ComparisonOperation, nil,
  null_argument, argument, variable_reference, get_attribute, method_call, double_literal,
  integer_literal, boolean_literal, string_literal, binary_operation, unary_operation, comparison,
  addition, subtraction, multiplication, division, modulus, numeric_positive, numeric_negative,
  boolean_negation, or, and,
}
use b.Llvm
use b.Llvm.{
  LlvmType, void_type, double_type, byte_pointer, pointer_pointer, int_type, struct_pointer, Value,
  constant_double, constant_int, global_string, type_of, Opcode, State, M, ◌>>=◌, pure, break, emit,
}
use b.Llvm.Bindings.{Bindings}

abbrev pub is_integer_type : LlvmType → Bool
is_integer_type (int_type _) = true
is_integer_type _ = false

abbrev pub is_floating_point_type : LlvmType → Bool
is_floating_point_type double_type = true
is_floating_point_type _ = false

-- Integers of one width.
abbrev pub same_integers : LlvmType → LlvmType → Bool
same_integers (int_type w) (int_type w') = w == w'
same_integers _ _ = false

abbrev integer_opcode : BinaryOperation → Opcode
integer_opcode addition = Opcode.add
integer_opcode subtraction = Opcode.sub
integer_opcode multiplication = Opcode.mul
integer_opcode division = Opcode.exact_sdiv
integer_opcode modulus = Opcode.srem

abbrev float_opcode : BinaryOperation → Opcode
float_opcode addition = Opcode.fadd
float_opcode subtraction = Opcode.fsub
float_opcode multiplication = Opcode.fmul
float_opcode division = Opcode.fdiv
float_opcode modulus = Opcode.frem

module _ {B : Type 0} where
  -- an instruction that LLVM takes on such operands only
  abbrev checked : Bool → Opcode → List Value → LlvmType → M B Value
  checked test op operands t = if test then emit op operands t else break

  -- converts to double if necessary
  abbrev to_double : Value → M B Value
  to_double v =
      if is_floating_point_type (type_of v)
      then pure v
      else checked (is_integer_type (type_of v)) Opcode.si_to_fp (v ∷ []) double_type

  abbrev integer_operation : BinaryOperation → Value → Value → M B Value
  integer_operation op left right =
      checked (same_integers (type_of left) (type_of right)) (integer_opcode op) (left ∷ right ∷ [])
        (type_of left)

  abbrev float_operation : BinaryOperation → Value → Value → M B Value
  float_operation op left right = do
    l ← to_double left
    r ← to_double right
    emit (float_opcode op) (l ∷ r ∷ []) double_type

  -- two operands that are no variants
  unfoldable pub number_operation : BinaryOperation → Value → Value → M B Value
  number_operation op left right =
      if is_integer_type (type_of left) && is_integer_type (type_of right)
      then integer_operation op left right
      else float_operation op left right

  unfoldable pub number_unary : UnaryOperation → Value → M B Value
  number_unary numeric_positive v = pure v
  number_unary numeric_negative v =
      checked (is_integer_type (type_of v)) Opcode.neg (v ∷ []) (type_of v)
  number_unary boolean_negation v =
      checked (is_integer_type (type_of v)) Opcode.not_ (v ∷ []) (type_of v)

  abbrev integer_comparison : ComparisonOperation → Value → Value → M B Value
  integer_comparison and left right =
      checked (same_integers (type_of left) (type_of right)) Opcode.and_ (left ∷ right ∷ [])
        (type_of left)
  integer_comparison or left right =
      checked (same_integers (type_of left) (type_of right)) Opcode.or_ (left ∷ right ∷ [])
        (type_of left)
  integer_comparison op left right =
      checked (same_integers (type_of left) (type_of right)) (Opcode.icmp op) (left ∷ right ∷ [])
        (int_type 1)

  -- `CreateAnd` and `CreateOr` do not take doubles
  abbrev compare_floats : ComparisonOperation → Value → Value → M B Value
  compare_floats and l r = break
  compare_floats or l r = break
  compare_floats op l r = emit (Opcode.fcmp op) (l ∷ r ∷ []) (int_type 1)

  abbrev float_comparison : ComparisonOperation → Value → Value → M B Value
  float_comparison op left right = do l ← to_double left; r ← to_double right; compare_floats op l r

  unfoldable pub number_comparison : ComparisonOperation → Value → Value → M B Value
  number_comparison op left right =
      if is_integer_type (type_of left) && is_integer_type (type_of right)
      then integer_comparison op left right
      else float_comparison op left right

module _ {B : Type 0} (b : Bindings B) where
  abbrev pub is_variant : Value → Bool
  is_variant v = b.is_variant_type (type_of v)

  abbrev reference : Str → Option Value → M B Value
  reference x none = b.create_variable_lookup x
  reference x (some v) = b.get_new_reference_for_variable v

  abbrev binary_value : BinaryOperation → Value → Value → M B Value
  binary_value op left right =
      if is_variant left || is_variant right
      then b.create_variant_binary_operation op left right
      else number_operation op left right

  abbrev unary_value : UnaryOperation → Value → M B Value
  unary_value op v =
      if is_variant v then b.create_variant_unary_operation op v else number_unary op v

  abbrev comparison_value : ComparisonOperation → Value → Value → M B Value
  comparison_value op left right =
      if is_variant left || is_variant right
      then b.create_variant_comparison op left right
      else number_comparison op left right

  unfoldable mutual
    pub expression : Expression → M B Value
    expression (variable_reference x) = λ s. reference x (s.overriden x) s
    expression (get_attribute e a) = do v ← expression e; b.create_get_attribute a v
    expression (method_call m xs) = do vs ← arguments xs; b.create_method_call m vs
    expression (double_literal v) = pure (constant_double v)
    expression (integer_literal n) = pure (constant_int 64 n)
    expression (boolean_literal v) = pure (constant_int 1 (if v then pos 1 else pos 0))
    expression (string_literal t) = pure (global_string t)
    expression (binary_operation l r op) = do
      left ← expression l
      right ← expression r
      binary_value op left right
    expression (unary_operation e op) = do v ← expression e; unary_value op v
    expression (comparison l r op) = do
      left ← expression l
      right ← expression r
      comparison_value op left right

    pub arguments : ExpressionList → M B (List Value)
    arguments nil = pure []
    arguments (null_argument xs) = break
    arguments (argument x xs) = do v ← expression x; vs ← arguments xs; pure (v ∷ vs)
