-- ===== src/Print/Inline.antt =====
-- Every expression is printed on one line.
use b.Base.{
  ℕ, zero, suc, ◌+◌, ◌*◌, ◌/◌, ◌%◌, ◌<◌, ◌≡◌, refl, Bool, true, false, Str, [], ◌∷◌, ◌++◌, codes,
  count_byte, count_byte-append, length, arith, if◌then◌else◌,
}
use b.Base.Int.{ℤ, pos, negsuc}
use b.Base.Double.{DoubleOps}
use b.Base.Post.{Partial, Post-bind, returns, breaks}
use b.Ast.Expression.{
  Expression, ExpressionList, BinaryOperation, UnaryOperation, ComparisonOperation, nil,
  null_argument, argument, variable_reference, get_attribute, method_call, double_literal,
  integer_literal, boolean_literal, string_literal, binary_operation, unary_operation, comparison,
  binary_code, unary_code, comparison_code, addition, subtraction, multiplication, division,
  modulus, numeric_positive, numeric_negative, boolean_negation, equal, not_equal, greater_than,
  greater_or_equal, less_than, less_or_equal, or, and,
}
use b.Passes.Convert.{print_long, print_boolean, digits_of}
use b.Escape.{print_escape}
use b.Escape.Loop.{AllBytes}
use b.Escape.Text.{IsByte, IsPrinted, print_escape-text, print_escape-IsPrinted}
use b.Print.{operator_text, print_expression, print_arguments}

abbrev pub breaks_in : Str → ℕ
breaks_in s = count_byte 10 s

abbrev pub OneLine : Str → Type 0
OneLine s = breaks_in s ≡ 0

pub breaks-append : (s t : Str) → breaks_in (s ++ t) ≡ breaks_in s + breaks_in t
breaks-append = count_byte-append 10

printed-OneLine : (s : Str) → AllBytes IsPrinted s → OneLine s
unfolding count_byte
printed-OneLine [] h = refl
printed-OneLine (c ∷ s) h = ground (arith, printed-OneLine s h.1)

digits-OneLine : (f n : ℕ) → OneLine (digits_of f n)
unfolding digits_of count_byte
digits-OneLine zero n = refl
digits-OneLine (suc f) n =
    ground (
      arith,
      digits-OneLine f (n / 10),
      breaks-append (digits_of f (n / 10)) ((b'0' + n % 10) ∷ []),
    )

print_long-OneLine : (n : ℤ) → OneLine (print_long n)
unfolding print_long count_byte
print_long-OneLine (pos n) = digits-OneLine (suc n) n
print_long-OneLine (negsuc n) = omega (arith, digits-OneLine (suc (suc n)) (suc n))

print_boolean-OneLine : (v : Bool) → OneLine (print_boolean v)
unfolding count_byte
print_boolean-OneLine true = refl
print_boolean-OneLine false = refl

pub separator-OneLine : (first : Bool) → OneLine (if first then [] else codes ", ")
unfolding count_byte
separator-OneLine true = refl
separator-OneLine false = refl

binary_code-ne : (op : BinaryOperation) → OneLine (binary_code op ∷ [])
unfolding count_byte
binary_code-ne addition = refl
binary_code-ne subtraction = refl
binary_code-ne multiplication = refl
binary_code-ne division = refl
binary_code-ne modulus = refl

unary_code-ne : (op : UnaryOperation) → OneLine (unary_code op ∷ [])
unfolding count_byte
unary_code-ne numeric_positive = refl
unary_code-ne numeric_negative = refl
unary_code-ne boolean_negation = refl

operator_text-OneLine : (op : ComparisonOperation) → OneLine (operator_text (comparison_code op))
unfolding count_byte
operator_text-OneLine equal = refl
operator_text-OneLine not_equal = refl
operator_text-OneLine greater_than = refl
operator_text-OneLine greater_or_equal = refl
operator_text-OneLine less_than = refl
operator_text-OneLine less_or_equal = refl
operator_text-OneLine or = refl
operator_text-OneLine and = refl

module _ (d : DoubleOps) (f : ℕ) where
  -- A text of bytes that the fuel is enough to escape.
  abbrev pub Escapable : Str → Type 0
  Escapable s = AllBytes IsByte s × (5 * length s < f)

  pub print_escape-OneLine : (s : Str) → Escapable s → Partial OneLine (print_escape f s)
  print_escape-OneLine s (bytes, enough) = rw (print_escape-text f s bytes enough) (
      returns (
        printed-OneLine _
          (print_escape-IsPrinted f s _ bytes enough (print_escape-text f s bytes enough))))

  -- The names in an expression have no line breaks, and the fuel is enough for its texts.
  abbrev mutual
    pub IsClean : Expression → Type 0
    IsClean (variable_reference x) = OneLine x
    IsClean (get_attribute e a) = IsClean e × OneLine a
    IsClean (method_call m xs) = OneLine m × AreClean xs
    IsClean (double_literal v) = OneLine (d.print v)
    IsClean (integer_literal n) = Unit
    IsClean (boolean_literal v) = Unit
    IsClean (string_literal s) = Escapable s
    IsClean (binary_operation l r op) = IsClean l × IsClean r
    IsClean (unary_operation e op) = IsClean e
    IsClean (comparison l r op) = IsClean l × IsClean r

    AreClean : ExpressionList → Type 0
    AreClean nil = Unit
    AreClean (null_argument xs) = AreClean xs
    AreClean (argument x xs) = IsClean x × AreClean xs

  ruleset lines = (arith, breaks-append)

  mutual
    unfolding print_expression count_byte

    pub expression-OneLine : (e : Expression) → IsClean e → Partial OneLine (print_expression d f e)
    expression-OneLine (variable_reference x) h = returns (omega lines)
    expression-OneLine (get_attribute e a) h =
        Post-bind (expression-OneLine e h.0) λ t ht. returns (omega lines)
    expression-OneLine (method_call m xs) h =
        Post-bind (arguments-OneLine true xs h.1) λ t ht. returns (omega lines)
    expression-OneLine (double_literal v) h = returns (omega lines)
    expression-OneLine (integer_literal n) h = returns (omega (lines, print_long-OneLine n))
    expression-OneLine (boolean_literal v) h = returns (omega (lines, print_boolean-OneLine v))
    expression-OneLine (string_literal s) h =
        Post-bind (print_escape-OneLine s h) λ t ht. returns (omega lines)
    expression-OneLine (binary_operation l r op) h = Post-bind (expression-OneLine l h.0) λ t ht.
        Post-bind (expression-OneLine r h.1) λ u hu. returns (omega (lines, binary_code-ne op))
    expression-OneLine (unary_operation e op) h =
        Post-bind (expression-OneLine e h) λ t ht. returns (omega (lines, unary_code-ne op))
    expression-OneLine (comparison l r op) h = Post-bind (expression-OneLine l h.0) λ t ht.
        Post-bind (expression-OneLine r h.1)
          λ u hu. returns (omega (lines, operator_text-OneLine op))

    arguments-OneLine :
        (first : Bool) (xs : ExpressionList)
        → AreClean xs
        → Partial OneLine (print_arguments d f first xs)
    arguments-OneLine first nil h = returns refl
    arguments-OneLine first (null_argument xs) h = breaks
    arguments-OneLine first (argument x xs) h = Post-bind (expression-OneLine x h.0) λ t ht.
        Post-bind (arguments-OneLine false xs h.1)
          λ u hu. returns (omega (lines, separator-OneLine first))
