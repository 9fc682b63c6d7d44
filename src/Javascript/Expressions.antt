-- ===== src/Javascript/Expressions.antt =====
-- lib/backends/javascript/javascript_visitor.cpp: the code that is written for an expression.
-- The operands of a chain of `<<` are taken from left to right.
use b.Base.{
  ℕ, ◌/◌, ◌%◌, Bool, true, false, Str, [], ◌∷◌, codes, Option, none, some, ok, undefined, ◌>>=◌,
  find, if◌then◌else◌,
}
use b.Base.Double.{DoubleOps}
use b.Ast.Expression.{
  Expression, ExpressionList, nil, null_argument, argument, variable_reference, get_attribute,
  method_call, double_literal, integer_literal, boolean_literal, string_literal, binary_operation,
  unary_operation, comparison, binary_code, unary_code, comparison_code,
}
use b.Passes.Convert.{print_long, print_boolean}
use b.Escape.{javascript_escape}
use b.Javascript.Emitter.{Step, ◌>>◌, write}

-- `{(char) (op >> 8), (char) (op & 0xFF)}`: two bytes, of which one is NUL for a one-byte operator
abbrev pub operator_bytes : ℕ → Str
operator_bytes code = (code / 256) ∷ (code % 256) ∷ []

-- `d` writes doubles, and `f` is the fuel of the escape loop.
module _ (d : DoubleOps) (f : ℕ) where
  unfoldable pub write_escaped : Str → Step
  unfolding write
  write_escaped text s = javascript_escape f text >>= λ t. write t s

  -- a variable of a loop around, or a field of `data`
  abbrev pub reference : Option Str → Str → Step
  reference (some shadow) x = write shadow
  reference none x = write (codes "data['") >> write_escaped x >> write (codes "']")

  unfoldable mutual
    pub expression : Expression → Step
    expression (variable_reference x) = λ s. reference (find x s.shadow_values) x s
    expression (get_attribute e a) =
        expression e >> write (codes "['") >> write_escaped a >> write (codes "']")
    expression (method_call m xs) =
        write (codes "helpers['")
        >> write m
        >> write (codes "'](")
        >> arguments true xs
        >> write (codes ")")
    expression (double_literal v) = write (d.to_string v)
    expression (integer_literal n) = write (print_long n)
    expression (boolean_literal v) = write (print_boolean v)
    expression (string_literal t) = write (codes "'") >> write_escaped t >> write (codes "'")
    expression (binary_operation l r op) =
        expression l
        >> write (codes " ")
        >> write (operator_bytes (binary_code op))
        >> write (codes " ")
        >> expression r
    expression (unary_operation e op) = write (unary_code op ∷ []) >> expression e
    expression (comparison l r op) =
        expression l
        >> write (codes " ")
        >> write (operator_bytes (comparison_code op))
        >> write (codes " ")
        >> expression r

    -- the loop over the arguments; the flag is `first`
    pub arguments : Bool → ExpressionList → Step
    arguments first nil = ok
    arguments first (null_argument xs) = λ s. undefined
    arguments first (argument x xs) =
        (if first then ok else write (codes ", ")) >> expression x >> arguments false xs

  -- `JavascriptVisitor::expression` behind the text before it, and the text behind it
  abbrev pub around : Str → Expression → Str → Step
  around before e after = write before >> expression e >> write after
