-- ===== src/Passes/Fold/Kept.antt =====
-- What the fold of one node returns: the node itself, or a literal.
use b.Base.{ℕ, ◌≡◌, ◌⊎◌, true, arith}
use b.Base.Int.{ℤ}
use b.Base.Double.{DoubleOps}
use b.Base.Post.{Checks}
use b.Ast.Expression.{
  Expression, BinaryOperation, UnaryOperation, ComparisonOperation, double_literal, integer_literal,
  binary_operation, unary_operation, comparison, boolean_negation,
}
use b.Passes.Fold.{
  fold_binary, fold_sign, fold_negation, fold_comparison, fold_long, fold_double,
  is_literal_expression,
}

-- A fold keeps the node `e` that it was given, or returns a literal.
abbrev pub Kept : Expression → Expression → Type 0
Kept e e' = (e' ≡ e) ⊎ (is_literal_expression e' ≡ true)

module _ (d : DoubleOps) where
  fold_long-Kept :
      (op : BinaryOperation) (a c : ℤ) (e : Expression) → Checks (Kept e) (fold_long op a c)
  unfolding fold_long
  fold_long-Kept op a c e = ground arith

  fold_double-Kept :
      (op : BinaryOperation) (a c : ℕ) (e : Expression) → Checks (Kept e) (fold_double d op a c e)
  unfolding fold_double
  fold_double-Kept op a c e = ground arith

  pub fold_binary-Kept :
      (l r : Expression) (op : BinaryOperation)
      → Checks (Kept (binary_operation l r op)) (fold_binary d l r op)
  unfolding fold_binary
  fold_binary-Kept (integer_literal a) (integer_literal c) op = fold_long-Kept op a c _
  fold_binary-Kept (integer_literal a) (double_literal c) op = fold_double-Kept op _ _ _
  fold_binary-Kept (double_literal a) (integer_literal c) op = fold_double-Kept op _ _ _
  fold_binary-Kept (double_literal a) (double_literal c) op = fold_double-Kept op _ _ _
  fold_binary-Kept (integer_literal a) _ op = tt
  fold_binary-Kept (double_literal a) _ op = tt
  fold_binary-Kept _ _ op = tt

  pub fold_sign-Kept :
      (op : UnaryOperation) (e : Expression)
      → Checks (Kept (unary_operation e op)) (fold_sign d op e)
  unfolding fold_sign
  fold_sign-Kept op (integer_literal n) = ground arith
  fold_sign-Kept op e = ground arith

  pub fold_negation-Kept :
      (e : Expression) → Checks (Kept (unary_operation e boolean_negation)) (fold_negation d e)
  unfolding fold_negation
  fold_negation-Kept e = ground arith

  pub fold_comparison-Kept :
      (l r : Expression) (op : ComparisonOperation)
      → Checks (Kept (comparison l r op)) (fold_comparison d l r op)
  unfolding fold_comparison
  fold_comparison-Kept l r op = ground arith
