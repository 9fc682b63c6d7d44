-- ===== src/Passes/Fold/Sound.antt =====
-- One step of the fold pass keeps the meaning of an expression.
use b.Base.{◌≡◌, ◌≢◌, refl, ◌∙◌, sym, true, some, Str, arith}
use b.Base.Int.{ℤ, pos, negsuc, ◌-ℤ◌, ◌*ℤ◌}
use b.Base.Double.{DoubleOps}
use b.Base.Post.{Checks}
use b.Ast.Expression.{
  Expression, BinaryOperation, UnaryOperation, ComparisonOperation, get_attribute, double_literal,
  integer_literal, boolean_literal, string_literal, binary_operation, unary_operation, comparison,
  numeric_positive, numeric_negative, boolean_negation,
}
use b.Meaning.{Host, eval, IsExact, Exact, integer}
use b.Passes.Fold.{
  fold_binary, fold_sign, fold_negation, fold_comparison, fold_long, is_literal_expression,
}

*ℤ-one : (n : ℤ) → n *ℤ pos 1 ≡ n
unfolding ◌*ℤ◌
*ℤ-one n = ground arith

*ℤ-minus_one : (n : ℤ) → n *ℤ negsuc 0 ≡ pos 0 -ℤ n
unfolding ◌*ℤ◌ ◌-ℤ◌
*ℤ-minus_one n = ground arith

module _ (d : DoubleOps) (h : Host) where
  -- The same value, and exact comparisons.
  abbrev pub Sound : Expression → Expression → Type 0
  Sound e e' = (eval d h e' ≡ eval d h e) × IsExact d h e'

  fold_long-Sound :
      (op : BinaryOperation) (a c : ℤ)
      → Checks
          (Sound (binary_operation (integer_literal a) (integer_literal c) op))
          (fold_long op a c)
  unfolding fold_long eval
  fold_long-Sound op a c = ground arith

  pub fold_binary-Sound :
      (l r : Expression) (op : BinaryOperation)
      → IsExact d h (binary_operation l r op)
      → Checks (Sound (binary_operation l r op)) (fold_binary d l r op)
  unfolding fold_binary eval
  fold_binary-Sound (integer_literal a) (integer_literal c) op ex = fold_long-Sound op a c
  fold_binary-Sound (integer_literal a) (double_literal c) op ex = ground arith
  fold_binary-Sound (double_literal a) (integer_literal c) op ex = ground arith
  fold_binary-Sound (double_literal a) (double_literal c) op ex = ground arith
  fold_binary-Sound (integer_literal a) _ op ex = tt
  fold_binary-Sound (double_literal a) _ op ex = tt
  fold_binary-Sound _ _ op ex = tt

  pub fold_sign-Sound :
      (op : UnaryOperation) (e : Expression)
      → op ≢ boolean_negation
      → IsExact d h e
      → Checks (Sound (unary_operation e op)) (fold_sign d op e)
  unfolding fold_sign eval
  fold_sign-Sound numeric_positive (integer_literal n) ne ex = ground (arith, *ℤ-one n)
  fold_sign-Sound numeric_negative (integer_literal n) ne ex = ground (arith, *ℤ-minus_one n)
  fold_sign-Sound boolean_negation (integer_literal n) ne ex = absurd (ne refl)
  fold_sign-Sound op (double_literal v) ne ex = ground arith
  fold_sign-Sound op e ne ex = (refl, ex)

  pub fold_negation-Sound :
      (e : Expression)
      → IsExact d h e
      → Checks (Sound (unary_operation e boolean_negation)) (fold_negation d e)
  unfolding fold_negation eval
  fold_negation-Sound (boolean_literal v) ex = (refl, tt)
  fold_negation-Sound e ex = (refl, ex)

  pub fold_comparison-Sound :
      (l r : Expression) (op : ComparisonOperation)
      → is_literal_expression l ≡ true
      → is_literal_expression r ≡ true
      → IsExact d h (comparison l r op)
      → Checks (Sound (comparison l r op)) (fold_comparison d l r op)
  unfolding fold_comparison eval
  fold_comparison-Sound (integer_literal a) (integer_literal c) op hl hr ex =
      let exact = ex.2 a c refl refl op in ground arith
  fold_comparison-Sound (integer_literal a) r op hl hr ex = ground arith
  fold_comparison-Sound (double_literal a) r op hl hr ex = ground arith
  fold_comparison-Sound (boolean_literal a) r op hl hr ex = ground arith
  fold_comparison-Sound (string_literal a) r op hl hr ex = ground arith
  fold_comparison-Sound _ r op hl hr ex = cc

  pub Sound-refl : (e : Expression) → IsExact d h e → Sound e e
  Sound-refl e ex = (refl, ex)

  pub Sound-trans : (e m n : Expression) → Sound e m → Sound m n → Sound e n
  Sound-trans e m n p q = (q.0 ∙ p.0, q.1)

  -- A node over sound operands is sound.
  pub binary-Sound :
      (l r l' r' : Expression) (op : BinaryOperation)
      → Sound l l'
      → Sound r r'
      → Sound (binary_operation l r op) (binary_operation l' r' op)
  unfolding eval
  binary-Sound l r l' r' op p q = (rw (p.0, q.0), (p.1, q.1))

  pub unary-Sound :
      (e e' : Expression) (op : UnaryOperation)
      → Sound e e'
      → Sound (unary_operation e op) (unary_operation e' op)
  unfolding eval
  unary-Sound e e' op p = (rw p.0, p.1)

  pub attribute-Sound :
      (e e' : Expression) (a : Str) → Sound e e' → Sound (get_attribute e a) (get_attribute e' a)
  unfolding eval
  attribute-Sound e e' a p = (rw p.0, p.1)

  pub comparison-Sound :
      (l r l' r' : Expression) (op : ComparisonOperation)
      → ((a c : ℤ) → eval d h l ≡ some (integer a) → eval d h r ≡ some (integer c) → Exact d h a c)
      → Sound l l'
      → Sound r r'
      → Sound (comparison l r op) (comparison l' r' op)
  unfolding eval
  comparison-Sound l r l' r' op ex p q =
      (rw (p.0, q.0), (p.1, q.1, λ a c ha hc. ex a c (sym p.0 ∙ ha) (sym q.0 ∙ hc)))
