-- ===== src/Passes/Fold/Mixed.antt =====
-- The comparisons of literals that the fold pass has no defined behaviour for.
use b.Base.{Bool, true, false, ◌&&◌, not, ◌≡◌, ◌↔◌, undefined, if◌then◌else◌, arith}
use b.Base.Double.{DoubleOps}
use b.Ast.Expression.{Expression, ComparisonOperation, boolean_literal, equal, not_equal, or, and}
use b.Passes.Fold.{
  is_literal_expression, is_numeric_literal_expression, is_boolean_literal_expression,
  fold_comparison, fold_order, fold_equality, fold_connective,
}

abbrev differ : Bool → Bool → Bool
differ true v = not v
differ false v = v

-- whether `left op right` is undecided by a Boolean on the left
abbrev undecided : ComparisonOperation → Expression → Bool
undecided or (boolean_literal v) = not v
undecided and (boolean_literal v) = v
undecided op e = false

-- The pairs of literals that the guards of the pass let through and its casts do not fit.
abbrev pub is_misread : Expression → Expression → ComparisonOperation → Bool
is_misread left right equal = false
is_misread left right not_equal = false
is_misread left right or =
    if is_boolean_literal_expression left
    then undecided or left && not (is_boolean_literal_expression right)
    else is_boolean_literal_expression right
is_misread left right and =
    if is_boolean_literal_expression left
    then undecided and left && not (is_boolean_literal_expression right)
    else is_boolean_literal_expression right
is_misread left right op =
    differ (is_numeric_literal_expression left) (is_numeric_literal_expression right)

-- Folding the comparison of two literals is undefined exactly where an order compares a number
-- with a literal of another kind, or a connective has a Boolean on one side only and the left side
-- does not decide it.
pub fold_comparison-undefined_iff :
    (d : DoubleOps) (l r : Expression) (op : ComparisonOperation)
    → is_literal_expression l ≡ true
    → is_literal_expression r ≡ true
    → (fold_comparison d l r op ≡ undefined) ↔ (is_misread l r op ≡ true)
unfolding fold_comparison fold_order fold_equality fold_connective
fold_comparison-undefined_iff d l r op hl hr = ground arith
