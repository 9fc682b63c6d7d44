-- ===== src/Passes/Fold/Stable.antt =====
-- The expressions that the fold pass leaves as they are.
use b.Base.{ℕ, zero, suc, ◌≡◌, refl, Bool, true, ◌&&◌, Outcome, ok}
use b.Base.Double.{DoubleOps}
use b.Base.Post.{Partial, Post-bind, Post-if, returns, breaks, stops}
use b.Ast.Expression.{
  Expression, ExpressionList, type, nil, null_argument, argument, variable_reference, get_attribute,
  method_call, double_literal, integer_literal, boolean_literal, string_literal, binary_operation,
  unary_operation, comparison, numeric_positive, numeric_negative, boolean_negation,
}
use b.Passes.Walk.{process, visit, is_leaf, walk_node, walk_children, walk_arguments}
use b.Passes.Fold.{
  fold_node, fold_binary, fold_sign, fold_negation, fold_comparison, fold_operand,
  fold_constant_expressions_pass, is_numeric_literal_expression, is_literal_expression,
  is_boolean_literal_expression,
}

module _ (d : DoubleOps) where
  -- Every node is one that its fold leaves as it is.
  abbrev mutual
    pub IsStable : Expression → Type 0
    IsStable (get_attribute e a) = IsStable e
    IsStable (method_call m xs) = AreStable xs
    IsStable (binary_operation l r op) =
        IsStable l
        × IsStable r
        × ((is_numeric_literal_expression l && is_numeric_literal_expression r) ≡ true
            → fold_binary d l r op ≡ ok (binary_operation l r op))
    IsStable (unary_operation e boolean_negation) =
        IsStable e × (fold_negation d e ≡ ok (unary_operation e boolean_negation))
    IsStable (unary_operation e numeric_positive) =
        IsStable e × (fold_sign d numeric_positive e ≡ ok (unary_operation e numeric_positive))
    IsStable (unary_operation e numeric_negative) =
        IsStable e × (fold_sign d numeric_negative e ≡ ok (unary_operation e numeric_negative))
    IsStable (comparison l r op) =
        IsStable l
        × IsStable r
        × ((is_literal_expression l && is_literal_expression r) ≡ true
            → fold_comparison d l r op ≡ ok (comparison l r op))
    IsStable _ = Unit

    pub AreStable : ExpressionList → Type 0
    AreStable nil = Unit
    AreStable (null_argument xs) = ⊥
    AreStable (argument x xs) = IsStable x × AreStable xs

  pub literal-IsStable : (e : Expression) → is_literal_expression e ≡ true → IsStable e
  literal-IsStable (double_literal v) h = tt
  literal-IsStable (integer_literal v) h = tt
  literal-IsStable (boolean_literal v) h = tt
  literal-IsStable (string_literal v) h = tt
  literal-IsStable (variable_reference x) h = tt
  literal-IsStable (get_attribute e a) h = cc
  literal-IsStable (method_call m xs) h = cc
  literal-IsStable (binary_operation l r op) h = cc
  literal-IsStable (unary_operation e op) h = cc
  literal-IsStable (comparison l r op) h = cc

  abbrev pub Same : Expression → Expression → Type 0
  Same e e' = e' ≡ e

  -- `rec` keeps a stable expression
  module _ (rec : Expression → Outcome Expression)
      (rec_same : (e : Expression) → IsStable e → Partial (Same e) (rec e)) where
    operand-Same :
        (test : Expression → Bool) (e : Expression)
        → IsStable e
        → Partial (Same e) (fold_operand d test rec e)
    operand-Same test e h = Post-if (test e) (λ _. returns refl) (λ _. rec_same e h)

    arguments-Same :
        (xs : ExpressionList) → AreStable xs → Partial (λ ys. ys ≡ xs) (walk_arguments rec xs)
    unfolding walk_arguments
    arguments-Same nil h = returns refl
    arguments-Same (null_argument xs) h = breaks
    arguments-Same (argument x xs) h =
        Post-bind (rec_same x h.0)
          λ x' p. Post-bind (arguments-Same xs h.1) λ xs' q. returns (rw (p, q))

    pub children-Same : (e : Expression) → IsStable e → Partial (Same e) (walk_children rec e)
    unfolding walk_children
    children-Same (get_attribute e a) h = Post-bind (rec_same e h) λ e' p. returns (rw p)
    children-Same (method_call m xs) h = Post-bind (arguments-Same xs h) λ xs' p. returns (rw p)
    children-Same (binary_operation l r op) h =
        Post-bind (rec_same l h.0) λ l' p. Post-bind (rec_same r h.1) λ r' q. returns (rw (p, q))
    children-Same (unary_operation e boolean_negation) h =
        Post-bind (rec_same e h.0) λ e' p. returns (rw p)
    children-Same (unary_operation e numeric_positive) h =
        Post-bind (rec_same e h.0) λ e' p. returns (rw p)
    children-Same (unary_operation e numeric_negative) h =
        Post-bind (rec_same e h.0) λ e' p. returns (rw p)
    children-Same (comparison l r op) h =
        Post-bind (rec_same l h.0) λ l' p. Post-bind (rec_same r h.1) λ r' q. returns (rw (p, q))
    children-Same (variable_reference x) h = returns refl
    children-Same (double_literal v) h = returns refl
    children-Same (integer_literal v) h = returns refl
    children-Same (boolean_literal v) h = returns refl
    children-Same (string_literal v) h = returns refl

    node-Same : (e : Expression) → IsStable e → Partial (Same e) (fold_node d rec e)
    unfolding fold_node
    node-Same (binary_operation l r op) h =
        Post-bind (operand-Same is_numeric_literal_expression l h.0) λ l' p.
          Post-bind (operand-Same is_numeric_literal_expression r h.1)
            λ r' q. rw (p, q) (Post-if _ (λ t. rw (h.2 t) (returns refl)) (λ _. returns refl))
    node-Same (unary_operation e boolean_negation) h =
        Post-bind (operand-Same is_boolean_literal_expression e h.0)
          λ e' p. rw (p, h.1) (returns refl)
    node-Same (unary_operation e numeric_positive) h =
        Post-bind (operand-Same is_numeric_literal_expression e h.0)
          λ e' p. rw (p, h.1) (returns refl)
    node-Same (unary_operation e numeric_negative) h =
        Post-bind (operand-Same is_numeric_literal_expression e h.0)
          λ e' p. rw (p, h.1) (returns refl)
    node-Same (comparison l r op) h = Post-bind (operand-Same is_literal_expression l h.0) λ l' p.
        Post-bind (operand-Same is_literal_expression r h.1)
          λ r' q. rw (p, q) (Post-if _ (λ t. rw (h.2 t) (returns refl)) (λ _. returns refl))
    node-Same (get_attribute e a) h = returns refl
    node-Same (method_call m xs) h = returns refl
    node-Same (variable_reference x) h = returns refl
    node-Same (double_literal v) h = returns refl
    node-Same (integer_literal v) h = returns refl
    node-Same (boolean_literal v) h = returns refl
    node-Same (string_literal v) h = returns refl

    walk_node-Same :
        (e n : Expression) → n ≡ e → IsStable e → Partial (Same e) (walk_node rec (type e) n)
    unfolding walk_node
    walk_node-Same e n p h = rw p (Post-if _ (λ _. children-Same e h) (λ _. rec_same e h))

    visit-Same :
        (e : Expression)
        → IsStable e
        → Partial (Same e) (visit (fold_constant_expressions_pass d) rec e)
    unfolding visit
    visit-Same e h =
        Post-bind (node-Same e h)
          λ n p. Post-if (is_leaf e) (λ _. returns p) (λ _. walk_node-Same e n p h)

  pub process-Same :
      (f : ℕ) (e : Expression)
      → IsStable e
      → Partial (Same e) (process (fold_constant_expressions_pass d) f e)
  unfolding process
  process-Same zero e h = stops tt
  process-Same (suc f) e h =
      visit-Same (process (fold_constant_expressions_pass d) f) (process-Same f) e h
