-- ===== src/Passes/Fold/Idempotent.antt =====
-- Folding a folded expression changes nothing.
use b.Base.{
  ℕ, zero, suc, ◌≤◌, ◌≡◌, refl, Bool, true, false, ◌&&◌, Bool-cases, inl, inr, Outcome, ok,
  if◌then◌else◌, arith,
}
use b.Base.Double.{DoubleOps}
use b.Base.Post.{Post-ok}
use b.Ast.Expression.{
  Expression, ExpressionList, type, is_same_type, nil, null_argument, argument, variable_reference,
  get_attribute, method_call, double_literal, integer_literal, boolean_literal, string_literal,
  binary_operation, unary_operation, comparison, numeric_positive, numeric_negative,
  boolean_negation,
}
use b.Ast.Height.{height, arguments_height}
use b.Passes.Walk.{process, visit, is_leaf, walk_node, walk_children, walk_arguments}
use b.Passes.Fold.{
  fold_node, fold_operand, fold_constant_expressions_pass, is_numeric_literal_expression,
  is_literal_expression, is_boolean_literal_expression,
}
use b.Passes.Fold.Stable.{IsStable, AreStable}
use b.Passes.Fold.Settles.{process-IsStable}
use b.Passes.Fold.Total.{height-pos, height-fold-le}

same_type : (e : Expression) → is_same_type (type e) (type e) ≡ true
same_type (variable_reference x) = refl
same_type (get_attribute e a) = refl
same_type (method_call m xs) = refl
same_type (double_literal v) = refl
same_type (integer_literal v) = refl
same_type (boolean_literal v) = refl
same_type (string_literal v) = refl
same_type (binary_operation l r op) = refl
same_type (unary_operation e op) = refl
same_type (comparison l r op) = refl

module _ (d : DoubleOps) where
  module _ (f : ℕ) (rec : Expression → Outcome Expression)
      (rec_same : (e : Expression) → height e ≤ f → IsStable d e → rec e ≡ ok e) where
    operand-same :
        (test : Expression → Bool) (e : Expression)
        → height e ≤ f
        → IsStable d e
        → fold_operand d test rec e ≡ ok e
    operand-same test e le h = elim (Bool-cases (test e)) [
      | inl t ↦ rw t
      | inr t ↦ rw (t, rec_same e le h)
    ]

    arguments-same :
        (xs : ExpressionList)
        → arguments_height xs ≤ f
        → AreStable d xs
        → walk_arguments rec xs ≡ ok xs
    unfolding walk_arguments
    arguments-same nil le h = refl
    arguments-same (null_argument xs) le h = absurd h
    arguments-same (argument x xs) le h =
        rw (rec_same x (omega arith) h.0, arguments-same xs (omega arith) h.1)

    children-same : (e : Expression) → height e ≤ suc f → IsStable d e → walk_children rec e ≡ ok e
    unfolding walk_children
    children-same (get_attribute e a) le h = rw (rec_same e (omega arith) h)
    children-same (method_call m xs) le h = rw (arguments-same xs (omega arith) h)
    children-same (binary_operation l r op) le h =
        rw (rec_same l (omega arith) h.0, rec_same r (omega arith) h.1)
    children-same (unary_operation e boolean_negation) le h = rw (rec_same e (omega arith) h.0)
    children-same (unary_operation e numeric_positive) le h = rw (rec_same e (omega arith) h.0)
    children-same (unary_operation e numeric_negative) le h = rw (rec_same e (omega arith) h.0)
    children-same (comparison l r op) le h =
        rw (rec_same l (omega arith) h.0, rec_same r (omega arith) h.1)
    children-same (variable_reference x) le h = refl
    children-same (double_literal v) le h = refl
    children-same (integer_literal v) le h = refl
    children-same (boolean_literal v) le h = refl
    children-same (string_literal v) le h = refl

    guarded :
        (test : Bool) (r : Outcome Expression) (e : Expression)
        → (test ≡ true → r ≡ ok e)
        → (if test then r else ok e) ≡ ok e
    guarded true r e h = h refl
    guarded false r e h = refl

    node-same : (e : Expression) → height e ≤ suc f → IsStable d e → fold_node d rec e ≡ ok e
    unfolding fold_node
    node-same (binary_operation l r op) le h =
        rw
          (
            operand-same is_numeric_literal_expression l (omega arith) h.0,
            operand-same is_numeric_literal_expression r (omega arith) h.1,
          )
          (guarded (is_numeric_literal_expression l && is_numeric_literal_expression r) _ _ h.2)
    node-same (unary_operation e boolean_negation) le h =
        rw (operand-same is_boolean_literal_expression e (omega arith) h.0) h.1
    node-same (unary_operation e numeric_positive) le h =
        rw (operand-same is_numeric_literal_expression e (omega arith) h.0) h.1
    node-same (unary_operation e numeric_negative) le h =
        rw (operand-same is_numeric_literal_expression e (omega arith) h.0) h.1
    node-same (comparison l r op) le h =
        rw
          (
            operand-same is_literal_expression l (omega arith) h.0,
            operand-same is_literal_expression r (omega arith) h.1,
          )
          (guarded (is_literal_expression l && is_literal_expression r) _ _ h.2)
    node-same (get_attribute e a) le h = refl
    node-same (method_call m xs) le h = refl
    node-same (variable_reference x) le h = refl
    node-same (double_literal v) le h = refl
    node-same (integer_literal v) le h = refl
    node-same (boolean_literal v) le h = refl
    node-same (string_literal v) le h = refl

    walk_node-same :
        (e : Expression) → height e ≤ suc f → IsStable d e → walk_node rec (type e) e ≡ ok e
    unfolding walk_node
    walk_node-same e le h = rw (same_type e) (children-same e le h)

    otherwise :
        (test : Bool) (r : Outcome Expression) (e : Expression)
        → r ≡ ok e
        → (if test then ok e else r) ≡ ok e
    otherwise true r e h = refl
    otherwise false r e h = h

    visit-same :
        (e : Expression)
        → height e ≤ suc f
        → IsStable d e
        → visit (fold_constant_expressions_pass d) rec e ≡ ok e
    unfolding visit
    visit-same e le h = rw (node-same e le h) (otherwise (is_leaf e) _ _ (walk_node-same e le h))

  process-same :
      (f : ℕ) (e : Expression)
      → height e ≤ f
      → IsStable d e
      → process (fold_constant_expressions_pass d) f e ≡ ok e
  unfolding process
  process-same zero e le h = absurd (omega (arith, height-pos e))
  process-same (suc f) e le h =
      visit-same f (process (fold_constant_expressions_pass d) f) (process-same f) e le h

-- Folding once more what the fold pass has returned returns it unchanged: if the fuel is at least
-- the height of the expression.
pub fold-idempotent :
    (d : DoubleOps) (f : ℕ) (e e' : Expression)
    → height e ≤ f
    → process (fold_constant_expressions_pass d) f e ≡ ok e'
    → process (fold_constant_expressions_pass d) f e' ≡ ok e'
fold-idempotent d f e e' le p =
    process-same d f e' (omega (arith, height-fold-le d f e e' le p))
      (Post-ok (process-IsStable d f e) p)
