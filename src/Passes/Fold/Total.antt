-- ===== src/Passes/Fold/Total.antt =====
-- The fold pass ends: fuel of the height of the expression is enough.
use b.Base.{
  ℕ, zero, suc, ◌≤◌, ◌≡◌, refl, ◌⊎◌, inl, inr, ◌≢◌, Bool, true, false, Outcome, ok, out_of_fuel,
  arith,
}
use b.Base.Double.{DoubleOps}
use b.Base.Post.{
  Total, Post-bind, Post-weaken, Post-if, Checks, Checks-Post, Post-ok, Total-ne-out_of_fuel,
  returns, breaks,
}
use b.Ast.Expression.{
  Expression, ExpressionList, type, is_same_type, nil, null_argument, argument, variable_reference,
  get_attribute, method_call, double_literal, integer_literal, boolean_literal, string_literal,
  binary_operation, unary_operation, comparison, numeric_positive, numeric_negative,
  boolean_negation,
}
use b.Ast.Height.{height, arguments_height}
use b.Passes.Walk.{process, visit, is_leaf, walk_node, walk_children, walk_arguments}
use b.Passes.Fold.{
  fold_node, fold_operand, fold_constant_expressions_pass, is_numeric_literal_expression,
  is_literal_expression, is_boolean_literal_expression,
}
use b.Passes.Fold.Kept.{
  Kept, fold_binary-Kept, fold_sign-Kept, fold_negation-Kept, fold_comparison-Kept,
}

-- no higher than `e`
abbrev Lower : Expression → Expression → Type 0
Lower e e' = height e' ≤ height e

-- and a leaf, or a node of the type of `e`
abbrev Fits : Expression → Expression → Type 0
Fits e e' = (height e' ≤ height e) × ((height e' ≡ 1) ⊎ (is_same_type (type e') (type e) ≡ true))

height-literal : (e : Expression) → is_literal_expression e ≡ true → height e ≡ 1
height-literal (double_literal v) h = refl
height-literal (integer_literal v) h = refl
height-literal (boolean_literal v) h = refl
height-literal (string_literal v) h = refl
height-literal _ h = cc

pub height-pos : (e : Expression) → 1 ≤ height e
height-pos (get_attribute e a) = omega arith
height-pos _ = omega arith

inner-height : (e : Expression) → is_leaf e ≡ false → 2 ≤ height e
inner-height (get_attribute e a) h = omega (arith, height-pos e)
inner-height (method_call m xs) h = omega arith
inner-height (binary_operation l r op) h = omega (arith, height-pos l)
inner-height (unary_operation e op) h = omega (arith, height-pos e)
inner-height (comparison l r op) h = omega (arith, height-pos l)
inner-height _ h = cc

-- A node over lower operands, folded or not, fits the node over the operands.
Kept-Fits :
    (e n : Expression) (r : Outcome Expression)
    → height n ≤ height e
    → is_same_type (type n) (type e) ≡ true
    → Checks (Kept n) r
    → Total (Fits e) r
Kept-Fits e n r h same k = Post-weaken (Checks-Post _ r k) kept
  where
    kept : (n' : Expression) → Kept n n' → Fits e n'
    kept n' (inl p) = rw p (h, inr same)
    kept n' (inr p) = (omega (arith, height-literal n' p, height-pos e), inl (height-literal n' p))

module _ (d : DoubleOps) {f : ℕ} (rec : Expression → Outcome Expression)
    (rec_total : (e : Expression) → height e ≤ f → Total (Lower e) (rec e)) where
  fold_operand-Lower :
      (test : Expression → Bool) (e : Expression)
      → height e ≤ f
      → Total (Lower e) (fold_operand d test rec e)
  fold_operand-Lower test e h = Post-if (test e) (λ _. returns (omega arith)) (λ _. rec_total e h)

  fold_node-Fits : (e : Expression) → height e ≤ suc f → Total (Fits e) (fold_node d rec e)
  unfolding fold_node
  fold_node-Fits (binary_operation l r op) h =
      Post-bind (fold_operand-Lower is_numeric_literal_expression l (omega arith)) λ l' hl.
        Post-bind (fold_operand-Lower is_numeric_literal_expression r (omega arith)) λ r' hr.
          Post-if _
            (λ _.
              Kept-Fits (binary_operation l r op) (binary_operation l' r' op) _ (omega arith) refl
                (fold_binary-Kept d l' r' op))
            (λ _. returns {a = binary_operation l' r' op} (omega arith, inr refl))
  fold_node-Fits (unary_operation e boolean_negation) h =
      Post-bind (fold_operand-Lower is_boolean_literal_expression e (omega arith)) λ e' he.
        Kept-Fits (unary_operation e boolean_negation) (unary_operation e' boolean_negation) _
          (omega arith) refl (fold_negation-Kept d e')
  fold_node-Fits (unary_operation e numeric_positive) h =
      Post-bind (fold_operand-Lower is_numeric_literal_expression e (omega arith)) λ e' he.
        Kept-Fits (unary_operation e numeric_positive) (unary_operation e' numeric_positive) _
          (omega arith) refl (fold_sign-Kept d numeric_positive e')
  fold_node-Fits (unary_operation e numeric_negative) h =
      Post-bind (fold_operand-Lower is_numeric_literal_expression e (omega arith)) λ e' he.
        Kept-Fits (unary_operation e numeric_negative) (unary_operation e' numeric_negative) _
          (omega arith) refl (fold_sign-Kept d numeric_negative e')
  fold_node-Fits (comparison l r op) h =
      Post-bind (fold_operand-Lower is_literal_expression l (omega arith)) λ l' hl.
        Post-bind (fold_operand-Lower is_literal_expression r (omega arith)) λ r' hr.
          Post-if _
            (λ _.
              Kept-Fits (comparison l r op) (comparison l' r' op) _ (omega arith) refl
                (fold_comparison-Kept d l' r' op))
            (λ _. returns {a = comparison l' r' op} (omega arith, inr refl))
  fold_node-Fits (variable_reference x) h = returns (omega arith, inl refl)
  fold_node-Fits (get_attribute e a) h = returns (omega arith, inr refl)
  fold_node-Fits (method_call m xs) h = returns (omega arith, inr refl)
  fold_node-Fits (double_literal v) h = returns (omega arith, inl refl)
  fold_node-Fits (integer_literal v) h = returns (omega arith, inl refl)
  fold_node-Fits (boolean_literal v) h = returns (omega arith, inl refl)
  fold_node-Fits (string_literal v) h = returns (omega arith, inl refl)

  walk_arguments-Lower :
      (xs : ExpressionList)
      → arguments_height xs ≤ f
      → Total (λ ys. arguments_height ys ≤ arguments_height xs) (walk_arguments rec xs)
  unfolding walk_arguments
  walk_arguments-Lower nil h = returns (omega arith)
  walk_arguments-Lower (null_argument xs) h = breaks
  walk_arguments-Lower (argument x xs) h =
      Post-bind (rec_total x (omega arith))
        λ x' hx. Post-bind (walk_arguments-Lower xs (omega arith)) λ xs' hxs. returns (omega arith)

  walk_children-Lower : (e : Expression) → height e ≤ suc f → Total (Lower e) (walk_children rec e)
  unfolding walk_children
  walk_children-Lower (get_attribute e a) h =
      Post-bind (rec_total e (omega arith)) λ e' he. returns (omega arith)
  walk_children-Lower (method_call m xs) h =
      Post-bind (walk_arguments-Lower xs (omega arith)) λ xs' hx. returns (omega arith)
  walk_children-Lower (binary_operation l r op) h =
      Post-bind (rec_total l (omega arith))
        λ l' hl. Post-bind (rec_total r (omega arith)) λ r' hr. returns (omega arith)
  walk_children-Lower (unary_operation e op) h =
      Post-bind (rec_total e (omega arith)) λ e' he. returns (omega arith)
  walk_children-Lower (comparison l r op) h =
      Post-bind (rec_total l (omega arith))
        λ l' hl. Post-bind (rec_total r (omega arith)) λ r' hr. returns (omega arith)
  walk_children-Lower _ h = returns (omega arith)

  walk_node-Lower :
      (e n : Expression)
      → 2 ≤ suc f
      → height e ≤ suc f
      → Fits e n
      → Total (Lower e) (walk_node rec (type e) n)
  unfolding walk_node
  walk_node-Lower e n pos h (le, alternative) =
      Post-if _ (λ _. Post-weaken (walk_children-Lower n (omega arith)) λ n' h'. omega arith)
        (λ other. Post-weaken (rec_total n (leaf other alternative)) λ n' h'. omega arith)
    where
      leaf :
          is_same_type (type n) (type e) ≡ false
          → (height n ≡ 1) ⊎ (is_same_type (type n) (type e) ≡ true)
          → height n ≤ f
      leaf other (inl p) = omega arith
      leaf other (inr p) = cc

  visit-Lower :
      (e : Expression)
      → height e ≤ suc f
      → Total (Lower e) (visit (fold_constant_expressions_pass d) rec e)
  unfolding visit
  visit-Lower e h = Post-bind (fold_node-Fits e h) λ n fits.
      Post-if (is_leaf e) (λ _. returns fits.0)
        (λ inner. walk_node-Lower e n (omega (arith, inner-height e inner, height-pos e)) h fits)

-- Fuel of the height of an expression is enough for the fold pass, and what it returns is no higher.
pub process-Total :
    (d : DoubleOps) (f : ℕ) (e : Expression)
    → height e ≤ f
    → Total (Lower e) (process (fold_constant_expressions_pass d) f e)
unfolding process
process-Total d zero e h = absurd (omega (arith, height-pos e))
process-Total d (suc f) e h =
    visit-Lower d (process (fold_constant_expressions_pass d) f) (process-Total d f) e h

-- With fuel of at least the height of an expression, the fold pass does not run out of it: the
-- pass ends on every expression.
pub fold-ne-out_of_fuel :
    (d : DoubleOps) (f : ℕ) (e : Expression)
    → height e ≤ f
    → process (fold_constant_expressions_pass d) f e ≢ out_of_fuel
fold-ne-out_of_fuel d f e h = Total-ne-out_of_fuel (process-Total d f e h)

-- What the fold pass returns is no higher than the expression that it was given.
pub height-fold-le :
    (d : DoubleOps) (f : ℕ) (e e' : Expression)
    → height e ≤ f
    → process (fold_constant_expressions_pass d) f e ≡ ok e'
    → height e' ≤ height e
height-fold-le d f e e' h = Post-ok (process-Total d f e h)
