-- ===== src/Passes/Fold/Settles.antt =====
-- What the fold pass returns is stable.
use b.Base.{
  ℕ, zero, suc, ◌≡◌, refl, sym, ◌∙◌, ap, subst, Bool, true, inl, inr, Outcome, ok, throw, undefined,
  out_of_fuel,
}
use b.Base.Double.{DoubleOps}
use b.Base.Post.{Partial, Checks, Post-bind, Post-weaken, Post-if, returns, throws, breaks, stops}
use b.Ast.Expression.{
  Expression, ExpressionList, ExpressionType, BinaryOperation, UnaryOperation, ComparisonOperation,
  nil, null_argument, argument, variable_reference, get_attribute, method_call, double_literal,
  integer_literal, boolean_literal, string_literal, binary_operation, unary_operation, comparison,
  numeric_positive, numeric_negative, boolean_negation,
}
use b.Passes.Walk.{process, visit, walk_node, walk_children, walk_arguments}
use b.Passes.Fold.{
  fold_node, fold_operand, fold_constant_expressions_pass, is_numeric_literal_expression,
  is_literal_expression, is_boolean_literal_expression,
}
use b.Passes.Fold.Kept.{
  Kept, fold_binary-Kept, fold_sign-Kept, fold_negation-Kept, fold_comparison-Kept,
}
use b.Passes.Fold.Stable.{IsStable, AreStable, literal-IsStable, Same, children-Same, process-Same}

-- What holds of what a call returns, with the equation.
with_call {ℓ} :
    {A : Type ℓ} (P : A → Type 0) (r : Outcome A) → Checks P r → Partial (λ a. P a × (r ≡ ok a)) r
with_call P (ok a) h = returns (h, refl)
with_call P (throw e) h = throws
with_call P undefined h = breaks
with_call P out_of_fuel h = absurd h

numeric-literal :
    (e : Expression) → is_numeric_literal_expression e ≡ true → is_literal_expression e ≡ true
numeric-literal (double_literal v) h = refl
numeric-literal (integer_literal v) h = refl
numeric-literal _ h = cc

boolean-literal :
    (e : Expression) → is_boolean_literal_expression e ≡ true → is_literal_expression e ≡ true
boolean-literal (boolean_literal v) h = refl
boolean-literal _ h = cc

module _ (d : DoubleOps) where
  -- A fold that keeps its node or returns a literal returns a stable expression, if the node is
  -- stable wherever it is kept.
  fold-IsStable :
      (e : Expression) (r : Outcome Expression)
      → Checks (Kept e) r
      → (r ≡ ok e → IsStable d e)
      → Partial (IsStable d) r
  fold-IsStable e r kept stable = Post-weaken (with_call (Kept e) r kept) λ n k. go n k.0 k.1
    where
      go : (n : Expression) → Kept e n → r ≡ ok n → IsStable d n
      go n (inl p) q = subst (IsStable d) (sym p) (stable (q ∙ ap ok p))
      go n (inr literal) q = literal-IsStable d n literal

  module _ (rec : Expression → Outcome Expression)
      (rec_same : (e : Expression) → IsStable d e → Partial (Same d e) (rec e))
      (rec_stable : (e : Expression) → Partial (IsStable d) (rec e)) where
    operand-IsStable :
        (test : Expression → Bool) (e : Expression)
        → (test e ≡ true → is_literal_expression e ≡ true)
        → Partial (IsStable d) (fold_operand d test rec e)
    operand-IsStable test e literal =
        Post-if (test e) (λ t. returns (literal-IsStable d e (literal t))) (λ _. rec_stable e)

    arguments-AreStable : (xs : ExpressionList) → Partial (AreStable d) (walk_arguments rec xs)
    unfolding walk_arguments
    arguments-AreStable nil = returns tt
    arguments-AreStable (null_argument xs) = breaks
    arguments-AreStable (argument x xs) =
        Post-bind (rec_stable x) λ x' p. Post-bind (arguments-AreStable xs) λ xs' q. returns (p, q)

    binary-IsStable :
        (l r : Expression) (op : BinaryOperation)
        → Partial (IsStable d) (fold_node d rec (binary_operation l r op))
    unfolding fold_node
    binary-IsStable l r op =
        Post-bind (operand-IsStable is_numeric_literal_expression l (numeric-literal l)) λ l' p.
          Post-bind (operand-IsStable is_numeric_literal_expression r (numeric-literal r)) λ r' q.
            Post-if _
              (λ _.
                fold-IsStable (binary_operation l' r' op) _ (fold_binary-Kept d l' r' op)
                  λ eq. (p, q, λ _. eq))
              (λ other. returns {a = binary_operation l' r' op} (p, q, λ t. cc))

    unary-IsStable :
        (e : Expression) (op : UnaryOperation)
        → Partial (IsStable d) (fold_node d rec (unary_operation e op))
    unfolding fold_node
    unary-IsStable e boolean_negation =
        Post-bind (operand-IsStable is_boolean_literal_expression e (boolean-literal e)) λ e' p.
          fold-IsStable (unary_operation e' boolean_negation) _ (fold_negation-Kept d e')
            λ eq. (p, eq)
    unary-IsStable e numeric_positive =
        Post-bind (operand-IsStable is_numeric_literal_expression e (numeric-literal e)) λ e' p.
          fold-IsStable (unary_operation e' numeric_positive) _
            (fold_sign-Kept d numeric_positive e') λ eq. (p, eq)
    unary-IsStable e numeric_negative =
        Post-bind (operand-IsStable is_numeric_literal_expression e (numeric-literal e)) λ e' p.
          fold-IsStable (unary_operation e' numeric_negative) _
            (fold_sign-Kept d numeric_negative e') λ eq. (p, eq)

    comparison-IsStable :
        (l r : Expression) (op : ComparisonOperation)
        → Partial (IsStable d) (fold_node d rec (comparison l r op))
    unfolding fold_node
    comparison-IsStable l r op =
        Post-bind (operand-IsStable is_literal_expression l (λ h. h)) λ l' p.
          Post-bind (operand-IsStable is_literal_expression r (λ h. h)) λ r' q.
            Post-if _
              (λ _.
                fold-IsStable (comparison l' r' op) _ (fold_comparison-Kept d l' r' op)
                  λ eq. (p, q, λ _. eq))
              (λ other. returns {a = comparison l' r' op} (p, q, λ t. cc))

    walk_node-IsStable :
        (before : ExpressionType) (n : Expression)
        → IsStable d n
        → Partial (IsStable d) (walk_node rec before n)
    unfolding walk_node
    walk_node-IsStable before n h =
        Post-if _
          (λ _. Post-weaken (children-Same d rec rec_same n h) λ m p. subst (IsStable d) (sym p) h)
          (λ _. rec_stable n)

    visit-IsStable :
        (e : Expression) → Partial (IsStable d) (visit (fold_constant_expressions_pass d) rec e)
    unfolding visit walk_node walk_children fold_node
    visit-IsStable (get_attribute e a) = Post-bind (rec_stable e) λ e' p. returns p
    visit-IsStable (method_call m xs) = Post-bind (arguments-AreStable xs) λ xs' p. returns p
    visit-IsStable (binary_operation l r op) =
        Post-bind (binary-IsStable l r op) λ n h. walk_node-IsStable _ n h
    visit-IsStable (unary_operation e op) =
        Post-bind (unary-IsStable e op) λ n h. walk_node-IsStable _ n h
    visit-IsStable (comparison l r op) =
        Post-bind (comparison-IsStable l r op) λ n h. walk_node-IsStable _ n h
    visit-IsStable (variable_reference x) = returns tt
    visit-IsStable (double_literal v) = returns tt
    visit-IsStable (integer_literal v) = returns tt
    visit-IsStable (boolean_literal v) = returns tt
    visit-IsStable (string_literal v) = returns tt

  pub process-IsStable :
      (f : ℕ) (e : Expression)
      → Partial (IsStable d) (process (fold_constant_expressions_pass d) f e)
  unfolding process
  process-IsStable zero e = stops tt
  process-IsStable (suc f) e =
      visit-IsStable (process (fold_constant_expressions_pass d) f) (process-Same d f)
        (process-IsStable f) e
