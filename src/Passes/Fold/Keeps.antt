-- ===== src/Passes/Fold/Keeps.antt =====
-- The fold pass keeps the meaning of an expression.
use b.Base.{ℕ, zero, suc, ◌≡◌, ◌≢◌, refl, Bool, true, Outcome, ok, ◌>>=◌, arith, ◌&&◌}
use b.Base.Double.{DoubleOps}
use b.Base.Post.{
  Partial, Post-bind, Post-weaken, Post-if, Post-ok, Checks-Post, returns, breaks, stops,
}
use b.Ast.Expression.{
  Expression, ExpressionList, UnaryOperation, nil, null_argument, argument, variable_reference,
  get_attribute, method_call, double_literal, integer_literal, boolean_literal, string_literal,
  binary_operation, unary_operation, comparison, numeric_positive, numeric_negative,
  boolean_negation,
}
use b.Meaning.{Host, eval, eval_arguments, IsExact, AreExact}
use b.Passes.Walk.{process, visit, walk_children, walk_arguments, is_leaf}
use b.Passes.Fold.{
  fold_node, fold_sign, fold_operand, fold_constant_expressions_pass, is_numeric_literal_expression,
  is_literal_expression, is_boolean_literal_expression,
}
use b.Passes.Fold.Sound.{
  Sound, fold_binary-Sound, fold_sign-Sound, fold_negation-Sound, fold_comparison-Sound, Sound-refl,
  Sound-trans, binary-Sound, unary-Sound, attribute-Sound, comparison-Sound,
}

both : (a c : Bool) → (a && c) ≡ true → (a ≡ true) × (c ≡ true)
both a c h = ground arith

module _ (d : DoubleOps) (h : Host) (rec : Expression → Outcome Expression)
    (rec_sound : (e : Expression) → IsExact d h e → Partial (Sound d h e) (rec e)) where
  fold_operand-Sound :
      (test : Expression → Bool) (e : Expression)
      → IsExact d h e
      → Partial (Sound d h e) (fold_operand d test rec e)
  fold_operand-Sound test e ex =
      Post-if (test e) (λ _. returns (Sound-refl d h e ex)) (λ _. rec_sound e ex)

  -- the rest of the step, behind the operands
  after :
      (e n : Expression) (r : Outcome Expression)
      → Sound d h e n
      → (IsExact d h n → Partial (Sound d h n) r)
      → Partial (Sound d h e) r
  after e n r p k = Post-weaken (k p.1) λ m q. Sound-trans d h e n m p q

  fold_sign_node-Sound :
      (e : Expression) (op : UnaryOperation)
      → op ≢ boolean_negation
      → IsExact d h e
      → Partial
          (Sound d h (unary_operation e op))
          (fold_operand d is_numeric_literal_expression rec e >>= λ e'. fold_sign d op e')
  fold_sign_node-Sound e op ne ex =
      Post-bind (fold_operand-Sound is_numeric_literal_expression e ex) λ e' p.
        after (unary_operation e op) (unary_operation e' op) _ (unary-Sound d h e e' op p)
          (λ ex'. Checks-Post _ _ (fold_sign-Sound d h op e' ne ex'))

  fold_node-Sound : (e : Expression) → IsExact d h e → Partial (Sound d h e) (fold_node d rec e)
  unfolding fold_node
  fold_node-Sound (binary_operation l r op) ex =
      Post-bind (fold_operand-Sound is_numeric_literal_expression l ex.0) λ l' p.
        Post-bind (fold_operand-Sound is_numeric_literal_expression r ex.1) λ r' q.
          after (binary_operation l r op) (binary_operation l' r' op) _
            (binary-Sound d h l r l' r' op p q)
            (λ ex'.
              Post-if _ (λ _. Checks-Post _ _ (fold_binary-Sound d h l' r' op ex'))
                (λ _. returns (Sound-refl d h (binary_operation l' r' op) ex')))
  fold_node-Sound (unary_operation e boolean_negation) ex =
      Post-bind (fold_operand-Sound is_boolean_literal_expression e ex) λ e' p.
        after (unary_operation e boolean_negation) (unary_operation e' boolean_negation) _
          (unary-Sound d h e e' boolean_negation p)
          (λ ex'. Checks-Post _ _ (fold_negation-Sound d h e' ex'))
  fold_node-Sound (unary_operation e numeric_positive) ex =
      fold_sign_node-Sound e numeric_positive (cc) ex
  fold_node-Sound (unary_operation e numeric_negative) ex =
      fold_sign_node-Sound e numeric_negative (cc) ex
  fold_node-Sound (comparison l r op) ex =
      Post-bind (fold_operand-Sound is_literal_expression l ex.0) λ l' p.
        Post-bind (fold_operand-Sound is_literal_expression r ex.1) λ r' q.
          after (comparison l r op) (comparison l' r' op) _
            (comparison-Sound d h l r l' r' op ex.2 p q)
            (λ ex'.
              Post-if _
                (λ t.
                  let (tl, tr) = both _ _ t in
                  Checks-Post _ _ (fold_comparison-Sound d h l' r' op tl tr ex'))
                (λ _. returns (Sound-refl d h (comparison l' r' op) ex')))
  fold_node-Sound (variable_reference x) ex = returns (refl, ex)
  fold_node-Sound (get_attribute e a) ex = returns (refl, ex)
  fold_node-Sound (method_call m xs) ex = returns (refl, ex)
  fold_node-Sound (double_literal v) ex = returns (refl, ex)
  fold_node-Sound (integer_literal v) ex = returns (refl, ex)
  fold_node-Sound (boolean_literal v) ex = returns (refl, ex)
  fold_node-Sound (string_literal v) ex = returns (refl, ex)

  walk_arguments-Sound :
      (xs : ExpressionList)
      → AreExact d h xs
      → Partial
          (λ ys. (eval_arguments d h ys ≡ eval_arguments d h xs) × AreExact d h ys)
          (walk_arguments rec xs)
  unfolding walk_arguments eval
  walk_arguments-Sound nil ex = returns (refl, tt)
  walk_arguments-Sound (null_argument xs) ex = breaks
  walk_arguments-Sound (argument x xs) ex =
      Post-bind (rec_sound x ex.0) λ x' p.
        Post-bind (walk_arguments-Sound xs ex.1) λ xs' q. returns (rw (p.0, q.0), (p.1, q.1))

  walk_children-Sound :
      (e : Expression) → IsExact d h e → Partial (Sound d h e) (walk_children rec e)
  unfolding walk_children eval
  walk_children-Sound (get_attribute e a) ex =
      Post-bind (rec_sound e ex) λ e' p. returns (attribute-Sound d h e e' a p)
  walk_children-Sound (method_call m xs) ex =
      Post-bind (walk_arguments-Sound xs ex) λ xs' p. returns (rw p.0, p.1)
  walk_children-Sound (binary_operation l r op) ex =
      Post-bind (rec_sound l ex.0)
        λ l' p. Post-bind (rec_sound r ex.1) λ r' q. returns (binary-Sound d h l r l' r' op p q)
  walk_children-Sound (unary_operation e op) ex =
      Post-bind (rec_sound e ex) λ e' p. returns (unary-Sound d h e e' op p)
  walk_children-Sound (comparison l r op) ex = Post-bind (rec_sound l ex.0) λ l' p.
      Post-bind (rec_sound r ex.1) λ r' q. returns (comparison-Sound d h l r l' r' op ex.2 p q)
  walk_children-Sound _ ex = returns (refl, ex)

  visit-Sound :
      (e : Expression)
      → IsExact d h e
      → Partial (Sound d h e) (visit (fold_constant_expressions_pass d) rec e)
  unfolding visit
  visit-Sound e ex = Post-bind (fold_node-Sound e ex) λ n p. after e n _ p λ ex'.
      Post-if (is_leaf e) (λ _. returns (Sound-refl d h n ex'))
        (λ _. Post-if _ (λ _. walk_children-Sound n ex') (λ _. rec_sound n ex'))

pub process-Sound :
    (d : DoubleOps) (h : Host) (f : ℕ) (e : Expression)
    → IsExact d h e
    → Partial (Sound d h e) (process (fold_constant_expressions_pass d) f e)
unfolding process
process-Sound d h zero e ex = stops tt
process-Sound d h (suc f) e ex =
    visit-Sound d h (process (fold_constant_expressions_pass d) f) (process-Sound d h f) e ex

-- What the fold pass returns has the value of the expression that it was given, for every host: if
-- at each comparison of two integers in the expression the comparison of the doubles to which they
-- convert gives what that of the integers gives. A failure of the evaluation counts as a value.
pub eval-fold :
    (d : DoubleOps) (h : Host) (f : ℕ) (e e' : Expression)
    → IsExact d h e
    → process (fold_constant_expressions_pass d) f e ≡ ok e'
    → eval d h e' ≡ eval d h e
eval-fold d h f e e' ex p = (Post-ok (process-Sound d h f e ex) p).0
