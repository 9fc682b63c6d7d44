-- ===== src/Passes/Walk.antt =====
-- lib/ast/passes/pass.hpp: the walk that every pass shares.
-- `process` takes fuel, since a pass may call it again on any tree; a pass gets the rest of it as
-- its first argument, for its calls of `this->process`.
use b.Base.{
  ℕ, zero, suc, Bool, true, false, Outcome, ok, undefined, out_of_fuel, ◌>>=◌, if◌then◌else◌,
}
use b.Ast.Expression.{
  Expression, ExpressionList, ExpressionType, type, is_same_type, nil, null_argument, argument,
  variable_reference, get_attribute, method_call, double_literal, integer_literal, boolean_literal,
  string_literal, binary_operation, unary_operation, comparison,
}

-- The overloads of `process_node`, joined by the type of the node.
pub record ExpressionPass : Type 0 where
  pub process_node : (Expression → Outcome Expression) → Expression → Outcome Expression

-- The loop over the arguments of a call: a null argument is followed.
unfoldable pub walk_arguments :
    (Expression → Outcome Expression) → ExpressionList → Outcome ExpressionList
walk_arguments rec nil = ok nil
walk_arguments rec (null_argument xs) = undefined
walk_arguments rec (argument x xs) = do ok (argument (← rec x) (← walk_arguments rec xs))

-- What a visit does with a node of the type that it began with.
unfoldable pub walk_children : (Expression → Outcome Expression) → Expression → Outcome Expression
unfolding walk_arguments
walk_children rec (get_attribute e a) = do ok (get_attribute (← rec e) a)
walk_children rec (method_call m xs) = do ok (method_call m (← walk_arguments rec xs))
walk_children rec (binary_operation l r op) = do ok (binary_operation (← rec l) (← rec r) op)
walk_children rec (unary_operation e op) = do ok (unary_operation (← rec e) op)
walk_children rec (comparison l r op) = do ok (comparison (← rec l) (← rec r) op)
walk_children rec e = ok e

-- A node of another type than before is visited afresh.
unfoldable pub walk_node :
    (Expression → Outcome Expression) → ExpressionType → Expression → Outcome Expression
unfolding walk_children
walk_node rec before e = if is_same_type (type e) before then walk_children rec e else rec e

-- A variable reference and a literal get what `process_node` returns, and no second visit.
abbrev pub is_leaf : Expression → Bool
is_leaf (variable_reference _) = true
is_leaf (double_literal _) = true
is_leaf (integer_literal _) = true
is_leaf (boolean_literal _) = true
is_leaf (string_literal _) = true
is_leaf _ = false

unfoldable pub visit :
    ExpressionPass → (Expression → Outcome Expression) → Expression → Outcome Expression
unfolding walk_node
visit p rec e = do
  new_expr ← p.process_node rec e
  if is_leaf e then ok new_expr else walk_node rec (type e) new_expr

-- `ExpressionPass::process`
unfoldable pub process : ExpressionPass → ℕ → Expression → Outcome Expression
unfolding visit
process p zero e = out_of_fuel
process p (suc f) e = visit p (process p f) e
