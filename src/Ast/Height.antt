-- ===== src/Ast/Height.antt =====
-- The height of an expression and of a template: the fuel that a walk needs.
use b.Base.{ℕ, suc, max}
use b.Ast.Expression.{
  Expression, ExpressionList, nil, null_argument, argument, get_attribute, method_call,
  binary_operation, unary_operation, comparison,
}
use b.Ast.Template.{
  Ast, AstList, Body, Mapping, statements, print_block, if_block, for_block, include_block, cons,
  no_body, body,
}
use b.Ast.Template

abbrev mutual
  pub height : Expression → ℕ
  height (get_attribute e _) = suc (height e)
  height (method_call _ xs) = suc (max 1 (arguments_height xs))
  height (binary_operation l r _) = suc (max (height l) (height r))
  height (unary_operation e _) = suc (height e)
  height (comparison l r _) = suc (max (height l) (height r))
  height _ = 1

  pub arguments_height : ExpressionList → ℕ
  arguments_height nil = 0
  arguments_height (null_argument xs) = arguments_height xs
  arguments_height (argument x xs) = max (height x) (arguments_height xs)

-- The height of the statements alone, whatever expressions they hold.
abbrev mutual
  pub ast_height : Ast → ℕ
  ast_height (statements xs) = suc (list_height xs)
  ast_height (if_block _ t e) = suc (max (body_height t) (body_height e))
  ast_height (for_block _ _ _ t e) = suc (max (body_height t) (body_height e))
  ast_height _ = 1

  pub list_height : AstList → ℕ
  list_height Template.nil = 0
  list_height (cons s rest) = max (ast_height s) (list_height rest)

  pub body_height : Body → ℕ
  body_height no_body = 0
  body_height (body a) = ast_height a
