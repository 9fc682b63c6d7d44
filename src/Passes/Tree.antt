-- ===== src/Passes/Tree.antt =====
-- lib/ast/passes/pass.hpp: the walk over the statements, `ASTPass`.
pub mod Keeps
pub mod Flat
pub mod Total
use b.Base.{
  ℕ, zero, suc, Bool, true, false, Outcome, ok, undefined, out_of_fuel, ◌>>=◌, if◌then◌else◌,
}
use b.Ast.Template.{
  Ast, AstList, Body, AstType, ast_type, is_same_ast_type, statements, raw_block, print_block,
  if_block, for_block, include_block, nil, cons, no_body, body, ◌+++◌,
}

-- The overloads of `process_node`, joined by the type of the node.
pub record AstPass : Type 0 where
  pub process_node : (Ast → Outcome Ast) → Ast → Outcome Ast

-- The statements that take the place of one processed statement: those of a nested list are moved
-- up. Where an empty list is removed from the front, `--it` steps before the first element.
abbrev pub splice : Bool → Ast → Outcome AstList
splice true (statements nil) = undefined
splice _ (statements xs) = ok xs
splice _ s = ok (cons s nil)

-- The loop over the statements; the flag says that the iterator stands at the first one.
unfoldable pub walk_list : (Ast → Outcome Ast) → Bool → AstList → Outcome AstList
walk_list rec at_begin nil = ok nil
walk_list rec at_begin (cons s rest) = do
  new_statement ← rec s
  front ← splice at_begin new_statement
  new_rest ← walk_list rec false rest
  ok (front +++ new_rest)

-- A list of one statement is replaced by that statement.
abbrev pub fold_single : AstList → Ast
fold_single (cons s nil) = s
fold_single xs = statements xs

abbrev pub walk_body : (Ast → Outcome Ast) → Body → Outcome Body
walk_body rec no_body = ok no_body
walk_body rec (body a) = do ok (body (← rec a))

-- What a visit does with a node of the type that it began with.
unfoldable pub walk_tree : (Ast → Outcome Ast) → Ast → Outcome Ast
unfolding walk_list
walk_tree rec (statements xs) = do ok (fold_single (← walk_list rec true xs))
walk_tree rec (if_block c t e) = do ok (if_block c (← walk_body rec t) (← walk_body rec e))
walk_tree rec (for_block k v i t e) = do
  ok (for_block k v i (← walk_body rec t) (← walk_body rec e))
walk_tree rec a = ok a

abbrev pub is_leaf_ast : Ast → Bool
is_leaf_ast (raw_block _) = true
is_leaf_ast (print_block _) = true
is_leaf_ast (include_block _ _ _) = true
is_leaf_ast _ = false

-- A node of another type than before is visited afresh.
unfoldable pub walk_statement : (Ast → Outcome Ast) → AstType → Ast → Outcome Ast
unfolding walk_tree
walk_statement rec before a =
    if is_same_ast_type (ast_type a) before then walk_tree rec a else rec a

unfoldable pub visit_ast : AstPass → (Ast → Outcome Ast) → Ast → Outcome Ast
unfolding walk_statement
visit_ast p rec a = do
  new_ast ← p.process_node rec a
  if is_leaf_ast a then ok new_ast else walk_statement rec (ast_type a) new_ast

-- `ASTPass::process`
unfoldable pub process_ast : AstPass → ℕ → Ast → Outcome Ast
unfolding visit_ast
process_ast p zero a = out_of_fuel
process_ast p (suc f) a = visit_ast p (process_ast p f) a
