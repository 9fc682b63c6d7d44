-- ===== src/Passes/Manager.antt =====
-- lib/ast/passes/pass_manager.cpp: expression passes as passes over the tree, and runs of passes.
use b.Base.{ℕ, Option, none, some, List, [], ◌∷◌, Outcome, ok, ◌>>=◌}
use b.Ast.Expression.{Expression}
use b.Ast.Template.{Ast, Mapping, print_block, if_block, for_block, include_block}
use b.Passes.Walk.{ExpressionPass, process}
use b.Passes.Tree.{AstPass, process_ast}

-- The loop over `variableMapping`, in the order in which the model lists the map.
unfoldable pub process_mapping : (Expression → Outcome Expression) → Mapping → Outcome Mapping
process_mapping run_expr [] = ok []
process_mapping run_expr ((k, e) ∷ m) = do
  new_expr ← run_expr e
  rest ← process_mapping run_expr m
  ok ((k, new_expr) ∷ rest)

abbrev pub process_scope :
    (Expression → Outcome Expression) → Option Expression → Outcome (Option Expression)
process_scope run_expr none = ok none
process_scope run_expr (some e) = do ok (some (← run_expr e))

-- `ExpressionPassWrapper::process_node`, over `m_expressionPass->process`
unfoldable pub wrap_node :
    (Expression → Outcome Expression) → (Ast → Outcome Ast) → Ast → Outcome Ast
unfolding process_mapping
wrap_node run_expr rec (print_block e) = do ok (print_block (← run_expr e))
wrap_node run_expr rec (if_block c t e) = do ok (if_block (← run_expr c) t e)
wrap_node run_expr rec (for_block k v i t e) = do ok (for_block k v (← run_expr i) t e)
wrap_node run_expr rec (include_block name scope mapping) = do
  new_scope ← process_scope run_expr scope
  new_mapping ← process_mapping run_expr mapping
  ok (include_block name new_scope new_mapping)
wrap_node run_expr rec a = ok a

abbrev pub expression_pass_wrapper : ExpressionPass → ℕ → AstPass
expression_pass_wrapper p f = record { process_node = wrap_node (process p f) }

-- `PassManager::run`: each pass takes the tree that the pass before it has left.
unfoldable pub run : List AstPass → ℕ → Ast → Outcome Ast
run [] f a = ok a
run (p ∷ passes) f a = do new_ast ← process_ast p f a; run passes f new_ast
