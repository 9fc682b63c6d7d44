-- ===== src/Passes/Includes.antt =====
-- lib/ast/passes/resolve_includes_pass.cpp: an include becomes the tree of the file that it names,
-- with its variables replaced.
pub mod Endless
pub mod Missing
pub mod Resolved
pub mod Meaning
use b.Base.{
  ℕ, Str, [], ◌∷◌, ◌++◌, Option, none, some, Outcome, ok, throw, undefined, out_of_fuel, ◌>>=◌,
  if◌then◌else◌, find, ◌==◌, missing_variable_reference,
}
use b.Ast.Expression.{Expression, variable_reference, get_attribute, clone}
use b.Ast.Template.{Ast, Mapping, include_block, ast_type, is_same_ast_type}
use b.Passes.Walk.{ExpressionPass}
use b.Passes.Tree.{AstPass}
use b.Passes.Manager.{expression_pass_wrapper, run}

abbrev pub clone_replacement : Str → Str → Option Expression → Outcome Expression
clone_replacement file x none = throw (missing_variable_reference file x)
clone_replacement file x (some e) = clone e

-- `ReplaceVariableReferencesPass::process_node`
unfoldable pub replace_node :
    Str → Mapping → (Expression → Outcome Expression) → Expression → Outcome Expression
replace_node file replacements rec (variable_reference x) =
    clone_replacement file x (find x replacements)
replace_node file replacements rec e = ok e

abbrev pub replace_variable_references_pass : Str → Mapping → ExpressionPass
replace_variable_references_pass file replacements = record {
  process_node = replace_node file replacements;
}

-- `PrependScopePass::process_node`
unfoldable pub prepend_node :
    Expression → (Expression → Outcome Expression) → Expression → Outcome Expression
prepend_node scope rec (variable_reference x) = do ok (get_attribute (← clone scope) x)
prepend_node scope rec e = ok e

abbrev pub prepend_scope_pass : Expression → ExpressionPass
prepend_scope_pass scope = record { process_node = prepend_node scope }

-- `ResolveIncludesPass::resolvePath`
unfoldable pub resolve_path : Str → Str → Str
resolve_path base [] = base ++ b'/' ∷ []
resolve_path base (c ∷ path) = if c == b'/' then c ∷ path else base ++ b'/' ∷ c ∷ path

-- `replaceVariableReferences` and `prependScope`: the pass manager runs that one pass.
unfoldable pub substitute : ℕ → Str → Option Expression → Mapping → Ast → Outcome Ast
unfolding run
substitute f file (some scope) mapping a =
    run (expression_pass_wrapper (prepend_scope_pass scope) f ∷ []) f a
substitute f file none mapping a =
    run (expression_pass_wrapper (replace_variable_references_pass file mapping) f ∷ []) f a

-- The pass manager owns the tree that it is given, and `includeAST` still owns it too: where `run`
-- deletes it, on an exception or because the root was replaced, it is deleted twice.
abbrev pub release_twice : Ast → Outcome Ast → Outcome Ast
release_twice before (ok after) =
    if is_same_ast_type (ast_type after) (ast_type before) then ok after else undefined
release_twice before (throw e) = undefined
release_twice before undefined = undefined
release_twice before out_of_fuel = out_of_fuel

-- `parse` stands for `Parser::parse` on a file name, and the files that it reads.
module _ (parse : Str → Outcome Ast) (base : Str) where
  unfoldable pub resolve_node : ℕ → (Ast → Outcome Ast) → Ast → Outcome Ast
  unfolding substitute resolve_path
  resolve_node f rec (include_block name scope mapping) = do
    let file = resolve_path base name
    include_ast ← parse file
    processed ← rec include_ast
    release_twice processed (substitute f file scope mapping processed)
  resolve_node f rec a = ok a

  abbrev pub resolve_includes_pass : ℕ → AstPass
  resolve_includes_pass f = record { process_node = resolve_node f }
