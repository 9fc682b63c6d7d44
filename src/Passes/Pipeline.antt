-- ===== src/Passes/Pipeline.antt =====
-- `optimizeAST` of src/js_precompiler/compiler.cpp, src/ast_print/print.cpp and src/php/php_b2.cpp.
pub mod Normal
pub mod Total
pub mod Resolved
pub mod Keeps
use b.Base.{ℕ, Bool, true, Str, List, [], ◌∷◌, ◌++◌, Outcome, if◌then◌else◌}
use b.Base.Double.{DoubleOps}
use b.Ast.Template.{Ast}
use b.Passes.Tree.{AstPass}
use b.Passes.Manager.{expression_pass_wrapper, run}
use b.Passes.Fold.{fold_constant_expressions_pass}
use b.Passes.Convert.{convert_literal_pass}
use b.Passes.Coalesce.{coalesce_raw_blocks_pass}
use b.Passes.Includes.{resolve_includes_pass}

-- The four `enable_…` variables.
pub record Enabled : Type 0 where
  pub resolve_includes : Bool
  pub constant_folding : Bool
  pub literal_conversion : Bool
  pub raw_block_coalescing : Bool

abbrev pub all_enabled : Enabled
all_enabled = record {
  resolve_includes = true;
  constant_folding = true;
  literal_conversion = true;
  raw_block_coalescing = true;
}

module _ (d : DoubleOps) (parse : Str → Outcome Ast) where
  -- the passes that the pass manager gets, in the order in which they are added
  unfoldable pub later_passes : Enabled → ℕ → List AstPass
  later_passes on f =
      (if on.constant_folding
        then expression_pass_wrapper (fold_constant_expressions_pass d) f ∷ []
        else [])
      ++ ((if on.literal_conversion then convert_literal_pass d ∷ [] else [])
          ++ (if on.raw_block_coalescing then coalesce_raw_blocks_pass ∷ [] else []))

  unfoldable passes_of : Enabled → Str → ℕ → List AstPass
  unfolding later_passes
  passes_of on base f =
      (if on.resolve_includes then resolve_includes_pass parse base f ∷ [] else [])
      ++ later_passes on f

  unfoldable pub optimize_ast : Enabled → ℕ → Ast → Str → Outcome Ast
  unfolding passes_of run
  optimize_ast on f a base = run (passes_of on base f) f a
