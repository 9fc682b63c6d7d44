-- ===== src/Examples/Optimise.antt =====
-- `optimizeAST` and the coalescing pass on small templates.
use b.Base.{subst, some, ◌≡◌, ◌≢◌, refl, true, false, inl, [], codes, ok, out_of_fuel, arith}
use b.Ast.Expression.{variable_reference}
use b.Ast.Template
use b.Ast.Template.{Ast, statements, raw_block, print_block, cons}
use b.Ast.Shape.{IsNormal}
use b.Rendering.{render, All}
use b.Passes.Tree.{process_ast}
use b.Passes.Coalesce.{coalesce_raw_blocks_pass}
use b.Passes.Coalesce.Keeps.{render-coalesce_pass}
use b.Passes.Coalesce.Normal.{coalesce_pass-IsNormal}
use b.Passes.Pipeline.{Enabled, all_enabled, optimize_ast}
use b.Passes.Pipeline.Keeps.{render-optimize_ast, ExactEverywhere, Faithful, IsShown}
use b.Passes.Pipeline.Normal.{optimize_ast-IsNormal}
use b.Passes.Pipeline.Total.{optimize_ast-ne-out_of_fuel}
use b.Examples.{toy, renderer, php_renderer, toy-Exact, no_files, sum_template, sum_optimised}

abbrev no_includes : Enabled
no_includes = record all_enabled { resolve_includes = false }

optimised : optimize_ast toy no_files no_includes 5 sum_template [] ≡ ok sum_optimised
unfolding optimize_ast process_ast b.Passes.Manager.wrap_node b.Passes.Walk.process
    b.Passes.Fold.fold_node b.Base.Int.◌+ℤ◌ b.Passes.Convert.convert_node
    b.Passes.Coalesce.coalesce_node b.Passes.Convert.print_long
optimised = refl

optimised_all : optimize_ast toy no_files all_enabled 5 sum_template [] ≡ ok sum_optimised
unfolding optimize_ast process_ast b.Passes.Includes.resolve_node b.Passes.Manager.wrap_node
    b.Passes.Walk.process b.Passes.Fold.fold_node b.Base.Int.◌+ℤ◌ b.Passes.Convert.convert_node
    b.Passes.Coalesce.coalesce_node b.Passes.Convert.print_long
optimised_all = refl

-- no fuel: a run of the optimiser is cut off
starved : optimize_ast toy no_files no_includes 1 sum_template [] ≡ out_of_fuel
unfolding optimize_ast process_ast b.Passes.Manager.wrap_node
starved = refl

abbrev split_text : Ast
split_text = statements (
    cons (raw_block (codes "ab")) (
      cons (raw_block (codes "c"))
        (cons (print_block (variable_reference (codes "y"))) Template.nil)))

abbrev joined_text : Ast
joined_text = statements (
    cons (raw_block (codes "abc"))
      (cons (print_block (variable_reference (codes "y"))) Template.nil))

joined : process_ast coalesce_raw_blocks_pass 3 split_text ≡ ok joined_text
unfolding process_ast b.Passes.Coalesce.coalesce_node
joined = refl

some_injective : {A : Type 0} {a c : A} → some a ≡ some c → a ≡ c
some_injective e = cc

-- the sum is 3 and `y` is a variant, and the comparison is not printed
printed-Faithful : All (Faithful toy php_renderer) (ExactEverywhere toy php_renderer) sum_template
unfolding b.Meaning.eval b.Base.Int.◌+ℤ◌ b.Passes.Convert.print_long
printed-Faithful = (
  tt,
  (
    (
      λ env. (tt, tt),
      λ v same. subst (λ w. IsShown toy php_renderer w) (some_injective (same tt)) λ env. refl,
    ),
    (
      tt,
      (
        (
          λ env. (tt, tt, λ a c _ _. toy-Exact a c),
          (
            λ env. tt,
            λ v same. subst (λ w. IsShown toy php_renderer w) (some_injective (same tt)) tt,
          ),
          tt,
        ),
        tt,
      ),
    ),
  ),
)

render-optimize_ast_example :
    render toy php_renderer sum_optimised tt ≡ render toy php_renderer sum_template tt
render-optimize_ast_example =
    render-optimize_ast toy php_renderer no_files no_includes 5 sum_template sum_optimised [] tt
      refl printed-Faithful optimised

optimize_ast-IsNormal_example : IsNormal sum_optimised
optimize_ast-IsNormal_example =
    optimize_ast-IsNormal toy no_files no_includes 5 sum_template sum_optimised [] refl
      (inl (refl, tt, (refl, tt, (refl, tt, (refl, (tt, tt), tt))))) optimised

optimize_ast-ne-out_of_fuel_example :
    optimize_ast toy no_files no_includes 5 sum_template [] ≢ out_of_fuel
optimize_ast-ne-out_of_fuel_example =
    optimize_ast-ne-out_of_fuel toy no_files no_includes 5 sum_template [] refl (omega arith)
      (tt, (omega arith, (tt, ((omega arith, omega arith, tt), tt))))

render-coalesce_pass_example :
    render toy renderer joined_text tt ≡ render toy renderer split_text tt
render-coalesce_pass_example = render-coalesce_pass toy renderer 3 split_text joined_text tt joined

coalesce_pass-IsNormal_example : IsNormal joined_text
coalesce_pass-IsNormal_example =
    coalesce_pass-IsNormal 3 split_text joined_text (refl, tt, (refl, tt, (refl, tt, tt))) joined
