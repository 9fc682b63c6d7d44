-- ===== src/Passes/Pipeline/Resolved.antt =====
-- The optimiser leaves no include for the backends.
use b.Base.{
  ℕ, ◌≡◌, refl, Bool, true, false, Str, List, [], ◌∷◌, ◌++◌, append-nil, subst, Outcome, ok,
  if◌then◌else◌,
}
use b.Base.Double.{DoubleOps}
use b.Base.Post.{Partial, Post-bind, Post-ok, returns}
use b.Ast.Expression.{Expression, double_literal, integer_literal, boolean_literal, string_literal}
use b.Ast.Template
use b.Ast.Template.{
  Ast, AstList, statements, raw_block, print_block, if_block, for_block, include_block, cons,
}
use b.Passes.Tree.{AstPass}
use b.Passes.Manager.{run}
use b.Passes.Fold.{fold_constant_expressions_pass}
use b.Passes.Convert.{convert_node, convert_expression, convert_literal_pass}
use b.Passes.Coalesce.{coalesce, coalesce_node, coalesce_raw_blocks_pass}
use b.Passes.Includes.Resolved.{
  HasNoIncludes, FreeList, Clears, process_ast-Free, wrapper-Clears, resolve-Clears, any-Free,
}
use b.Passes.Pipeline.{Enabled, later_passes, optimize_ast}

coalesce-FreeList :
    (erasing : Bool) (xs : AstList) → FreeList ⊥ xs → FreeList ⊥ (coalesce erasing xs)
unfolding coalesce
coalesce-FreeList erasing Template.nil h = tt
coalesce-FreeList true (cons (raw_block t) xs) h = coalesce-FreeList true xs h.1
coalesce-FreeList false (cons (raw_block t) xs) h = (tt, coalesce-FreeList true xs h.1)
coalesce-FreeList true (cons s xs) h = (h.0, coalesce-FreeList false xs h.1)
coalesce-FreeList false (cons s xs) h = (h.0, coalesce-FreeList false xs h.1)

coalesce-Clears : Clears ⊥ coalesce_raw_blocks_pass
unfolding coalesce_node
coalesce-Clears rec rec_free (statements xs) h = returns (refl, coalesce-FreeList false xs h)
coalesce-Clears rec rec_free (raw_block t) h = returns tt
coalesce-Clears rec rec_free (print_block e) h = returns tt
coalesce-Clears rec rec_free (if_block c t e) h = returns (refl, h)
coalesce-Clears rec rec_free (for_block k v i t e) h = returns (refl, h)
coalesce-Clears rec rec_free (include_block n s m) h = absurd h

convert_expression-HasNoIncludes :
    (d : DoubleOps) (e : Expression) → HasNoIncludes (convert_expression d e)
convert_expression-HasNoIncludes d (double_literal v) = tt
convert_expression-HasNoIncludes d (integer_literal v) = tt
convert_expression-HasNoIncludes d (boolean_literal v) = tt
convert_expression-HasNoIncludes d (string_literal v) = tt
convert_expression-HasNoIncludes d _ = tt

convert-Clears : (d : DoubleOps) → Clears ⊥ (convert_literal_pass d)
unfolding convert_node
convert-Clears d rec rec_free (statements xs) h = returns (refl, h)
convert-Clears d rec rec_free (raw_block t) h = returns tt
convert-Clears d rec rec_free (print_block e) h = returns (convert_expression-HasNoIncludes d e)
convert-Clears d rec rec_free (if_block c t e) h = returns (refl, h)
convert-Clears d rec rec_free (for_block k v i t e) h = returns (refl, h)
convert-Clears d rec rec_free (include_block n s m) h = absurd h

optional-Free :
    (on : Bool) (p : AstPass)
    → Clears ⊥ p
    → (ps : List AstPass) (f : ℕ) (a : Ast) → HasNoIncludes a
    → ((m : Ast) → HasNoIncludes m → Partial HasNoIncludes (run ps f m))
    → Partial HasNoIncludes (run ((if on then p ∷ [] else []) ++ ps) f a)
unfolding run
optional-Free true p clears ps f a h rest = Post-bind (process_ast-Free ⊥ p clears f a h) rest
optional-Free false p clears ps f a h rest = rest a h

module _ (d : DoubleOps) (parse : Str → Outcome Ast) where
  later-Free :
      (on : Enabled) (f : ℕ) (a : Ast)
      → HasNoIncludes a
      → Partial HasNoIncludes (run (later_passes d parse on f) f a)
  unfolding later_passes run
  later-Free on f a h =
      optional-Free on.constant_folding _ (wrapper-Clears (fold_constant_expressions_pass d) f) _ f
        a h
        λ m hm. optional-Free on.literal_conversion _ (convert-Clears d) _ f m hm λ n hn.
          subst (λ ps. Partial HasNoIncludes (run ps f n)) (append-nil _)
            (optional-Free on.raw_block_coalescing _ coalesce-Clears [] f n hn λ q hq. returns hq)

  optimize-Free :
      (on : Enabled) (f : ℕ) (a : Ast) (base : Str)
      → on.resolve_includes ≡ true
      → Partial HasNoIncludes (optimize_ast d parse on f a base)
  unfolding optimize_ast run
  optimize-Free on f a base first = rw first (
      Post-bind (process_ast-Free Unit _ (resolve-Clears parse base f) f a (any-Free a))
        (later-Free on f))

-- With the include pass on, `optimizeAST` returns a template without an include, at any depth, for
-- every parser, every template and every setting of the other passes.
pub optimize_ast-HasNoIncludes :
    (d : DoubleOps) (parse : Str → Outcome Ast) (on : Enabled) (f : ℕ) (a a' : Ast) (base : Str)
    → on.resolve_includes ≡ true
    → optimize_ast d parse on f a base ≡ ok a'
    → HasNoIncludes a'
optimize_ast-HasNoIncludes d parse on f a a' base first p =
    Post-ok (optimize-Free d parse on f a base first) p
