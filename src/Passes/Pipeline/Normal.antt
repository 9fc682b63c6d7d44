-- ===== src/Passes/Pipeline/Normal.antt =====
-- The shape of an optimised template.
use b.Base.{
  bind_assoc, bind_congr, ◌⊎◌, inl, inr, ℕ, ◌≡◌, refl, ◌∙◌, Bool, true, false, List, [], ◌∷◌, ◌++◌,
  Str, Outcome, ok, ◌>>=◌, Option, none, some, if◌then◌else◌,
}
use b.Base.Double.{DoubleOps}
use b.Base.Post.{Partial, Partial-any, Post-bind, returns, throws, breaks, stops, Post-ok, Post-if}
use b.Ast.Expression.{Expression, double_literal}
use b.Ast.Template.{
  Ast, Mapping, statements, raw_block, print_block, if_block, for_block, include_block,
}
use b.Ast.Shape.{IsFlat, IsNormal}
use b.Passes.Walk.{ExpressionPass, process}
use b.Passes.Tree.{AstPass, process_ast}
use b.Passes.Tree.Flat.{FlatLeaves, process_ast-IsFlat}
use b.Passes.Manager.{expression_pass_wrapper, wrap_node, process_scope, process_mapping, run}
use b.Passes.Fold.{fold_constant_expressions_pass}
use b.Passes.Convert.{convert_literal_pass, convert_node, convert_expression}
use b.Passes.Coalesce.{coalesce_raw_blocks_pass}
use b.Passes.Coalesce.Normal.{process-Normalised}
use b.Passes.Includes.{resolve_includes_pass, resolve_node, substitute, resolve_path, release_twice}
use b.Passes.Pipeline.{Enabled, later_passes, optimize_ast}

wrapper-FlatLeaves : (p : ExpressionPass) (f : ℕ) → FlatLeaves (expression_pass_wrapper p f)
unfolding wrap_node
wrapper-FlatLeaves p f rec rec_flat (raw_block t) leaf = returns tt
wrapper-FlatLeaves p f rec rec_flat (print_block e) leaf =
    Post-bind (Partial-any (process p f e)) λ e' _. returns tt
wrapper-FlatLeaves p f rec rec_flat (include_block n s m) leaf =
    Post-bind (Partial-any (process_scope (process p f) s))
      λ s' _. Post-bind (Partial-any (process_mapping (process p f) m)) λ m' _. returns tt
wrapper-FlatLeaves p f rec rec_flat (statements xs) leaf = cc
wrapper-FlatLeaves p f rec rec_flat (if_block c t e) leaf = cc
wrapper-FlatLeaves p f rec rec_flat (for_block k v i t e) leaf = cc

convert_expression-IsFlat : (d : DoubleOps) (e : Expression) → IsFlat (convert_expression d e)
convert_expression-IsFlat d (double_literal v) = tt
convert_expression-IsFlat d _ = tt

convert-FlatLeaves : (d : DoubleOps) → FlatLeaves (convert_literal_pass d)
unfolding convert_node
convert-FlatLeaves d rec rec_flat (raw_block t) leaf = returns tt
convert-FlatLeaves d rec rec_flat (print_block e) leaf = returns (convert_expression-IsFlat d e)
convert-FlatLeaves d rec rec_flat (include_block n s m) leaf = returns tt
convert-FlatLeaves d rec rec_flat (statements xs) leaf = cc
convert-FlatLeaves d rec rec_flat (if_block c t e) leaf = cc
convert-FlatLeaves d rec rec_flat (for_block k v i t e) leaf = cc

-- a run of one pass
run_one-IsFlat :
    (p : AstPass) → FlatLeaves p → (f : ℕ) (a : Ast) → Partial IsFlat (run (p ∷ []) f a)
unfolding run
run_one-IsFlat p leaves f a = Post-bind (process_ast-IsFlat p leaves f a) λ a' h. returns h

substitute-IsFlat :
    (f : ℕ) (file : Str) (scope : Option Expression) (m : Mapping) (a : Ast)
    → Partial IsFlat (substitute f file scope m a)
unfolding substitute
substitute-IsFlat f file (some s) m a = run_one-IsFlat _ (wrapper-FlatLeaves _ f) f a
substitute-IsFlat f file none m a = run_one-IsFlat _ (wrapper-FlatLeaves _ f) f a

release_twice-IsFlat :
    (before : Ast) (r : Outcome Ast) → Partial IsFlat r → Partial IsFlat (release_twice before r)
release_twice-IsFlat before _ (returns h) = Post-if _ (λ _. returns h) (λ _. breaks)
release_twice-IsFlat before _ throws = breaks
release_twice-IsFlat before _ breaks = breaks
release_twice-IsFlat before _ (stops h) = stops h

module _ (parse : Str → Outcome Ast) (base : Str) where
  resolve-FlatLeaves : (f : ℕ) → FlatLeaves (resolve_includes_pass parse base f)
  unfolding resolve_node
  resolve-FlatLeaves f rec rec_flat (include_block name s m) leaf =
      Post-bind (Partial-any (parse (resolve_path base name))) λ a _.
        Post-bind (rec_flat a)
          λ a' h. release_twice-IsFlat a' _ (substitute-IsFlat f (resolve_path base name) s m a')
  resolve-FlatLeaves f rec rec_flat (raw_block t) leaf = returns tt
  resolve-FlatLeaves f rec rec_flat (print_block e) leaf = returns tt
  resolve-FlatLeaves f rec rec_flat (statements xs) leaf = cc
  resolve-FlatLeaves f rec rec_flat (if_block c t e) leaf = cc
  resolve-FlatLeaves f rec rec_flat (for_block k v i t e) leaf = cc

-- Two runs, one behind the other.
run-append :
    (ps qs : List AstPass) (f : ℕ) (a : Ast) → run (ps ++ qs) f a ≡ (run ps f a >>= λ m. run qs f m)
unfolding run
run-append [] qs f a = refl
run-append (p ∷ ps) qs f a =
    bind_congr (process_ast p f a) (λ m. run-append ps qs f m) ∙ bind_assoc (process_ast p f a) _ _

-- a pass that may be switched off keeps a flat template flat
optional-IsFlat :
    (on : Bool) (p : AstPass)
    → FlatLeaves p
    → (f : ℕ) (a : Ast) → IsFlat a
    → Partial IsFlat (run (if on then p ∷ [] else []) f a)
unfolding run
optional-IsFlat true p leaves f a h = run_one-IsFlat p leaves f a
optional-IsFlat false p leaves f a h = returns h

coalesced :
    (f : ℕ) (a : Ast) → IsFlat a → Partial IsNormal (run (coalesce_raw_blocks_pass ∷ []) f a)
unfolding run
coalesced f a h = Post-bind (process-Normalised f a h) λ a' n. returns n.0

module _ (d : DoubleOps) (parse : Str → Outcome Ast) where
  -- the passes behind the include pass, on a flat template
  later-IsNormal :
      (on : Enabled) (f : ℕ) (a : Ast)
      → on.raw_block_coalescing ≡ true
      → IsFlat a
      → Partial IsNormal (run (later_passes d parse on f) f a)
  unfolding later_passes
  later-IsNormal on f a coalescing h =
      rw
        (
          coalescing,
          run-append (
              if on.constant_folding
              then expression_pass_wrapper (fold_constant_expressions_pass d) f ∷ []
              else []),
        )
        (Post-bind (optional-IsFlat on.constant_folding _ (wrapper-FlatLeaves _ f) f a h) λ m hm.
          rw (run-append (if on.literal_conversion then convert_literal_pass d ∷ [] else [])) (
            Post-bind (optional-IsFlat on.literal_conversion _ (convert-FlatLeaves d) f m hm)
              λ n hn. coalesced f n hn))

  optimize-Partial :
      (on : Enabled) (f : ℕ) (a : Ast) (base : Str)
      → on.raw_block_coalescing ≡ true
      → (IsFlat a) ⊎ (on.resolve_includes ≡ true)
      → Partial IsNormal (optimize_ast d parse on f a base)
  unfolding optimize_ast
  optimize-Partial on f a base coalescing (inl h) =
      rw (run-append (if on.resolve_includes then resolve_includes_pass parse base f ∷ [] else []))
        (Post-bind (optional-IsFlat on.resolve_includes _ (resolve-FlatLeaves parse base f) f a h)
          λ m hm. later-IsNormal on f m coalescing hm)
  optimize-Partial on f a base coalescing (inr first) =
      rw (first, run-append (resolve_includes_pass parse base f ∷ []))
        (Post-bind (run_one-IsFlat _ (resolve-FlatLeaves parse base f) f a)
          λ m hm. later-IsNormal on f m coalescing hm)

-- With the coalescing pass on, `optimizeAST` returns a template in which no list of statements
-- stands directly in another or has exactly one statement, and no raw block follows another: for
-- every parser and every setting of the other passes, if the include pass is on too, or the
-- template given has no list of statements directly in another.
pub optimize_ast-IsNormal :
    (d : DoubleOps) (parse : Str → Outcome Ast) (on : Enabled) (f : ℕ) (a a' : Ast) (base : Str)
    → on.raw_block_coalescing ≡ true
    → (IsFlat a) ⊎ (on.resolve_includes ≡ true)
    → optimize_ast d parse on f a base ≡ ok a'
    → IsNormal a'
optimize_ast-IsNormal d parse on f a a' base coalescing flat p =
    Post-ok (optimize-Partial d parse on f a base coalescing flat) p
