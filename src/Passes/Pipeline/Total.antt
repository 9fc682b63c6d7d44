-- ===== src/Passes/Pipeline/Total.antt =====
-- `optimizeAST` ends, where no include is resolved.
use b.Base.{
  ℕ, ◌≤◌, ◌≡◌, ◌≢◌, refl, inl, inr, Bool, true, false, Str, List, [], ◌∷◌, ◌++◌, append-nil, subst,
  Option, none, some, arith, Outcome, out_of_fuel, if◌then◌else◌,
}
use b.Base.Double.{DoubleOps}
use b.Base.Post.{Total, Post-bind, Post-weaken, Total-ne-out_of_fuel, returns}
use b.Ast.Expression.{Expression, double_literal, integer_literal, boolean_literal, string_literal}
use b.Ast.Template
use b.Ast.Template.{
  Ast, AstList, Mapping, statements, raw_block, print_block, if_block, for_block, include_block,
  cons,
}
use b.Ast.Height.{height, ast_height, list_height}
use b.Rendering.{All, AllMapped, AllScope, every}
use b.Passes.Walk.{process}
use b.Passes.Tree.{AstPass}
use b.Passes.Tree.Total.{LowerTree, Ends, process_ast-Lower}
use b.Passes.Manager.{wrap_node, process_mapping, process_scope, expression_pass_wrapper, run}
use b.Passes.Fold.{fold_constant_expressions_pass}
use b.Passes.Fold.Total.{process-Total}
use b.Passes.Convert.{convert_node, convert_expression, convert_literal_pass}
use b.Passes.Coalesce.{coalesce, coalesce_node, coalesce_raw_blocks_pass}
use b.Passes.Pipeline.{Enabled, later_passes, optimize_ast}

-- Every expression of the template is as high as the fuel at most.
abbrev Fitting : ℕ → Expression → Type 0
Fitting f e = height e ≤ f

abbrev Anything : Expression → Type 0
Anything e = Unit

coalesce-Lower :
    (erasing : Bool) (xs : AstList) → list_height (coalesce erasing xs) ≤ list_height xs
unfolding coalesce
coalesce-Lower erasing Template.nil = omega arith
coalesce-Lower true (cons (raw_block t) xs) = omega (arith, coalesce-Lower true xs)
coalesce-Lower false (cons (raw_block t) xs) = omega (arith, coalesce-Lower true xs)
coalesce-Lower true (cons s xs) = omega (arith, coalesce-Lower false xs)
coalesce-Lower false (cons s xs) = omega (arith, coalesce-Lower false xs)

coalesce-Ends : Ends Anything coalesce_raw_blocks_pass
unfolding coalesce_node
coalesce-Ends rec (statements xs) h = returns (
  omega (arith, coalesce-Lower false xs),
  inr refl,
  every (λ _. tt) (λ _. tt) (statements (coalesce false xs)),
)
coalesce-Ends rec (raw_block t) h = returns (omega arith, inl refl, h)
coalesce-Ends rec (print_block e) h = returns (omega arith, inl refl, h)
coalesce-Ends rec (if_block c t e) h = returns (omega arith, inr refl, h)
coalesce-Ends rec (for_block k v i t e) h = returns (omega arith, inr refl, h)
coalesce-Ends rec (include_block n s m) h = returns (omega arith, inl refl, h)

module _ (d : DoubleOps) where
  convert_expression-height : (e : Expression) → ast_height (convert_expression d e) ≡ 1
  convert_expression-height (double_literal v) = refl
  convert_expression-height (integer_literal n) = refl
  convert_expression-height (boolean_literal v) = refl
  convert_expression-height (string_literal s) = refl
  convert_expression-height _ = refl

  convert-Ends : Ends Anything (convert_literal_pass d)
  unfolding convert_node
  convert-Ends rec (print_block e) h =
      returns (omega (arith, convert_expression-height e), inl refl, every (λ _. tt) (λ _. tt) _)
  convert-Ends rec (statements xs) h = returns (omega arith, inr refl, h)
  convert-Ends rec (raw_block t) h = returns (omega arith, inl refl, h)
  convert-Ends rec (if_block c t e) h = returns (omega arith, inr refl, h)
  convert-Ends rec (for_block k v i t e) h = returns (omega arith, inr refl, h)
  convert-Ends rec (include_block n s m) h = returns (omega arith, inl refl, h)

  module _ (f : ℕ) where
    abbrev fold : Expression → Outcome Expression
    fold = process (fold_constant_expressions_pass d) f

    fold-Fitting : (e : Expression) → Fitting f e → Total (Fitting f) (fold e)
    fold-Fitting e h = Post-weaken (process-Total d f e h) λ e' p. omega arith

    scope-Fitting :
        (s : Option Expression)
        → AllScope (Fitting f) s
        → Total (AllScope (Fitting f)) (process_scope fold s)
    scope-Fitting none h = returns tt
    scope-Fitting (some e) h = Post-bind (fold-Fitting e h) λ e' p. returns p

    mapping-Fitting :
        (m : Mapping)
        → AllMapped (Fitting f) m
        → Total (AllMapped (Fitting f)) (process_mapping fold m)
    unfolding process_mapping
    mapping-Fitting [] h = returns tt
    mapping-Fitting ((k, e) ∷ m) h =
        Post-bind (fold-Fitting e h.0)
          λ e' p. Post-bind (mapping-Fitting m h.1) λ m' q. returns (p, q)

    fold-Ends : Ends (Fitting f) (expression_pass_wrapper (fold_constant_expressions_pass d) f)
    unfolding wrap_node
    fold-Ends rec (statements xs) h = returns (omega arith, inr refl, h)
    fold-Ends rec (raw_block t) h = returns (omega arith, inl refl, h)
    fold-Ends rec (print_block e) h =
        Post-bind (fold-Fitting e h) λ e' p. returns (omega arith, inl refl, p)
    fold-Ends rec (if_block c t e) h =
        Post-bind (fold-Fitting c h.0) λ c' p. returns (omega arith, inr refl, (p, h.1, h.2))
    fold-Ends rec (for_block k v i t e) h =
        Post-bind (fold-Fitting i h.0) λ i' p. returns (omega arith, inr refl, (p, h.1, h.2))
    fold-Ends rec (include_block n s m) h =
        Post-bind (scope-Fitting s h.0)
          λ s' p. Post-bind (mapping-Fitting m h.1) λ m' q. returns (omega arith, inl refl, (p, q))

  optional-Lower :
      (on : Bool) (P : Expression → Type 0) (p : AstPass)
      → Ends P p
      → (ps : List AstPass) (f : ℕ) (a : Ast) → All P P a
      → ast_height a ≤ f
      → ((m : Ast) → ast_height m ≤ f → Total (LowerTree m) (run ps f m))
      → Total (LowerTree a) (run ((if on then p ∷ [] else []) ++ ps) f a)
  unfolding run
  optional-Lower true P p ends ps f a h le rest =
      Post-bind (process_ast-Lower P p ends f a le h)
        λ m q. Post-weaken (rest m (omega arith)) λ n t. omega arith
  optional-Lower false P p ends ps f a h le rest = rest a le

  later-Lower :
      (parse : Str → Outcome Ast) (on : Enabled) (f : ℕ) (a : Ast)
      → ast_height a ≤ f
      → All (Fitting f) (Fitting f) a
      → Total (LowerTree a) (run (later_passes d parse on f) f a)
  unfolding later_passes run
  later-Lower parse on f a le h =
      optional-Lower on.constant_folding (Fitting f) _ (fold-Ends f) _ f a h le λ m le_m.
        optional-Lower on.literal_conversion Anything _ convert-Ends _ f m
          (every (λ _. tt) (λ _. tt) m) le_m
          λ n le_n.
            subst (λ ps. Total (LowerTree n) (run ps f n)) (append-nil _)
              (optional-Lower on.raw_block_coalescing Anything _ coalesce-Ends [] f n
                (every (λ _. tt) (λ _. tt) n) le_n λ q le_q. returns (omega arith))

-- With the include pass off, `optimizeAST` does not run out of fuel, for every setting of the
-- other passes: if the fuel is at least the height of the tree of statements and the height of
-- each expression in it.
pub optimize_ast-ne-out_of_fuel :
    (d : DoubleOps) (parse : Str → Outcome Ast) (on : Enabled) (f : ℕ) (a : Ast) (base : Str)
    → on.resolve_includes ≡ false
    → ast_height a ≤ f
    → All (Fitting f) (Fitting f) a
    → optimize_ast d parse on f a base ≢ out_of_fuel
unfolding optimize_ast
optimize_ast-ne-out_of_fuel d parse on f a base off le h =
    rw off (Total-ne-out_of_fuel (later-Lower d parse on f a le h))
