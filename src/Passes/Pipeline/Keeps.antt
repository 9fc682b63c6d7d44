-- ===== src/Passes/Pipeline/Keeps.antt =====
-- An optimised template writes what the template writes.
use b.Base.{
  ℕ, ◌≡◌, refl, sym, ◌∙◌, subst, append-nil, ap, ap₂, Bool, true, false, List, [], ◌∷◌, ◌++◌, Str,
  Outcome, ok, Option, none, some, if◌then◌else◌,
}
use b.Base.Double.{DoubleOps}
use b.Base.Post.{Partial, Partial-all, Post-bind, Post-weaken, returns, Post-ok}
use b.Ast.Expression.{Expression, double_literal, integer_literal, boolean_literal, string_literal}
use b.Ast.Template.{
  Ast, Mapping, statements, raw_block, print_block, if_block, for_block, include_block,
}
use b.Meaning.{Value, variant, IsExact, eval, double, integer, boolean, text}
use b.Rendering.{
  Renderer, render, render_body, each_or, value, All, AllScope, AllMapped, map_option, map_values,
}
use b.Passes.Walk.{process}
use b.Passes.Tree.{AstPass}
use b.Passes.Tree.Keeps.{Same, Same-trans, Keeps, process_ast-Same}
use b.Passes.Manager.{expression_pass_wrapper, wrap_node, process_scope, process_mapping, run}
use b.Passes.Fold.{fold_constant_expressions_pass}
use b.Passes.Fold.Keeps.{process-Sound}
use b.Passes.Fold.Sound.{Sound}
use b.Passes.Convert.{
  convert_literal_pass, convert_node, convert_expression, print_long, print_boolean,
}
use b.Passes.Coalesce.Keeps.{coalesce-Keeps}
use b.Passes.Pipeline.{Enabled, later_passes, optimize_ast}
use mathlib.Core.Path.{fun_ext}

module _ (d : DoubleOps) {Env : Type 0} (r : Renderer Env) where
  -- Comparisons of integers are exact in every environment.
  abbrev pub ExactEverywhere : Expression → Type 0
  ExactEverywhere e = (env : Env) → IsExact d (r.host env) e

  -- The host prints the value in every environment as the program formats it.
  abbrev pub IsShown : Value → Type 0
  IsShown (double v) = (env : Env) → r.show env (some (double v)) ≡ d.print v
  IsShown (integer n) = (env : Env) → r.show env (some (integer n)) ≡ print_long n
  IsShown (boolean v) = (env : Env) → r.show env (some (boolean v)) ≡ print_boolean v
  IsShown (text s) = (env : Env) → r.show env (some (text s)) ≡ s
  IsShown (variant n) = Unit

  -- So it prints the value of the expression, if that is one value in every environment.
  abbrev pub ConstantIsShown : Expression → Type 0
  ConstantIsShown e = (v : Value) → ((env : Env) → value d r env e ≡ some v) → IsShown v

  abbrev pub Faithful : Expression → Type 0
  Faithful e = ExactEverywhere e × ConstantIsShown e

  -- The same value in every environment.
  abbrev SameValue : Expression → Expression → Type 0
  SameValue e e' = (env : Env) → value d r env e' ≡ value d r env e

  fold-SameValue :
      (f : ℕ) (e : Expression)
      → ExactEverywhere e
      → Partial
          (λ e'. SameValue e e' × ExactEverywhere e')
          (process (fold_constant_expressions_pass d) f e)
  fold-SameValue f e ex =
      Post-weaken
        (Partial-all (λ env e'. Sound d (r.host env) e e') _
          (λ env. process-Sound d (r.host env) f e (ex env)))
        λ e' p. (λ env. (p env).0, λ env. (p env).1)

  fold-Faithful :
      (f : ℕ) (e : Expression)
      → Faithful e
      → Partial
          (λ e'. SameValue e e' × Faithful e')
          (process (fold_constant_expressions_pass d) f e)
  fold-Faithful f e (ex, shown) =
      Post-weaken (fold-SameValue f e ex)
        λ e' p. (p.0, (p.1, λ v same. shown v (λ env. sym (p.0 env) ∙ same env)))

  mapping-SameValue :
      (f : ℕ) (m : Mapping)
      → AllMapped ExactEverywhere m
      → Partial
          (λ m'.
            ((env : Env) → map_values (value d r env) m' ≡ map_values (value d r env) m)
            × AllMapped ExactEverywhere m')
          (process_mapping (process (fold_constant_expressions_pass d) f) m)
  unfolding process_mapping
  mapping-SameValue f [] ex = returns (λ env. refl, tt)
  mapping-SameValue f ((k, e) ∷ m) ex = Post-bind (fold-SameValue f e ex.0) λ e' p.
      Post-bind (mapping-SameValue f m ex.1)
        λ m' q. returns (λ env. ap₂ (λ v vs. (k, v) ∷ vs) (p.0 env) (q.0 env), (p.1, q.1))

  scope-SameValue :
      (f : ℕ) (s : Option Expression)
      → AllScope ExactEverywhere s
      → Partial
          (λ s'.
            ((env : Env) → map_option (value d r env) s' ≡ map_option (value d r env) s)
            × AllScope ExactEverywhere s')
          (process_scope (process (fold_constant_expressions_pass d) f) s)
  scope-SameValue f none ex = returns (λ env. refl, tt)
  scope-SameValue f (some e) ex =
      Post-bind (fold-SameValue f e ex) λ e' p. returns (λ env. ap some (p.0 env), p.1)

  fold-Keeps :
      (f : ℕ)
      → Keeps d r Faithful ExactEverywhere
          (expression_pass_wrapper (fold_constant_expressions_pass d) f)
  unfolding wrap_node render
  fold-Keeps f rec rec_same (statements xs) h = returns (refl, h)
  fold-Keeps f rec rec_same (raw_block t) h = returns (refl, h)
  fold-Keeps f rec rec_same (print_block e) h =
      Post-bind (fold-Faithful f e h)
        λ e' p. returns (fun_ext (λ env. ap (r.show env) (p.0 env)), p.1)
  fold-Keeps f rec rec_same (if_block c t e) h = Post-bind (fold-SameValue f c h.0) λ c' p.
      returns (
        fun_ext (λ env.
            ap (λ v. if r.test env v then render_body d r t env else render_body d r e env)
              (p.0 env)),
        (p.1, h.1, h.2),
      )
  fold-Keeps f rec rec_same (for_block k v i t e) h = Post-bind (fold-SameValue f i h.0) λ i' p.
      returns (
        fun_ext (λ env.
            ap (λ w. each_or (r.rounds env k v w) (render_body d r t) (render_body d r e env))
              (p.0 env)),
        (p.1, h.1, h.2),
      )
  fold-Keeps f rec rec_same (include_block n s m) h = Post-bind (scope-SameValue f s h.0) λ s' p.
      Post-bind (mapping-SameValue f m h.1)
        λ m' q. returns (fun_ext (λ env. ap₂ (r.included env n) (p.0 env) (q.0 env)), (p.1, q.1))

  convert_expression-Same :
      (e : Expression)
      → Faithful e
      → Same d r Faithful ExactEverywhere (print_block e) (convert_expression d e)
  unfolding render eval
  convert_expression-Same (double_literal v) h =
      (fun_ext (λ env. sym (h.1 (double v) (λ _. refl) env)), tt)
  convert_expression-Same (integer_literal n) h =
      (fun_ext (λ env. sym (h.1 (integer n) (λ _. refl) env)), tt)
  convert_expression-Same (boolean_literal v) h =
      (fun_ext (λ env. sym (h.1 (boolean v) (λ _. refl) env)), tt)
  convert_expression-Same (string_literal s) h =
      (fun_ext (λ env. sym (h.1 (text s) (λ _. refl) env)), tt)
  convert_expression-Same _ h = (refl, h)

  convert-Keeps : Keeps d r Faithful ExactEverywhere (convert_literal_pass d)
  unfolding convert_node
  convert-Keeps rec rec_same (print_block e) h = returns (convert_expression-Same e h)
  convert-Keeps rec rec_same _ h = returns (refl, h)

  run-Same :
      (Q P : Expression → Type 0) (p : AstPass)
      → Keeps d r Q P p
      → (ps : List AstPass) (f : ℕ) (a : Ast) → All Q P a
      → ((m : Ast) → All Q P m → Partial (Same d r Q P m) (run ps f m))
      → Partial (Same d r Q P a) (run (p ∷ ps) f a)
  unfolding run
  run-Same Q P p keeps ps f a h rest =
      Post-bind (process_ast-Same d r Q P p keeps f a h)
        λ m q. Post-weaken (rest m q.1) λ n t. Same-trans d r Q P a m n q t

  optional-Same :
      (on : Bool) (Q P : Expression → Type 0) (p : AstPass)
      → Keeps d r Q P p
      → (ps : List AstPass) (f : ℕ) (a : Ast) → All Q P a
      → ((m : Ast) → All Q P m → Partial (Same d r Q P m) (run ps f m))
      → Partial (Same d r Q P a) (run ((if on then p ∷ [] else []) ++ ps) f a)
  optional-Same true Q P p keeps ps f a h rest = run-Same Q P p keeps ps f a h rest
  optional-Same false Q P p keeps ps f a h rest = rest a h

  later-Same :
      (parse : Str → Outcome Ast) (on : Enabled) (f : ℕ) (a : Ast)
      → All Faithful ExactEverywhere a
      → Partial (Same d r Faithful ExactEverywhere a) (run (later_passes d parse on f) f a)
  unfolding later_passes run
  later-Same parse on f a h =
      optional-Same on.constant_folding Faithful ExactEverywhere _ (fold-Keeps f) _ f a h λ m hm.
        optional-Same on.literal_conversion Faithful ExactEverywhere _ convert-Keeps _ f m hm
          λ n hn.
            subst (λ ps. Partial (Same d r Faithful ExactEverywhere n) (run ps f n)) (append-nil _)
              (optional-Same on.raw_block_coalescing Faithful ExactEverywhere _
                (coalesce-Keeps d r Faithful ExactEverywhere) [] f n hn λ q hq. returns (refl, hq))

-- With the include pass off, what `optimizeAST` returns writes the text that the template writes,
-- in every environment and for every setting of the other three passes, if two things hold: each
-- printed expression that has one value in every environment has a value that the host prints as
-- the program formats it (a printed Boolean constant under PHP is not such a value), and at each
-- comparison of two integers the comparison of the doubles to which they convert gives what that of
-- the integers gives.
pub render-optimize_ast :
    (d : DoubleOps) {Env : Type 0} (r : Renderer Env) (parse : Str → Outcome Ast) (on : Enabled)
    (f : ℕ) (a a' : Ast) (base : Str) (env : Env)
    → on.resolve_includes ≡ false
    → All (Faithful d r) (ExactEverywhere d r) a
    → optimize_ast d parse on f a base ≡ ok a'
    → render d r a' env ≡ render d r a env
unfolding optimize_ast
render-optimize_ast d r parse on f a a' base env off h p =
    ap (λ g. g env) (Post-ok (later-Same d r parse on f a h) (rw off at p)).0
