-- ===== src/Passes/Coalesce/Keeps.antt =====
-- Coalescing keeps what a template writes.
use b.Base.{
  ℕ, ◌≡◌, refl, sym, ◌∙◌, ap, Bool, true, false, [], ◌∷◌, ◌++◌, append_assoc, append-nil, ok, arith,
  ltb, length, if◌then◌else◌, Str, List,
}
use b.Base.Double.{DoubleOps}
use b.Base.Post.{returns, Post-ok}
use b.Ast.Expression.{Expression}
use b.Ast.Template
use b.Ast.Template.{
  Ast, AstList, statements, raw_block, print_block, if_block, for_block, include_block, cons,
}
use b.Rendering.{Renderer, every, render, render_list, AllList}
use b.Passes.Tree.{process_ast}
use b.Passes.Tree.Keeps.{Keeps, process_ast-Same}
use b.Passes.Coalesce.{concat, gather, coalesce, coalesce_node, coalesce_raw_blocks_pass}
use mathlib.Core.Path.{fun_ext}

-- one string is taken as it is, which is its concatenation
joined :
    (t : Str) (ts : List Str)
    → (if ltb 1 (length (t ∷ ts)) then concat (t ∷ ts) else t) ≡ t ++ concat ts
joined t [] = sym (append-nil t)
joined t (s ∷ ts) = ground arith

module _ (d : DoubleOps) {Env : Type 0} (r : Renderer Env) where
  mutual
    unfolding coalesce render

    -- The texts gathered, and what is left behind them, are the text of the list.
    render-erasing :
        (xs : AstList) (env : Env)
        → concat (gather xs) ++ render_list d r (coalesce true xs) env ≡ render_list d r xs env
    render-erasing Template.nil env = refl
    render-erasing (cons (raw_block t) rest) env =
        append_assoc t (concat (gather rest)) _ ∙ ap (λ u. t ++ u) (render-erasing rest env)
    render-erasing (cons s rest) env = ap (λ u. render d r s env ++ u) (render-coalesce rest env)

    render-coalesce :
        (xs : AstList) (env : Env)
        → render_list d r (coalesce false xs) env ≡ render_list d r xs env
    render-coalesce Template.nil env = refl
    render-coalesce (cons (raw_block t) rest) env =
        ap (λ u. u ++ render_list d r (coalesce true rest) env) (joined t (gather rest))
        ∙ append_assoc t (concat (gather rest)) _
        ∙ ap (λ u. t ++ u) (render-erasing rest env)
    render-coalesce (cons s rest) env = ap (λ u. render d r s env ++ u) (render-coalesce rest env)

module _ (Q P : Expression → Type 0) where
  All-coalesce :
      (erasing : Bool) (xs : AstList) → AllList Q P xs → AllList Q P (coalesce erasing xs)
  unfolding coalesce
  All-coalesce true Template.nil h = tt
  All-coalesce false Template.nil h = tt
  All-coalesce true (cons (raw_block t) rest) h = All-coalesce true rest h.1
  All-coalesce false (cons (raw_block t) rest) h = (tt, All-coalesce true rest h.1)
  All-coalesce true (cons _ rest) h = (h.0, All-coalesce false rest h.1)
  All-coalesce false (cons _ rest) h = (h.0, All-coalesce false rest h.1)

pub coalesce-Keeps :
    (d : DoubleOps) {Env : Type 0} (r : Renderer Env) (Q P : Expression → Type 0)
    → Keeps d r Q P coalesce_raw_blocks_pass
unfolding coalesce_node render
coalesce-Keeps d r Q P rec rec_same (statements xs) h =
    returns (fun_ext (render-coalesce d r xs), All-coalesce Q P false xs h)
coalesce-Keeps d r Q P rec rec_same _ h = returns (refl, h)

-- What the coalescing pass returns writes the text that the template writes, in every environment.
pub render-coalesce_pass :
    (d : DoubleOps) {Env : Type 0} (r : Renderer Env) (f : ℕ) (a a' : Ast) (env : Env)
    → process_ast coalesce_raw_blocks_pass f a ≡ ok a'
    → render d r a' env ≡ render d r a env
render-coalesce_pass d r f a a' env p =
    let same =
      process_ast-Same d r (λ _. Unit {0}) (λ _. Unit {0}) coalesce_raw_blocks_pass
        (coalesce-Keeps d r (λ _. Unit {0}) (λ _. Unit {0})) f a (every (λ _. tt) (λ _. tt) a) in
    ap (λ g. g env) (Post-ok same p).0
