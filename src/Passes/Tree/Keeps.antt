-- ===== src/Passes/Tree/Keeps.antt =====
-- The walk keeps what a template writes, for every pass whose `process_node` does.
use b.Base.{
  ℕ, zero, suc, ◌≡◌, refl, sym, ◌∙◌, ap, ap₂, Bool, true, false, ◌++◌, append_assoc, append-nil,
  if◌then◌else◌, Outcome,
}
use b.Base.Double.{DoubleOps}
use b.Base.Post.{Partial, Post-bind, Post-weaken, Post-if, returns, breaks, stops}
use b.Ast.Expression.{Expression}
use b.Ast.Template
use b.Ast.Template.{
  Ast, AstList, Body, statements, raw_block, print_block, if_block, for_block, include_block, cons,
  no_body, body, ◌+++◌, ast_type,
}
use b.Rendering.{Renderer, render, render_list, render_body, All, AllList, AllBody, each_or, value}
use b.Passes.Tree.{
  AstPass, splice, walk_list, fold_single, walk_body, walk_tree, visit_ast, process_ast,
  is_leaf_ast,
}
use mathlib.Core.Path.{fun_ext}

module _ (d : DoubleOps) {Env : Type 0} (r : Renderer Env) (Q P : Expression → Type 0) where
  -- The same text in every environment, `Q` at every printed expression and `P` at every other.
  abbrev pub Same : Ast → Ast → Type 0
  Same a a' = (render d r a' ≡ render d r a) × All Q P a'

  abbrev SameList : AstList → AstList → Type 0
  SameList xs ys = (render_list d r ys ≡ render_list d r xs) × AllList Q P ys

  abbrev SameBody : Body → Body → Type 0
  SameBody a a' = (render_body d r a' ≡ render_body d r a) × AllBody Q P a'

  Same-refl : (a : Ast) → All Q P a → Same a a
  Same-refl a h = (refl, h)

  pub Same-trans : (a m n : Ast) → Same a m → Same m n → Same a n
  Same-trans a m n p q = (q.0 ∙ p.0, q.1)

  render-append :
      (xs ys : AstList) (env : Env)
      → render_list d r (xs +++ ys) env ≡ render_list d r xs env ++ render_list d r ys env
  unfolding render
  render-append Template.nil ys env = refl
  render-append (cons x xs) ys env = simp (render-append xs ys env, append_assoc)

  All-append : (xs ys : AstList) → AllList Q P xs → AllList Q P ys → AllList Q P (xs +++ ys)
  All-append Template.nil ys hx hy = hy
  All-append (cons x xs) ys hx hy = (hx.0, All-append xs ys hx.1 hy)

  -- the statements that take the place of a statement write what it writes
  splice-Same :
      (at_begin : Bool) (a : Ast)
      → All Q P a
      → Partial
          (λ xs. ((env : Env) → render_list d r xs env ≡ render d r a env) × AllList Q P xs)
          (splice at_begin a)
  unfolding render
  splice-Same true (statements Template.nil) h = breaks
  splice-Same true (statements (cons x xs)) h = returns (λ env. refl, h)
  splice-Same false (statements xs) h = returns (λ env. refl, h)
  splice-Same true (raw_block t) h = returns (λ env. append-nil _, (h, tt))
  splice-Same true _ h = returns (λ env. append-nil _, (h, tt))
  splice-Same false (raw_block t) h = returns (λ env. append-nil _, (h, tt))
  splice-Same false _ h = returns (λ env. append-nil _, (h, tt))

  fold_single-Same :
      (xs : AstList)
      → AllList Q P xs
      → ((env : Env) → render d r (fold_single xs) env ≡ render_list d r xs env)
        × All Q P (fold_single xs)
  unfolding render
  fold_single-Same Template.nil h = (λ env. refl, h)
  fold_single-Same (cons x Template.nil) h = (λ env. sym (append-nil _), h.0)
  fold_single-Same (cons x (cons y xs)) h = (λ env. refl, h)

  module _ (rec : Ast → Outcome Ast)
      (rec_same : (a : Ast) → All Q P a → Partial (Same a) (rec a)) where
    walk_list-Same :
        (at_begin : Bool) (xs : AstList)
        → AllList Q P xs
        → Partial (SameList xs) (walk_list rec at_begin xs)
    unfolding walk_list render
    walk_list-Same at_begin Template.nil h = returns (refl, tt)
    walk_list-Same at_begin (cons s rest) h = Post-bind (rec_same s h.0) λ s' p.
        Post-bind (splice-Same at_begin s' p.1) λ front q.
          Post-bind (walk_list-Same false rest h.1) λ rest' t. returns (
            fun_ext (λ env.
                render-append front rest' env
                ∙ ap₂ ◌++◌ (q.0 env ∙ ap (λ g. g env) p.0) (ap (λ g. g env) t.0)),
            All-append front rest' q.1 t.1,
          )

    walk_body-Same : (a : Body) → AllBody Q P a → Partial (SameBody a) (walk_body rec a)
    unfolding render
    walk_body-Same no_body h = returns (refl, tt)
    walk_body-Same (body a) h = Post-bind (rec_same a h) λ a' p. returns p

    walk_tree-Same : (a : Ast) → All Q P a → Partial (Same a) (walk_tree rec a)
    unfolding walk_tree render
    walk_tree-Same (statements xs) h =
        Post-bind (walk_list-Same true xs h)
          λ xs' p. let (same, all) = fold_single-Same xs' p.1 in returns (fun_ext same ∙ p.0, all)
    walk_tree-Same (if_block c t e) h = Post-bind (walk_body-Same t h.1) λ t' p.
        Post-bind (walk_body-Same e h.2) λ e' q.
          returns (
            λ j env. if r.test env (value d r env c) then p.0 j env else q.0 j env,
            (h.0, p.1, q.1),
          )
    walk_tree-Same (for_block k v i t e) h = Post-bind (walk_body-Same t h.1) λ t' p.
        Post-bind (walk_body-Same e h.2) λ e' q. returns (
          λ j env. each_or (r.rounds env k v (value d r env i)) (p.0 j) (q.0 j env),
          (h.0, p.1, q.1),
        )
    walk_tree-Same _ h = returns (refl, h)

  -- `process_node` keeps the text of a node, wherever `this->process` does.
  abbrev pub Keeps : AstPass → Type 0
  Keeps p =
      (rec : Ast → Outcome Ast)
      → ((a : Ast) → All Q P a → Partial (Same a) (rec a))
      → (a : Ast) → All Q P a
      → Partial (Same a) (p.process_node rec a)

  visit_ast-Same :
      (p : AstPass)
      → Keeps p
      → (rec : Ast → Outcome Ast) → ((a : Ast) → All Q P a → Partial (Same a) (rec a))
      → (a : Ast) → All Q P a
      → Partial (Same a) (visit_ast p rec a)
  unfolding visit_ast
  visit_ast-Same p keeps rec rec_same a h = Post-bind (keeps rec rec_same a h) λ n q.
      Post-if (is_leaf_ast a) (λ _. returns q)
        (λ _.
          Post-weaken (Post-if _ (λ _. walk_tree-Same rec rec_same n q.1) (λ _. rec_same n q.1))
            λ m t. Same-trans a n m q t)

  pub process_ast-Same :
      (p : AstPass) → Keeps p → (f : ℕ) (a : Ast) → All Q P a → Partial (Same a) (process_ast p f a)
  unfolding process_ast
  process_ast-Same p keeps zero a h = stops tt
  process_ast-Same p keeps (suc f) a h =
      visit_ast-Same p keeps (process_ast p f) (process_ast-Same p keeps f) a h
