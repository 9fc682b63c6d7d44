-- ===== src/Passes/Tree/Total.antt =====
-- The walk over the statements ends, for every pass that keeps what a node is.
use b.Base.{ℕ, zero, suc, ◌≤◌, ◌≡◌, ◌⊎◌, inl, inr, Bool, true, false, Outcome, max, arith}
use b.Base.Post.{Total, Post-bind, Post-weaken, Post-if, returns, breaks}
use b.Ast.Expression.{Expression}
use b.Ast.Template
use b.Ast.Template.{
  Ast, AstList, Body, statements, raw_block, print_block, if_block, for_block, include_block, cons,
  no_body, body, ◌+++◌, ast_type, is_same_ast_type,
}
use b.Ast.Height.{ast_height, list_height, body_height}
use b.Rendering.{All, AllList, AllBody}
use b.Passes.Tree.{
  AstPass, splice, walk_list, fold_single, walk_body, walk_tree, visit_ast, process_ast,
  is_leaf_ast,
}

abbrev pub LowerTree : Ast → Ast → Type 0
LowerTree a a' = ast_height a' ≤ ast_height a

ast_height-pos : (a : Ast) → 1 ≤ ast_height a
ast_height-pos (statements xs) = omega arith
ast_height-pos (if_block c t e) = omega arith
ast_height-pos (for_block k v i t e) = omega arith
ast_height-pos (raw_block t) = omega arith
ast_height-pos (print_block e) = omega arith
ast_height-pos (include_block n s m) = omega arith

list_height-append :
    (xs ys : AstList) → list_height (xs +++ ys) ≡ max (list_height xs) (list_height ys)
list_height-append Template.nil ys = omega arith
list_height-append (cons x xs) ys = omega (arith, list_height-append xs ys)

splice-Lower :
    (at_begin : Bool) (a : Ast) → Total (λ xs. list_height xs ≤ ast_height a) (splice at_begin a)
splice-Lower true (statements Template.nil) = breaks
splice-Lower true (statements (cons x xs)) = returns (omega arith)
splice-Lower false (statements xs) = returns (omega arith)
splice-Lower true (raw_block t) = returns (omega arith)
splice-Lower true (print_block e) = returns (omega arith)
splice-Lower true (if_block c t e) = returns (omega arith)
splice-Lower true (for_block k v i t e) = returns (omega arith)
splice-Lower true (include_block n s m) = returns (omega arith)
splice-Lower false (raw_block t) = returns (omega arith)
splice-Lower false (print_block e) = returns (omega arith)
splice-Lower false (if_block c t e) = returns (omega arith)
splice-Lower false (for_block k v i t e) = returns (omega arith)
splice-Lower false (include_block n s m) = returns (omega arith)

fold_single-Lower : (xs : AstList) → ast_height (fold_single xs) ≤ suc (list_height xs)
fold_single-Lower Template.nil = omega arith
fold_single-Lower (cons x Template.nil) = omega arith
fold_single-Lower (cons x (cons y xs)) = omega arith

module _ (P : Expression → Type 0) where
  module _ (f : ℕ) (rec : Ast → Outcome Ast)
      (rec_total : (a : Ast) → ast_height a ≤ f → All P P a → Total (LowerTree a) (rec a)) where
    walk_list-Lower :
        (at_begin : Bool) (xs : AstList)
        → list_height xs ≤ f
        → AllList P P xs
        → Total (λ ys. list_height ys ≤ list_height xs) (walk_list rec at_begin xs)
    unfolding walk_list
    walk_list-Lower at_begin Template.nil le h = returns (omega arith)
    walk_list-Lower at_begin (cons s rest) le h = Post-bind (rec_total s (omega arith) h.0) λ s' p.
        Post-bind (splice-Lower at_begin s') λ front q.
          Post-bind (walk_list-Lower false rest (omega arith) h.1)
            λ rest' t. returns (omega (arith, list_height-append front rest'))

    walk_body-Lower :
        (a : Body)
        → body_height a ≤ f
        → AllBody P P a
        → Total (λ a'. body_height a' ≤ body_height a) (walk_body rec a)
    walk_body-Lower no_body le h = returns (omega arith)
    walk_body-Lower (body a) le h = Post-bind (rec_total a le h) λ a' p. returns p

    walk_tree-Lower :
        (a : Ast) → ast_height a ≤ suc f → All P P a → Total (LowerTree a) (walk_tree rec a)
    unfolding walk_tree
    walk_tree-Lower (statements xs) le h =
        Post-bind (walk_list-Lower true xs (omega arith) h)
          λ ys p. returns (omega (arith, fold_single-Lower ys))
    walk_tree-Lower (if_block c t e) le h =
        Post-bind (walk_body-Lower t (omega arith) h.1)
          λ t' p. Post-bind (walk_body-Lower e (omega arith) h.2) λ e' q. returns (omega arith)
    walk_tree-Lower (for_block k v i t e) le h =
        Post-bind (walk_body-Lower t (omega arith) h.1)
          λ t' p. Post-bind (walk_body-Lower e (omega arith) h.2) λ e' q. returns (omega arith)
    walk_tree-Lower (raw_block t) le h = returns (omega arith)
    walk_tree-Lower (print_block e) le h = returns (omega arith)
    walk_tree-Lower (include_block n s m) le h = returns (omega arith)

  -- `process_node` returns a node that is no higher, and of the same type if it has bodies.
  abbrev Similar : Ast → Ast → Type 0
  Similar a n =
      LowerTree a n
      × ((is_leaf_ast a ≡ true) ⊎ (is_same_ast_type (ast_type n) (ast_type a) ≡ true))
      × All P P n

  abbrev pub Ends : AstPass → Type 0
  Ends p =
      (rec : Ast → Outcome Ast) (a : Ast) → All P P a → Total (Similar a) (p.process_node rec a)

  visit_ast-Lower :
      (p : AstPass)
      → Ends p
      → (f : ℕ) (rec : Ast → Outcome Ast)
      → ((a : Ast) → ast_height a ≤ f → All P P a → Total (LowerTree a) (rec a))
      → (a : Ast) → ast_height a ≤ suc f
      → All P P a
      → Total (LowerTree a) (visit_ast p rec a)
  unfolding visit_ast
  visit_ast-Lower p ends f rec rec_total a le h = Post-bind (ends rec a h) λ n q.
      Post-if (is_leaf_ast a) (λ _. returns q.0)
        (λ inner.
          Post-if _
            (λ _.
              Post-weaken (walk_tree-Lower f rec rec_total n (omega arith) q.2) λ m t. omega arith)
            (λ other. absurd (clash n inner other q.1)))
    where
      clash :
          (n : Ast)
          → is_leaf_ast a ≡ false
          → is_same_ast_type (ast_type n) (ast_type a) ≡ false
          → (is_leaf_ast a ≡ true) ⊎ (is_same_ast_type (ast_type n) (ast_type a) ≡ true)
          → ⊥
      clash n inner other (inl e) = cc
      clash n inner other (inr e) = cc

  pub process_ast-Lower :
      (p : AstPass)
      → Ends p
      → (f : ℕ) (a : Ast) → ast_height a ≤ f
      → All P P a
      → Total (LowerTree a) (process_ast p f a)
  unfolding process_ast
  process_ast-Lower p ends zero a le h = absurd (omega (arith, ast_height-pos a))
  process_ast-Lower p ends (suc f) a le h =
      visit_ast-Lower p ends f (process_ast p f) (process_ast-Lower p ends f) a le h
