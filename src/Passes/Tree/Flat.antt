-- ===== src/Passes/Tree/Flat.antt =====
-- Whatever the pass, the walk leaves no list of statements directly in another, if what
-- `process_node` makes of the nodes with no statements in them has none.
use b.Base.{ℕ, zero, suc, ◌≡◌, refl, Bool, true, false, Bool-cases, inl, inr, Outcome}
use b.Base.Post.{Partial, Partial-any, Post-bind, Post-if, returns, breaks, stops}
use b.Ast.Template
use b.Ast.Template.{
  Ast, AstList, Body, statements, raw_block, print_block, if_block, for_block, include_block, cons,
  no_body, body, ◌+++◌,
}
use b.Ast.Shape.{IsFlat, FlatList, FlatBody}
use b.Passes.Tree.{
  AstPass, process_ast, splice, walk_list, walk_body, walk_tree, visit_ast, fold_single,
  is_leaf_ast,
}

FlatList-append : (xs ys : AstList) → FlatList xs → FlatList ys → FlatList (xs +++ ys)
FlatList-append Template.nil ys hx hy = hy
FlatList-append (cons x xs) ys hx hy = (hx.0, hx.1, FlatList-append xs ys hx.2 hy)

splice-FlatList : (at_begin : Bool) (a : Ast) → IsFlat a → Partial FlatList (splice at_begin a)
splice-FlatList true (statements Template.nil) h = breaks
splice-FlatList true (statements (cons x xs)) h = returns h
splice-FlatList false (statements xs) h = returns h
splice-FlatList true _ h = returns (refl, h, tt)
splice-FlatList false _ h = returns (refl, h, tt)

fold_single-IsFlat : (xs : AstList) → FlatList xs → IsFlat (fold_single xs)
fold_single-IsFlat Template.nil h = tt
fold_single-IsFlat (cons x Template.nil) h = h.1
fold_single-IsFlat (cons x (cons y xs)) h = h

module _ (rec : Ast → Outcome Ast) (rec_flat : (a : Ast) → Partial IsFlat (rec a)) where
  walk_list-FlatList :
      (at_begin : Bool) (xs : AstList) → Partial FlatList (walk_list rec at_begin xs)
  unfolding walk_list
  walk_list-FlatList at_begin Template.nil = returns tt
  walk_list-FlatList at_begin (cons s rest) = Post-bind (rec_flat s) λ s' h.
      Post-bind (splice-FlatList at_begin s' h) λ front hf.
        Post-bind (walk_list-FlatList false rest)
          λ rest' hr. returns (FlatList-append front rest' hf hr)

  walk_body-FlatBody : (a : Body) → Partial FlatBody (walk_body rec a)
  walk_body-FlatBody no_body = returns tt
  walk_body-FlatBody (body a) = Post-bind (rec_flat a) λ a' h. returns h

  walk_tree-IsFlat : (a : Ast) → Partial IsFlat (walk_tree rec a)
  unfolding walk_tree
  walk_tree-IsFlat (statements xs) =
      Post-bind (walk_list-FlatList true xs) λ ys h. returns (fold_single-IsFlat ys h)
  walk_tree-IsFlat (if_block c t e) =
      Post-bind (walk_body-FlatBody t)
        λ t' ht. Post-bind (walk_body-FlatBody e) λ e' he. returns (ht, he)
  walk_tree-IsFlat (for_block k v i t e) =
      Post-bind (walk_body-FlatBody t)
        λ t' ht. Post-bind (walk_body-FlatBody e) λ e' he. returns (ht, he)
  walk_tree-IsFlat (raw_block t) = returns tt
  walk_tree-IsFlat (print_block e) = returns tt
  walk_tree-IsFlat (include_block n s m) = returns tt

-- What `process_node` makes of a raw block, a print block or an include is flat.
abbrev pub FlatLeaves : AstPass → Type 0
FlatLeaves p =
    (rec : Ast → Outcome Ast)
    → ((a : Ast) → Partial IsFlat (rec a))
    → (a : Ast) → is_leaf_ast a ≡ true
    → Partial IsFlat (p.process_node rec a)

visit_ast-IsFlat :
    (p : AstPass)
    → FlatLeaves p
    → (rec : Ast → Outcome Ast) → ((a : Ast) → Partial IsFlat (rec a))
    → (a : Ast) → Partial IsFlat (visit_ast p rec a)
unfolding visit_ast
visit_ast-IsFlat p leaves rec rec_flat a = elim (Bool-cases (is_leaf_ast a)) [
  | inl leaf ↦ Post-bind (leaves rec rec_flat a leaf) λ n h. rw leaf (returns h)
  | inr inner ↦
      Post-bind (Partial-any (p.process_node rec a))
        λ n _. rw inner (Post-if _ (λ _. walk_tree-IsFlat rec rec_flat n) (λ _. rec_flat n))
]

pub process_ast-IsFlat :
    (p : AstPass) → FlatLeaves p → (f : ℕ) (a : Ast) → Partial IsFlat (process_ast p f a)
unfolding process_ast
process_ast-IsFlat p leaves zero a = stops tt
process_ast-IsFlat p leaves (suc f) a =
    visit_ast-IsFlat p leaves (process_ast p f) (process_ast-IsFlat p leaves f) a
