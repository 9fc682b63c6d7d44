-- ===== src/Passes/Includes/Resolved.antt =====
-- What the include pass returns has no include left in it.
use b.Base.{
  ℕ, zero, suc, ◌≡◌, refl, Bool, true, false, Str, [], ◌∷◌, Option, none, some, Outcome, ok,
  if◌then◌else◌,
}
use b.Base.Post.{Partial, Partial-any, Post-bind, Post-if, Post-ok, returns, throws, breaks, stops}
use b.Ast.Expression.{Expression}
use b.Ast.Template
use b.Ast.Template.{
  Ast, AstList, Body, Mapping, statements, raw_block, print_block, if_block, for_block,
  include_block, cons, no_body, body, ◌+++◌, ast_type, is_same_ast_type,
}
use b.Passes.Walk.{ExpressionPass, process}
use b.Passes.Tree.{
  AstPass, process_ast, splice, walk_list, walk_body, walk_tree, walk_statement, visit_ast,
  fold_single, is_leaf_ast,
}
use b.Passes.Manager.{wrap_node, expression_pass_wrapper, run}
use b.Passes.Includes.{resolve_includes_pass, resolve_node, resolve_path, substitute, release_twice}

-- `P` holds if there is an include in the template: with `⊥` for it, there is none.
abbrev mutual
  Free : Type 0 → Ast → Type 0
  Free P (statements xs) = FreeList P xs
  Free P (if_block _ t e) = FreeBody P t × FreeBody P e
  Free P (for_block _ _ _ t e) = FreeBody P t × FreeBody P e
  Free P (include_block _ _ _) = P
  Free P _ = Unit

  pub FreeList : Type 0 → AstList → Type 0
  FreeList P Template.nil = Unit
  FreeList P (cons s rest) = Free P s × FreeList P rest

  FreeBody : Type 0 → Body → Type 0
  FreeBody P no_body = Unit
  FreeBody P (body a) = Free P a

mutual
  pub any-Free : (a : Ast) → Free Unit a
  any-Free (statements xs) = any-FreeList xs
  any-Free (if_block c t e) = (any-FreeBody t, any-FreeBody e)
  any-Free (for_block k v i t e) = (any-FreeBody t, any-FreeBody e)
  any-Free _ = tt

  any-FreeList : (xs : AstList) → FreeList Unit xs
  any-FreeList Template.nil = tt
  any-FreeList (cons s rest) = (any-Free s, any-FreeList rest)

  any-FreeBody : (a : Body) → FreeBody Unit a
  any-FreeBody no_body = tt
  any-FreeBody (body a) = any-Free a

abbrev pub HasNoIncludes : Ast → Type 0
HasNoIncludes a = Free ⊥ a

FreeList-append : (xs ys : AstList) → FreeList ⊥ xs → FreeList ⊥ ys → FreeList ⊥ (xs +++ ys)
FreeList-append Template.nil ys hx hy = hy
FreeList-append (cons x xs) ys hx hy = (hx.0, FreeList-append xs ys hx.1 hy)

splice-Free :
    (at_begin : Bool) (a : Ast) → HasNoIncludes a → Partial (FreeList ⊥) (splice at_begin a)
splice-Free true (statements Template.nil) h = breaks
splice-Free true (statements (cons x xs)) h = returns h
splice-Free false (statements xs) h = returns h
splice-Free true _ h = returns (h, tt)
splice-Free false _ h = returns (h, tt)

fold_single-Free : (xs : AstList) → FreeList ⊥ xs → HasNoIncludes (fold_single xs)
fold_single-Free Template.nil h = tt
fold_single-Free (cons x Template.nil) h = h.0
fold_single-Free (cons x (cons y xs)) h = h

module _ (P : Type 0) where
  module _ (rec : Ast → Outcome Ast)
      (rec_free : (a : Ast) → Free P a → Partial HasNoIncludes (rec a)) where
    walk_list-Free :
        (at_begin : Bool) (xs : AstList)
        → FreeList P xs
        → Partial (FreeList ⊥) (walk_list rec at_begin xs)
    unfolding walk_list
    walk_list-Free at_begin Template.nil h = returns tt
    walk_list-Free at_begin (cons s rest) h = Post-bind (rec_free s h.0) λ s' hs.
        Post-bind (splice-Free at_begin s' hs) λ front hf.
          Post-bind (walk_list-Free false rest h.1)
            λ rest' hr. returns (FreeList-append front rest' hf hr)

    walk_body-Free : (a : Body) → FreeBody P a → Partial (FreeBody ⊥) (walk_body rec a)
    walk_body-Free no_body h = returns tt
    walk_body-Free (body a) h = Post-bind (rec_free a h) λ a' h'. returns h'

    walk_tree-Free :
        (a : Ast) → is_leaf_ast a ≡ false → Free P a → Partial HasNoIncludes (walk_tree rec a)
    unfolding walk_tree
    walk_tree-Free (statements xs) inner h =
        Post-bind (walk_list-Free true xs h) λ ys hy. returns (fold_single-Free ys hy)
    walk_tree-Free (if_block c t e) inner h =
        Post-bind (walk_body-Free t h.0)
          λ t' ht. Post-bind (walk_body-Free e h.1) λ e' he. returns (ht, he)
    walk_tree-Free (for_block k v i t e) inner h =
        Post-bind (walk_body-Free t h.0)
          λ t' ht. Post-bind (walk_body-Free e h.1) λ e' he. returns (ht, he)
    walk_tree-Free (raw_block t) inner h = cc
    walk_tree-Free (print_block e) inner h = cc
    walk_tree-Free (include_block n s m) inner h = cc

  -- What `process_node` leaves to do: nothing of a node without bodies.
  abbrev Cleared : Bool → Ast → Type 0
  Cleared true n = HasNoIncludes n
  Cleared false n = (is_leaf_ast n ≡ false) × Free P n

  abbrev pub Clears : AstPass → Type 0
  Clears p =
      (rec : Ast → Outcome Ast)
      → ((a : Ast) → Free P a → Partial HasNoIncludes (rec a))
      → (a : Ast) → Free P a
      → Partial (Cleared (is_leaf_ast a)) (p.process_node rec a)

  visit_ast-Free :
      (p : AstPass)
      → Clears p
      → (rec : Ast → Outcome Ast) → ((a : Ast) → Free P a → Partial HasNoIncludes (rec a))
      → (a : Ast) → Free P a
      → Partial HasNoIncludes (visit_ast p rec a)
  unfolding visit_ast
  visit_ast-Free p clears rec rec_free a h =
      Post-bind (clears rec rec_free a h) (go (is_leaf_ast a))
    where
      go :
          (leaf : Bool) (n : Ast)
          → Cleared leaf n
          → Partial HasNoIncludes (if leaf then ok n else walk_statement rec (ast_type a) n)
      go true n c = returns c
      go false n c = Post-if _ (λ _. walk_tree-Free rec rec_free n c.0 c.1) (λ _. rec_free n c.1)

  pub process_ast-Free :
      (p : AstPass)
      → Clears p
      → (f : ℕ) (a : Ast) → Free P a
      → Partial HasNoIncludes (process_ast p f a)
  unfolding process_ast
  process_ast-Free p clears zero a h = stops tt
  process_ast-Free p clears (suc f) a h =
      visit_ast-Free p clears (process_ast p f) (process_ast-Free p clears f) a h

-- A pass over the expressions adds no include.
pub wrapper-Clears : (p : ExpressionPass) (f : ℕ) → Clears ⊥ (expression_pass_wrapper p f)
unfolding wrap_node
wrapper-Clears p f rec rec_free (statements xs) h = returns (refl, h)
wrapper-Clears p f rec rec_free (raw_block t) h = returns tt
wrapper-Clears p f rec rec_free (print_block e) h =
    Post-bind (Partial-any (process p f e)) λ e' _. returns tt
wrapper-Clears p f rec rec_free (if_block c t e) h =
    Post-bind (Partial-any (process p f c)) λ c' _. returns (refl, h)
wrapper-Clears p f rec rec_free (for_block k v i t e) h =
    Post-bind (Partial-any (process p f i)) λ i' _. returns (refl, h)
wrapper-Clears p f rec rec_free (include_block n s m) h = absurd h

run_one-Free :
    (p : ExpressionPass) (f : ℕ) (a : Ast)
    → HasNoIncludes a
    → Partial HasNoIncludes (run (expression_pass_wrapper p f ∷ []) f a)
unfolding run
run_one-Free p f a h =
    Post-bind (process_ast-Free ⊥ _ (wrapper-Clears p f) f a h) λ a' h'. returns h'

substitute-Free :
    (f : ℕ) (file : Str) (scope : Option Expression) (mapping : Mapping) (a : Ast)
    → HasNoIncludes a
    → Partial HasNoIncludes (substitute f file scope mapping a)
unfolding substitute
substitute-Free f file (some scope) mapping a h = run_one-Free _ f a h
substitute-Free f file none mapping a h = run_one-Free _ f a h

release_twice-Free :
    (before : Ast) (r : Outcome Ast)
    → Partial HasNoIncludes r
    → Partial HasNoIncludes (release_twice before r)
release_twice-Free before _ (returns h) = Post-if _ (λ _. returns h) (λ _. breaks)
release_twice-Free before _ throws = breaks
release_twice-Free before _ breaks = breaks
release_twice-Free before _ (stops h) = stops h

pub resolve-Clears :
    (parse : Str → Outcome Ast) (base : Str) (f : ℕ)
    → Clears Unit (resolve_includes_pass parse base f)
unfolding resolve_node
resolve-Clears parse base f rec rec_free (include_block name s m) h =
    Post-bind (Partial-any (parse (resolve_path base name))) λ a _.
      Post-bind (rec_free a (any-Free a))
        λ a' ha. release_twice-Free a' _ (substitute-Free f (resolve_path base name) s m a' ha)
resolve-Clears parse base f rec rec_free (statements xs) h = returns (refl, h)
resolve-Clears parse base f rec rec_free (raw_block t) h = returns tt
resolve-Clears parse base f rec rec_free (print_block e) h = returns tt
resolve-Clears parse base f rec rec_free (if_block c t e) h = returns (refl, h)
resolve-Clears parse base f rec rec_free (for_block k v i t e) h = returns (refl, h)

-- Where the include pass returns, no include is left in the template: neither of its own nor of a
-- file that was included, for every parser.
pub resolve-HasNoIncludes :
    (parse : Str → Outcome Ast) (base : Str) (g f : ℕ) (a a' : Ast)
    → process_ast (resolve_includes_pass parse base g) f a ≡ ok a'
    → HasNoIncludes a'
resolve-HasNoIncludes parse base g f a a' p =
    Post-ok (process_ast-Free Unit _ (resolve-Clears parse base g) f a (any-Free a)) p
