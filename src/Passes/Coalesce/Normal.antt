-- ===== src/Passes/Coalesce/Normal.antt =====
-- The shape that the walk and the coalescing pass leave.
use b.Base.{ℕ, zero, suc, ◌≡◌, refl, Bool, true, false, ◌&&◌, Outcome, ok, arith}
use b.Base.Post.{Partial, Post-bind, returns, stops, Post-ok}
use b.Ast.Template
use b.Ast.Template.{
  Ast, AstList, Body, statements, raw_block, print_block, if_block, for_block, include_block, cons,
  no_body, body, size, ◌+++◌,
}
use b.Ast.Shape.{is_raw, is_item, IsFlat, FlatList, FlatBody, IsNormal, NormalList, NormalBody}
use b.Passes.Tree.{process_ast, splice, walk_list, walk_body, visit_ast, fold_single}
use b.Passes.Coalesce.{coalesce, coalesce_node, coalesce_raw_blocks_pass}

-- No raw block follows another in this one list.
abbrev Apart : Bool → AstList → Type 0
Apart after_raw Template.nil = Unit
Apart after_raw (cons s rest) = ((after_raw && is_raw s) ≡ false) × Apart (is_raw s) rest

coalesce-Apart : (erasing : Bool) (xs : AstList) → Apart erasing (coalesce erasing xs)
unfolding coalesce
coalesce-Apart true Template.nil = tt
coalesce-Apart false Template.nil = tt
coalesce-Apart true (cons (raw_block t) rest) = coalesce-Apart true rest
coalesce-Apart false (cons (raw_block t) rest) = (refl, coalesce-Apart true rest)
coalesce-Apart true (cons _ rest) = (refl, coalesce-Apart false rest)
coalesce-Apart false (cons _ rest) = (refl, coalesce-Apart false rest)

coalesce-FlatList : (erasing : Bool) (xs : AstList) → FlatList xs → FlatList (coalesce erasing xs)
unfolding coalesce
coalesce-FlatList true Template.nil h = tt
coalesce-FlatList false Template.nil h = tt
coalesce-FlatList true (cons (raw_block t) rest) h = coalesce-FlatList true rest h.2
coalesce-FlatList false (cons (raw_block t) rest) h = (refl, tt, coalesce-FlatList true rest h.2)
coalesce-FlatList true (cons _ rest) h = (h.0, h.1, coalesce-FlatList false rest h.2)
coalesce-FlatList false (cons _ rest) h = (h.0, h.1, coalesce-FlatList false rest h.2)

fold_single-IsNormal : (xs : AstList) → NormalList false xs → IsNormal (fold_single xs)
fold_single-IsNormal Template.nil h = (omega arith, tt)
fold_single-IsNormal (cons s Template.nil) h = h.2
fold_single-IsNormal (cons s (cons t rest)) h = (omega arith, h)

-- What the pass makes of `a`: an item stays an item, a raw block or none.
abbrev Normalised : Ast → Ast → Type 0
Normalised a a' = IsNormal a' × (is_item a ≡ true → (is_item a' ≡ true) × (is_raw a' ≡ is_raw a))

splice_item :
    (at_begin : Bool) (s : Ast) → is_item s ≡ true → splice at_begin s ≡ ok (cons s Template.nil)
splice_item true (raw_block _) h = refl
splice_item false (raw_block _) h = refl
splice_item true (statements _) h = cc
splice_item false (statements _) h = cc
splice_item true _ h = refl
splice_item false _ h = refl

module _ (rec : Ast → Outcome Ast)
    (rec_normal : (a : Ast) → IsFlat a → Partial (Normalised a) (rec a)) where
  walk_list-NormalList :
      (at_begin after_raw : Bool) (xs : AstList)
      → FlatList xs
      → Apart after_raw xs
      → Partial (NormalList after_raw) (walk_list rec at_begin xs)
  unfolding walk_list
  walk_list-NormalList at_begin after_raw Template.nil flat apart = returns tt
  walk_list-NormalList at_begin after_raw (cons s rest) flat apart =
      Post-bind (rec_normal s flat.1) λ s' n.
        let (item, raw) = n.1 flat.0 in
        rw (splice_item at_begin s' item) (
          Post-bind (walk_list-NormalList false (is_raw s) rest flat.2 apart.1)
            λ rest' m. returns (item, rw raw apart.0, n.0, rw raw m))

  walk_body-NormalBody : (a : Body) → FlatBody a → Partial NormalBody (walk_body rec a)
  walk_body-NormalBody no_body flat = returns tt
  walk_body-NormalBody (body a) flat = Post-bind (rec_normal a flat) λ a' n. returns n.0

  visit-Normalised :
      (a : Ast) → IsFlat a → Partial (Normalised a) (visit_ast coalesce_raw_blocks_pass rec a)
  unfolding visit_ast coalesce_node
  visit-Normalised (statements xs) flat =
      Post-bind
        (walk_list-NormalList true false (coalesce false xs) (coalesce-FlatList false xs flat)
          (coalesce-Apart false xs))
        λ ys n. returns (fold_single-IsNormal ys n, λ h. cc)
  visit-Normalised (if_block c t e) flat =
      Post-bind (walk_body-NormalBody t flat.0) λ t' m.
        Post-bind (walk_body-NormalBody e flat.1) λ e' n. returns ((m, n), λ h. (refl, refl))
  visit-Normalised (for_block k v i t e) flat =
      Post-bind (walk_body-NormalBody t flat.0) λ t' m.
        Post-bind (walk_body-NormalBody e flat.1) λ e' n. returns ((m, n), λ h. (refl, refl))
  visit-Normalised (raw_block t) flat = returns (tt, λ h. (refl, refl))
  visit-Normalised (print_block e) flat = returns (tt, λ h. (refl, refl))
  visit-Normalised (include_block n s m) flat = returns (tt, λ h. (refl, refl))

pub process-Normalised :
    (f : ℕ) (a : Ast) → IsFlat a → Partial (Normalised a) (process_ast coalesce_raw_blocks_pass f a)
unfolding process_ast
process-Normalised zero a flat = stops tt
process-Normalised (suc f) a flat =
    visit-Normalised (process_ast coalesce_raw_blocks_pass f) (process-Normalised f) a flat

-- On a template in which no list of statements stands directly in another, the coalescing pass
-- returns one in which, besides, no list has exactly one statement and no raw block follows another.
pub coalesce_pass-IsNormal :
    (f : ℕ) (a a' : Ast) → IsFlat a → process_ast coalesce_raw_blocks_pass f a ≡ ok a' → IsNormal a'
coalesce_pass-IsNormal f a a' flat p = (Post-ok (process-Normalised f a flat) p).0
