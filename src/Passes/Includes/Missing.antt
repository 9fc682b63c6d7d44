-- ===== src/Passes/Includes/Missing.antt =====
-- What the include pass does with a variable that an include does not map.
use b.Base.{
  ℕ, zero, suc, ◌≡◌, ◌≢◌, ◌⊎◌, inl, inr, refl, Str, none, some, Outcome, ok, throw, undefined,
  out_of_fuel, ◌>>=◌, find,
}
use b.Base.Post.{Partial-any, Post-bind, Post-ok, throws, breaks, stops}
use b.Ast.Expression.{
  Expression, ExpressionList, nil, null_argument, argument, variable_reference, get_attribute,
  method_call, double_literal, integer_literal, boolean_literal, string_literal, binary_operation,
  unary_operation, comparison,
}
use b.Ast.Template.{
  Ast, Mapping, statements, raw_block, print_block, if_block, for_block, include_block,
}
use b.Passes.Walk.{ExpressionPass, process, visit, walk_arguments}
use b.Passes.Tree.{process_ast, visit_ast, walk_tree, walk_statement}
use b.Passes.Manager.{run, wrap_node, expression_pass_wrapper}
use b.Passes.Includes.{
  resolve_includes_pass, resolve_path, resolve_node, substitute, replace_node,
  replace_variable_references_pass, release_twice,
}
use b.Passes.Includes.Endless.{Fails, Fails-bind, Somewhere, bodies-Fails, walk_tree-Fails}

-- Where the visit of what a node becomes fails, that of the node does.
node-Fails :
    (r : Outcome Expression) (make : Expression → Ast) (k : Ast → Outcome Ast)
    → ((e : Expression) → Fails (k (make e)))
    → Fails ((r >>= λ e. ok (make e)) >>= k)
node-Fails (ok e) make k h = h e
node-Fails (throw e) make k h = throws
node-Fails undefined make k h = breaks
node-Fails out_of_fuel make k h = stops tt

-- The variable is read somewhere in the expression.
abbrev mutual
  pub Reads : Str → Expression → Type 0
  Reads x (variable_reference y) = y ≡ x
  Reads x (get_attribute e _) = Reads x e
  Reads x (method_call _ xs) = SomeReads x xs
  Reads x (binary_operation l r _) = Reads x l ⊎ Reads x r
  Reads x (unary_operation e _) = Reads x e
  Reads x (comparison l r _) = Reads x l ⊎ Reads x r
  Reads x _ = ⊥

  SomeReads : Str → ExpressionList → Type 0
  SomeReads x nil = ⊥
  SomeReads x (null_argument xs) = SomeReads x xs
  SomeReads x (argument e xs) = Reads x e ⊎ SomeReads x xs

-- A statement reads the variable, apart from its bodies.
abbrev pub ReadsAt : Str → Ast → Type 0
ReadsAt x (print_block e) = Reads x e
ReadsAt x (if_block c _ _) = Reads x c
ReadsAt x (for_block _ _ i _ _) = Reads x i
ReadsAt x (include_block _ (some e) _) = Reads x e
ReadsAt x _ = ⊥

module _ (file x : Str) (mapping : Mapping) (missing : find x mapping ≡ none) where
  abbrev replacing : ExpressionPass
  replacing = replace_variable_references_pass file mapping

  arguments-Fails :
      (rec : Expression → Outcome Expression)
      → ((e : Expression) → Reads x e → Fails (rec e))
      → (xs : ExpressionList) → SomeReads x xs
      → Fails (walk_arguments rec xs)
  unfolding walk_arguments
  arguments-Fails rec rec_fails nil h = absurd h
  arguments-Fails rec rec_fails (null_argument xs) h = breaks
  arguments-Fails rec rec_fails (argument e xs) (inl h) = Fails-bind (rec_fails e h) _
  arguments-Fails rec rec_fails (argument e xs) (inr h) =
      Post-bind (Partial-any (rec e)) λ e' _. Fails-bind (arguments-Fails rec rec_fails xs h) _

  pair-Fails :
      (rec : Expression → Outcome Expression)
      → ((e : Expression) → Reads x e → Fails (rec e))
      → (l r : Expression) (make : Expression → Expression → Expression) → Reads x l ⊎ Reads x r
      → Fails (rec l >>= λ l'. rec r >>= λ r'. ok (make l' r'))
  pair-Fails rec rec_fails l r make (inl h) = Fails-bind (rec_fails l h) _
  pair-Fails rec rec_fails l r make (inr h) =
      Post-bind (Partial-any (rec l)) λ l' _. Fails-bind (rec_fails r h) _

  replace_visit-Fails :
      (rec : Expression → Outcome Expression)
      → ((e : Expression) → Reads x e → Fails (rec e))
      → (e : Expression) → Reads x e
      → Fails (visit replacing rec e)
  unfolding visit replace_node b.Passes.Walk.walk_node b.Passes.Walk.walk_children
  replace_visit-Fails rec rec_fails (variable_reference y) h = rw (h, missing) throws
  replace_visit-Fails rec rec_fails (get_attribute e a) h = Fails-bind (rec_fails e h) _
  replace_visit-Fails rec rec_fails (method_call m xs) h =
      Fails-bind (arguments-Fails rec rec_fails xs h) _
  replace_visit-Fails rec rec_fails (binary_operation l r op) h =
      pair-Fails rec rec_fails l r (λ l' r'. binary_operation l' r' op) h
  replace_visit-Fails rec rec_fails (unary_operation e op) h = Fails-bind (rec_fails e h) _
  replace_visit-Fails rec rec_fails (comparison l r op) h =
      pair-Fails rec rec_fails l r (λ l' r'. comparison l' r' op) h
  replace_visit-Fails rec rec_fails (double_literal v) h = absurd h
  replace_visit-Fails rec rec_fails (integer_literal v) h = absurd h
  replace_visit-Fails rec rec_fails (boolean_literal v) h = absurd h
  replace_visit-Fails rec rec_fails (string_literal v) h = absurd h

  replace-Fails : (f : ℕ) (e : Expression) → Reads x e → Fails (process replacing f e)
  unfolding process
  replace-Fails zero e h = stops tt
  replace-Fails (suc f) e h = replace_visit-Fails (process replacing f) (replace-Fails f) e h

  wrapped_visit-Fails :
      (g : ℕ) (rec : Ast → Outcome Ast)
      → ((a : Ast) → Somewhere (ReadsAt x) a → Fails (rec a))
      → (a : Ast) → Somewhere (ReadsAt x) a
      → Fails (visit_ast (expression_pass_wrapper replacing g) rec a)
  unfolding visit_ast wrap_node walk_statement walk_tree
  wrapped_visit-Fails g rec rec_fails (statements xs) h =
      walk_tree-Fails (ReadsAt x) rec rec_fails xs h
  wrapped_visit-Fails g rec rec_fails (raw_block t) h = absurd h
  wrapped_visit-Fails g rec rec_fails (print_block e) h =
      Fails-bind (Fails-bind (replace-Fails g e h) _) _
  wrapped_visit-Fails g rec rec_fails (if_block c t e) (inl h) =
      Fails-bind (Fails-bind (replace-Fails g c h) _) _
  wrapped_visit-Fails g rec rec_fails (if_block c t e) (inr h) =
      node-Fails (process replacing g c) (λ c'. if_block c' t e) _
        λ c'. bodies-Fails (ReadsAt x) rec rec_fails t e (if_block c') h
  wrapped_visit-Fails g rec rec_fails (for_block k v i t e) (inl h) =
      Fails-bind (Fails-bind (replace-Fails g i h) _) _
  wrapped_visit-Fails g rec rec_fails (for_block k v i t e) (inr h) =
      node-Fails (process replacing g i) (λ i'. for_block k v i' t e) _
        λ i'. bodies-Fails (ReadsAt x) rec rec_fails t e (for_block k v i') h
  wrapped_visit-Fails g rec rec_fails (include_block n none m) h = absurd h
  wrapped_visit-Fails g rec rec_fails (include_block n (some e) m) h =
      Fails-bind (Fails-bind (Fails-bind (replace-Fails g e h) _) _) _

  wrapped-Fails :
      (g f : ℕ) (a : Ast)
      → Somewhere (ReadsAt x) a
      → Fails (process_ast (expression_pass_wrapper replacing g) f a)
  unfolding process_ast
  wrapped-Fails g zero a h = stops tt
  wrapped-Fails g (suc f) a h =
      wrapped_visit-Fails g (process_ast (expression_pass_wrapper replacing g) f)
        (wrapped-Fails g f) a h

  substitute-Fails :
      (g : ℕ) (a : Ast) → Somewhere (ReadsAt x) a → Fails (substitute g file none mapping a)
  unfolding substitute run
  substitute-Fails g a h = Fails-bind (wrapped-Fails g g a h) _

released : (a : Ast) (r : Outcome Ast) → Fails r → r ≢ out_of_fuel → release_twice a r ≡ undefined
released a (ok x) h ne = absurd (Post-ok h refl)
released a (throw e) h ne = refl
released a undefined h ne = refl
released a out_of_fuel h ne = absurd (ne refl)

-- An include without a scope of a file that reads, anywhere in its statements, a variable which the
-- include does not map has no defined behaviour: the exception for the missing variable leaves the
-- pass manager, and the tree of the file is deleted twice. The includes of the file itself are taken
-- to be resolved, and the fuel to last for the replacement.
pub resolve-missing_variable-undefined :
    (parse : Str → Outcome Ast) (base name x : Str) (g f : ℕ) (mapping : Mapping) (file a : Ast)
    → parse (resolve_path base name) ≡ ok file
    → process_ast (resolve_includes_pass parse base g) f file ≡ ok a
    → Somewhere (ReadsAt x) a
    → find x mapping ≡ none
    → substitute g (resolve_path base name) none mapping a ≢ out_of_fuel
    → process_ast (resolve_includes_pass parse base g) (suc f) (include_block name none mapping)
      ≡ undefined
unfolding process_ast visit_ast resolve_node
resolve-missing_variable-undefined parse base name x g f mapping file a p q h missing lasts =
    rw
      (
        p,
        q,
        released a (substitute g (resolve_path base name) none mapping a)
            (substitute-Fails (resolve_path base name) x mapping missing g a h) lasts,
      )
      refl
