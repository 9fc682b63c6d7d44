-- ===== src/Passes/Includes/Meaning.antt =====
-- What the variables of an included file stand for: attributes of the scope, or the expressions
-- that the include maps them to.
use b.Base.{ℕ, zero, suc, ◌≡◌, refl, Str, Option, none, some, Bool, true, false, Outcome, ok, find}
use b.Base.Double.{DoubleOps}
use b.Base.Post.{Partial, Post-bind, Post-ok, returns, throws, breaks, stops}
use b.Ast.Expression.{
  Expression, ExpressionList, nil, null_argument, argument, variable_reference, get_attribute,
  method_call, double_literal, integer_literal, boolean_literal, string_literal, binary_operation,
  unary_operation, comparison,
}
use b.Ast.Template.{Mapping}
use b.Ast.Clone.{HasNoArguments, clone-same}
use b.Meaning.{Value, Host, eval, eval_arguments}
use b.Passes.Walk.{
  ExpressionPass, is_leaf, process, visit, walk_node, walk_children, walk_arguments,
}
use b.Passes.Includes.{
  replace_node, replace_variable_references_pass, prepend_node, prepend_scope_pass,
  clone_replacement,
}

abbrev is_variable : Expression → Bool
is_variable (variable_reference x) = true
is_variable _ = false

-- The host with other variables.
abbrev pub with_variables : Host → (Str → Option Value) → Host
with_variables h v = record h { variable = v }

-- The attributes of the scope as variables.
abbrev pub scope_variables : DoubleOps → Host → Expression → Str → Option Value
scope_variables d h scope x = eval d h (get_attribute scope x)

-- The values of the mapped expressions as variables.
abbrev value_of : DoubleOps → Host → Option Expression → Option Value
value_of d h none = none
value_of d h (some e) = eval d h e

abbrev pub mapped_variables : DoubleOps → Host → Mapping → Str → Option Value
mapped_variables d h mapping x = value_of d h (find x mapping)

module _ (d : DoubleOps) (h : Host) (v : Str → Option Value) where
  -- `e'` means with the variables of the host what `e` means with the others.
  abbrev Substituted : Expression → Expression → Type 0
  Substituted e e' = eval d h e' ≡ eval d (with_variables h v) e

  abbrev SubstitutedList : ExpressionList → ExpressionList → Type 0
  SubstitutedList xs ys = eval_arguments d h ys ≡ eval_arguments d (with_variables h v) xs

  module _ (rec : Expression → Outcome Expression)
      (rec_sub : (e : Expression) → Partial (Substituted e) (rec e)) where
    arguments-Substituted :
        (xs : ExpressionList) → Partial (SubstitutedList xs) (walk_arguments rec xs)
    unfolding walk_arguments eval
    arguments-Substituted nil = returns refl
    arguments-Substituted (null_argument xs) = breaks
    arguments-Substituted (argument x xs) =
        Post-bind (rec_sub x)
          λ x' p. Post-bind (arguments-Substituted xs) λ xs' q. returns (rw (p, q))

    children-Substituted :
        (e : Expression) → is_leaf e ≡ false → Partial (Substituted e) (walk_children rec e)
    unfolding walk_children eval
    children-Substituted (get_attribute e a) inner = Post-bind (rec_sub e) λ e' p. returns (rw p)
    children-Substituted (method_call m xs) inner =
        Post-bind (arguments-Substituted xs) λ xs' p. returns (rw p)
    children-Substituted (binary_operation l r op) inner =
        Post-bind (rec_sub l) λ l' p. Post-bind (rec_sub r) λ r' q. returns (rw (p, q))
    children-Substituted (unary_operation e op) inner = Post-bind (rec_sub e) λ e' p. returns (rw p)
    children-Substituted (comparison l r op) inner =
        Post-bind (rec_sub l) λ l' p. Post-bind (rec_sub r) λ r' q. returns (rw (p, q))
    children-Substituted (variable_reference x) inner = cc
    children-Substituted (double_literal x) inner = cc
    children-Substituted (integer_literal n) inner = cc
    children-Substituted (boolean_literal x) inner = cc
    children-Substituted (string_literal s) inner = cc

  -- The pass replaces variables by what they stand for, and leaves every other node.
  abbrev Substitutes : ExpressionPass → Type 0
  Substitutes p =
      (rec : Expression → Outcome Expression)
      → ((x : Str)
          → Partial (Substituted (variable_reference x))
              (p.process_node rec (variable_reference x)))
        × ((e : Expression) → is_variable e ≡ false → p.process_node rec e ≡ ok e)

  visit-Substituted :
      (p : ExpressionPass)
      → Substitutes p
      → (rec : Expression → Outcome Expression)
      → ((e : Expression) → Partial (Substituted e) (rec e))
      → (e : Expression) → Partial (Substituted e) (visit p rec e)
  unfolding visit walk_node eval
  visit-Substituted p sub rec rec_sub (variable_reference x) =
      Post-bind ((sub rec).0 x) λ e' q. returns q
  visit-Substituted p sub rec rec_sub (double_literal x) =
      rw ((sub rec).1 (double_literal x) refl) (returns refl)
  visit-Substituted p sub rec rec_sub (integer_literal n) =
      rw ((sub rec).1 (integer_literal n) refl) (returns refl)
  visit-Substituted p sub rec rec_sub (boolean_literal x) =
      rw ((sub rec).1 (boolean_literal x) refl) (returns refl)
  visit-Substituted p sub rec rec_sub (string_literal s) =
      rw ((sub rec).1 (string_literal s) refl) (returns refl)
  visit-Substituted p sub rec rec_sub (get_attribute e a) =
      rw ((sub rec).1 (get_attribute e a) refl)
        (children-Substituted rec rec_sub (get_attribute e a) refl)
  visit-Substituted p sub rec rec_sub (method_call m xs) =
      rw ((sub rec).1 (method_call m xs) refl)
        (children-Substituted rec rec_sub (method_call m xs) refl)
  visit-Substituted p sub rec rec_sub (binary_operation l r op) =
      rw ((sub rec).1 (binary_operation l r op) refl)
        (children-Substituted rec rec_sub (binary_operation l r op) refl)
  visit-Substituted p sub rec rec_sub (unary_operation e op) =
      rw ((sub rec).1 (unary_operation e op) refl)
        (children-Substituted rec rec_sub (unary_operation e op) refl)
  visit-Substituted p sub rec rec_sub (comparison l r op) =
      rw ((sub rec).1 (comparison l r op) refl)
        (children-Substituted rec rec_sub (comparison l r op) refl)

  process-Substituted :
      (p : ExpressionPass)
      → Substitutes p
      → (f : ℕ) (e : Expression) → Partial (Substituted e) (process p f e)
  unfolding process
  process-Substituted p sub zero e = stops tt
  process-Substituted p sub (suc f) e =
      visit-Substituted p sub (process p f) (process-Substituted p sub f) e

prepend-Substitutes :
    (d : DoubleOps) (h : Host) (scope : Expression)
    → HasNoArguments scope
    → Substitutes d h (scope_variables d h scope) (prepend_scope_pass scope)
unfolding prepend_node eval
prepend-Substitutes d h scope plain rec = (λ x. rw (clone-same scope plain) (returns refl), other)
  where
    other : (e : Expression) → is_variable e ≡ false → prepend_node scope rec e ≡ ok e
    other (variable_reference x) q = cc
    other (get_attribute e a) q = refl
    other (method_call m xs) q = refl
    other (double_literal x) q = refl
    other (integer_literal n) q = refl
    other (boolean_literal x) q = refl
    other (string_literal s) q = refl
    other (binary_operation l r op) q = refl
    other (unary_operation e op) q = refl
    other (comparison l r op) q = refl

-- What the pass for an include with a scope returns has the value that the expression of the
-- included file has where a variable is the attribute of that name of the scope: for every host,
-- if no call in the scope has an argument.
pub eval-prepend_scope :
    (d : DoubleOps) (h : Host) (scope : Expression) (f : ℕ) (e e' : Expression)
    → HasNoArguments scope
    → process (prepend_scope_pass scope) f e ≡ ok e'
    → eval d h e' ≡ eval d (with_variables h (scope_variables d h scope)) e
eval-prepend_scope d h scope f e e' plain p =
    Post-ok
      (process-Substituted d h (scope_variables d h scope) _ (prepend-Substitutes d h scope plain) f
        e)
      p

-- No call in a mapped expression has an argument.
abbrev pub PlainMapping : Mapping → Type 0
PlainMapping mapping = (x : Str) (g : Expression) → find x mapping ≡ some g → HasNoArguments g

replace-Substitutes :
    (d : DoubleOps) (h : Host) (file : Str) (mapping : Mapping)
    → PlainMapping mapping
    → Substitutes d h (mapped_variables d h mapping) (replace_variable_references_pass file mapping)
unfolding replace_node eval
replace-Substitutes d h file mapping plain rec = (λ x. variable x (find x mapping) refl, other)
  where
    variable :
        (x : Str) (found : Option Expression)
        → find x mapping ≡ found
        → Partial
            (λ e'. eval d h e' ≡ value_of d h (find x mapping))
            (clone_replacement file x (find x mapping))
    variable x none q = rw q throws
    variable x (some g) q = rw (q, clone-same g (plain x g q)) (returns refl)

    other : (e : Expression) → is_variable e ≡ false → replace_node file mapping rec e ≡ ok e
    other (variable_reference x) q = cc
    other (get_attribute e a) q = refl
    other (method_call m xs) q = refl
    other (double_literal x) q = refl
    other (integer_literal n) q = refl
    other (boolean_literal x) q = refl
    other (string_literal s) q = refl
    other (binary_operation l r op) q = refl
    other (unary_operation e op) q = refl
    other (comparison l r op) q = refl

-- What the pass for an include with mapped variables returns has the value that the expression of
-- the included file has where a variable is the value of the expression it is mapped to: for every
-- host, if no call in a mapped expression has an argument.
pub eval-replace_variable_references :
    (d : DoubleOps) (h : Host) (file : Str) (mapping : Mapping) (f : ℕ) (e e' : Expression)
    → PlainMapping mapping
    → process (replace_variable_references_pass file mapping) f e ≡ ok e'
    → eval d h e' ≡ eval d (with_variables h (mapped_variables d h mapping)) e
eval-replace_variable_references d h file mapping f e e' plain p =
    Post-ok
      (process-Substituted d h (mapped_variables d h mapping) _
        (replace-Substitutes d h file mapping plain) f e)
      p
