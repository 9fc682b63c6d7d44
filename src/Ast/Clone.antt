-- ===== src/Ast/Clone.antt =====
-- lib/ast/expressions.hpp: what `clone` gives. A copied call holds as many null pointers as it has
-- arguments, before the copies of these.
use b.Base.{ℕ, zero, suc, ◌≡◌, refl, sym, ap, subst, ◌∙◌, ◌↔◌, ok, bind_returned}
use b.Ast.Expression.{
  Expression, ExpressionList, nil, null_argument, argument, variable_reference, get_attribute,
  method_call, double_literal, integer_literal, boolean_literal, string_literal, binary_operation,
  unary_operation, comparison, null_arguments, clone, clone_arguments, clone_expression_list,
}

-- No call in the expression has an argument.
abbrev mutual
  pub HasNoArguments : Expression → Type 0
  HasNoArguments (get_attribute e _) = HasNoArguments e
  HasNoArguments (method_call _ xs) = IsEmpty xs
  HasNoArguments (binary_operation l r _) = HasNoArguments l × HasNoArguments r
  HasNoArguments (unary_operation e _) = HasNoArguments e
  HasNoArguments (comparison l r _) = HasNoArguments l × HasNoArguments r
  HasNoArguments _ = Unit

  IsEmpty : ExpressionList → Type 0
  IsEmpty nil = Unit
  IsEmpty (null_argument _) = ⊥
  IsEmpty (argument _ _) = ⊥

pub clone-same : (e : Expression) → HasNoArguments e → clone e ≡ ok e
unfolding clone
clone-same (variable_reference x) h = refl
clone-same (get_attribute e a) h = rw (clone-same e h)
clone-same (method_call m nil) h = refl
clone-same (method_call m (null_argument xs)) h = absurd h
clone-same (method_call m (argument x xs)) h = absurd h
clone-same (double_literal d) h = refl
clone-same (integer_literal n) h = refl
clone-same (boolean_literal v) h = refl
clone-same (string_literal s) h = refl
clone-same (binary_operation l r op) h = rw (clone-same l h.0, clone-same r h.1)
clone-same (unary_operation e op) h = rw (clone-same e h)
clone-same (comparison l r op) h = rw (clone-same l h.0, clone-same r h.1)

-- A copy that is equal to its original has no arguments in it.
same-HasNoArguments : (e e' : Expression) → clone e ≡ ok e' → e' ≡ e → HasNoArguments e
unfolding clone
same-HasNoArguments (variable_reference x) e' h p = tt
same-HasNoArguments (get_attribute e a) e' h p =
    let (c, hc, hk) = bind_returned (clone e) _ h in same-HasNoArguments e c hc (cc)
same-HasNoArguments (method_call m nil) e' h p = tt
same-HasNoArguments (method_call m (null_argument xs)) e' h p = cc
same-HasNoArguments (method_call m (argument x xs)) e' h p =
    let (c, hc, hk) = bind_returned (clone_arguments (argument x xs)) _ h in cc
same-HasNoArguments (double_literal d) e' h p = tt
same-HasNoArguments (integer_literal n) e' h p = tt
same-HasNoArguments (boolean_literal v) e' h p = tt
same-HasNoArguments (string_literal s) e' h p = tt
same-HasNoArguments (binary_operation l r op) e' h p =
    let (c, hc, hk) = bind_returned (clone l) _ h in
    let (k, hr, hm) = bind_returned (clone r) _ hk in
    (same-HasNoArguments l c hc (cc), same-HasNoArguments r k hr (cc))
same-HasNoArguments (unary_operation e op) e' h p =
    let (c, hc, hk) = bind_returned (clone e) _ h in same-HasNoArguments e c hc (cc)
same-HasNoArguments (comparison l r op) e' h p =
    let (c, hc, hk) = bind_returned (clone l) _ h in
    let (k, hr, hm) = bind_returned (clone r) _ hk in
    (same-HasNoArguments l c hc (cc), same-HasNoArguments r k hr (cc))

-- `clone` returns an expression equal to its original exactly when no call in the original has an
-- argument.
pub clone-same_iff : (e : Expression) → (clone e ≡ ok e) ↔ HasNoArguments e
clone-same_iff e = (λ h. same-HasNoArguments e e h refl, clone-same e)

abbrev pub argument_count : ExpressionList → ℕ
argument_count nil = 0
argument_count (null_argument xs) = suc (argument_count xs)
argument_count (argument _ xs) = suc (argument_count xs)

-- so many null pointers, and then a list
abbrev pub nulls_before : ℕ → ExpressionList → ExpressionList
nulls_before zero zs = zs
nulls_before (suc n) zs = null_argument (nulls_before n zs)

-- Each argument of the second list is the copy of the one of the first in its place.
abbrev pub AreCopies : ExpressionList → ExpressionList → Type 0
AreCopies nil nil = Unit
AreCopies (argument x xs) (argument z zs) = (clone x ≡ ok z) × AreCopies xs zs
AreCopies _ _ = ⊥

ok_injective : {a c : ExpressionList} → ok a ≡ ok c → a ≡ c
ok_injective e = cc

clone_arguments-AreCopies : (xs zs : ExpressionList) → clone_arguments xs ≡ ok zs → AreCopies xs zs
unfolding clone
clone_arguments-AreCopies nil zs h = subst (AreCopies nil) (ok_injective h) tt
clone_arguments-AreCopies (null_argument xs) zs h = cc
clone_arguments-AreCopies (argument x xs) zs h =
    let (c, hc, hk) = bind_returned (clone x) _ h in
    let (ws, hw, hm) = bind_returned (clone_arguments xs) _ hk in
    subst (AreCopies (argument x xs)) (ok_injective hm) (hc, clone_arguments-AreCopies xs ws hw)

null_arguments-nulls_before :
    (xs zs : ExpressionList) → null_arguments xs zs ≡ nulls_before (argument_count xs) zs
null_arguments-nulls_before nil zs = refl
null_arguments-nulls_before (null_argument xs) zs =
    ap null_argument (null_arguments-nulls_before xs zs)
null_arguments-nulls_before (argument x xs) zs =
    ap null_argument (null_arguments-nulls_before xs zs)

-- A copied argument list is twice as long as the original: first come as many null pointers as the
-- original has arguments, and behind them the copies of these, in order.
pub clone_expression_list-nulls_before :
    (xs ys : ExpressionList)
    → clone_expression_list xs ≡ ok ys
    → (zs : ExpressionList) × (ys ≡ nulls_before (argument_count xs) zs) × AreCopies xs zs
unfolding clone_expression_list
clone_expression_list-nulls_before xs ys h =
    let (zs, hz, hm) = bind_returned (clone_arguments xs) _ h in
    (
      zs,
      sym (ok_injective hm) ∙ null_arguments-nulls_before xs zs,
      clone_arguments-AreCopies xs zs hz,
    )
