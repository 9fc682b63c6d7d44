-- ===== src/Passes/Includes/Endless.antt =====
-- What the include pass does with a file that includes itself.
use b.Base.{◌≡◌, ◌⊎◌, inl, inr, Str, Bool, true, false, Outcome, ok, ◌>>=◌}
use b.Base.Post.{Partial, Partial-any, Post-bind}
use b.Ast.Template
use b.Ast.Template.{
  Ast, AstList, Body, Mapping, statements, if_block, for_block, include_block, cons, no_body, body,
}
use b.Passes.Tree.{walk_list, walk_body, splice, walk_tree}

-- A call that does not return.
abbrev pub Fails {ℓ} : {A : Type ℓ} → Outcome A → Type ℓ
Fails r = Partial (λ _. ⊥) r

pub Fails-bind {ℓ κ} :
    {A : Type ℓ} {B : Type κ} {r : Outcome A} → Fails r → (f : A → Outcome B) → Fails (r >>= f)
Fails-bind h f = Post-bind h λ _ z. absurd z

-- A statement at which `P` holds, somewhere in the template.
module _ (P : Ast → Type 0) where
  abbrev mutual
    pub Somewhere : Ast → Type 0
    Somewhere (statements xs) = SomewhereList xs
    Somewhere (if_block c t e) = P (if_block c t e) ⊎ (SomewhereBody t ⊎ SomewhereBody e)
    Somewhere (for_block k v i t e) = P (for_block k v i t e) ⊎ (SomewhereBody t ⊎ SomewhereBody e)
    Somewhere a = P a

    pub SomewhereList : AstList → Type 0
    SomewhereList Template.nil = ⊥
    SomewhereList (cons a xs) = Somewhere a ⊎ SomewhereList xs

    pub SomewhereBody : Body → Type 0
    SomewhereBody no_body = ⊥
    SomewhereBody (body a) = Somewhere a

  -- A pass that fails at such a statement fails on the template.
  module _ (rec : Ast → Outcome Ast) (rec_fails : (a : Ast) → Somewhere a → Fails (rec a)) where
    walk_list-Fails :
        (at_begin : Bool) (xs : AstList) → SomewhereList xs → Fails (walk_list rec at_begin xs)
    unfolding walk_list
    walk_list-Fails at_begin Template.nil h = absurd h
    walk_list-Fails at_begin (cons a xs) (inl h) = Fails-bind (rec_fails a h) _
    walk_list-Fails at_begin (cons a xs) (inr h) = Post-bind (Partial-any (rec a)) λ a' _.
        Post-bind (Partial-any (splice at_begin a'))
          λ front _. Fails-bind (walk_list-Fails false xs h) _

    pub walk_body-Fails : (a : Body) → SomewhereBody a → Fails (walk_body rec a)
    walk_body-Fails no_body h = absurd h
    walk_body-Fails (body a) h = Fails-bind (rec_fails a h) _

    pub bodies-Fails :
        (t e : Body) (make : Body → Body → Ast)
        → SomewhereBody t ⊎ SomewhereBody e
        → Fails (walk_body rec t >>= λ t'. walk_body rec e >>= λ e'. ok (make t' e'))
    bodies-Fails t e make (inl h) = Fails-bind (walk_body-Fails t h) _
    bodies-Fails t e make (inr h) =
        Post-bind (Partial-any (walk_body rec t)) λ t' _. Fails-bind (walk_body-Fails e h) _

    pub walk_tree-Fails : (xs : AstList) → SomewhereList xs → Fails (walk_tree rec (statements xs))
    unfolding walk_tree
    walk_tree-Fails xs h = Fails-bind (walk_list-Fails true xs h) _

-- An include of the file.
abbrev pub IsInclude : Str → Ast → Type 0
IsInclude name (include_block n s m) = n ≡ name
IsInclude name _ = ⊥
