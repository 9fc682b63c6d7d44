-- ===== src/Llvm/Visitor/Conditions.antt =====
-- Conditions that are no single bit.
use b.Base.{◌≡◌, ◌≢◌, refl, ap, ◌∙◌, true, false, some}
use b.Ast.Expression.{Expression}
use b.Ast.Template.{Body, if_block}
use b.Llvm.{
  LlvmType, struct_pointer, Value, type_of, State, M, ◌>>=◌, Reply, done, thrown, broken,
  unimplemented,
}
use b.Llvm.Bindings.{Bindings}
use b.Llvm.Returns.{Returns-done}
use b.Llvm.Steps.{Kind, variant, double, long, flag, text, Tracked, Ready, HasKind}
use b.Llvm.Steps.Lawful.{Lawful}
use b.Llvm.Expressions.{expression}
use b.Llvm.Expressions.Kinds.{kind}
use b.Llvm.Expressions.Total.{expression-Valued}
use b.Llvm.Visitor.{ast, is_condition}

bind_done :
    {B A C : Type 0} (m : M B A) (f : A → M B C) (s : State B) {v : A} {s' : State B}
    {r : Reply (State B) C}
    → m s ≡ done v s'
    → f v s' ≡ r
    → (m >>= f) s ≡ r
bind_done m f s run h =
    ap (λ r. elim r [ done a s' ↦ f a s' | thrown e s' ↦ thrown e s' | broken ↦ broken ]) run ∙ h

module _ {B : Type 0} {b : Bindings B} {t : Tracked B} (laws : Lawful b t) where
  no_condition :
      (k : Kind) (v : Value) (s : B)
      → k ≢ flag
      → HasKind b t k s v
      → is_condition (type_of v) ≡ false
  no_condition variant v s n h = variant_condition (type_of v) h.0
    where
      variant_condition : (ty : LlvmType) → b.is_variant_type ty ≡ true → is_condition ty ≡ false
      variant_condition (LlvmType.int_type w) h = absurd (cc (laws.int_no_variant w))
      variant_condition LlvmType.void_type h = refl
      variant_condition LlvmType.double_type h = refl
      variant_condition LlvmType.byte_pointer h = refl
      variant_condition LlvmType.pointer_pointer h = refl
      variant_condition (struct_pointer n) h = refl
  no_condition double v s n h = ap is_condition h
  no_condition long v s n h = ap is_condition h
  no_condition flag v s n h = absurd (n refl)
  no_condition text v s n h = ap is_condition h

  throws :
      (e : Expression) (x y : Body) (v : Value) (s s' : State B)
      → expression b e s ≡ done v s'
      → is_condition (type_of v) ≡ false
      → ast b (if_block e x y) s ≡ thrown unimplemented s'
  unfolding ast
  throws e x y v s s' run no_ = bind_done (expression b e) _ s run (rw no_)

  -- A condition that is no single bit, such as a variable, a negated variable, or a number, makes
  -- LLVMVisitor::if_block throw "unimplemented!", with any bindings that keep to their interface and
  -- from any state at an open insertion point; the two bodies are not looked at.
  pub ast-if_block-unimplemented :
      (e : Expression) (then_body else_body : Body) (k : Kind) (s : State B)
      → kind e ≡ some k
      → k ≢ flag
      → Ready b t s
      → (s' : State B) × (ast b (if_block e then_body else_body) s ≡ thrown unimplemented s')
  ast-if_block-unimplemented e x y k s h n r =
      let (v, s', run, p) = Returns-done (expression-Valued laws e k s h r) in
      (s', throws e x y v s s' run (no_condition k v s'.bindings n p.has_kind))
