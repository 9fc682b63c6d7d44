-- ===== src/Llvm/Visitor/Iterables.antt =====
-- What the induction over the statements takes: the iterable of a loop is free, and a printed value
-- goes out of scope.
use b.Base.{
  ℕ, ◌≡◌, ◌≢◌, inl, inr, refl, sym, ap, ◌∙◌, subst, Bool, true, false, Option, none, some, Str,
  arith,
}
use b.Ast.Expression.{Expression, variable_reference}
use b.Llvm.{Value, State}
use b.Llvm.Bindings.{Bindings}
use b.Llvm.Returns.{Returns, returns}
use b.Llvm.Steps.{
  Kind, variant, double, long, flag, text, Tracked, number, Ready, Build, Step, HasKind, Step-refl,
  Build-trans,
}
use b.Llvm.Steps.Lawful.{Lawful, LoopSet}
use b.Llvm.Expressions.Operators.{kind_is_variant}
use b.Llvm.Expressions.Total.{Valued}
use b.Llvm.Visitor.{leave_printed}
use b.Llvm.Visitor.Supported.{Status, is_free, inside_loop, Iterable}
use b.Llvm.Visitor.Scopes.{Matches}
use b.Llvm.Visitor.LoopBody.{not_looping}

inside_true :
    (e : Expression) (st : Status) (y : Str) → inside_loop e st y ≡ some true → st y ≡ some true
inside_true (variable_reference x) st y h = ground (arith)
inside_true _ st y h = h

inside_none : (e : Expression) (st : Status) (y : Str) → inside_loop e st y ≡ none → st y ≡ none
inside_none (variable_reference x) st y h = ground (arith)
inside_none _ st y h = h

-- A name that is still free inside a loop over a variable was no loop variable.
inside_free :
    (x : Str) (st : Status) (y : Str)
    → inside_loop (variable_reference x) st y ≡ some true
    → st x ≡ none
inside_free x st y h = ground (arith)

module _ {B : Type 0} {b : Bindings B} {t : Tracked B} (laws : Lawful b t) where
  pub Matches-same :
      {st : Status} {s s' : State B}
      → Matches b t st s
      → s'.overriden ≡ s.overriden
      → s'.bindings ≡ s.bindings
      → Matches b t st s'
  Matches-same m o d = record {
    absent = λ x h. ap (λ f. f x) o ∙ m.absent x h;
    free = λ x v h k. ap (λ y. t.looping y (number v)) d ∙ m.free x v h (sym (ap (λ f. f x) o) ∙ k);
  }

  -- The iterable is not one that a loop around runs over.
  pub Iterable-free :
      (st : Status) (e : Expression) (v : Value) {s s₁ : State B}
      → Ready b t s
      → Matches b t st s
      → Iterable st e
      → Valued laws variant e s v s₁
      → t.looping s₁.bindings (number v) ≡ false
  Iterable-free st e v {s} r m i p = elim p.origin.1 [
    | inl new ↦ not_looping laws (number v) r p.step new
    | inr (x, same, hidden) ↦
        p.step.loops (number v) ∙ variable_free x (st x) refl (subst (Iterable st) same i) hidden
  ]
    where
      variable_free :
          (x : Str) (o : Option Bool)
          → st x ≡ o
          → is_free (st x) ≡ true
          → s.overriden x ≡ some v
          → t.looping s.bindings (number v) ≡ false
      variable_free x none e f h = absurd (cc (m.absent x e))
      variable_free x (some true) e f h = m.free x v e h
      variable_free x (some false) e f h = cc

  -- Inside the loop the free variables are others than the iterable.
  pub inside-Matches :
      (st : Status) (e : Expression) (v : Value) {s s₁ s₂ : State B}
      → Ready b t s
      → Matches b t st s
      → Valued laws variant e s v s₁
      → s₂.overriden ≡ s₁.overriden
      → LoopSet b t (number v) true s₁ s₂
      → Matches b t (inside_loop e st) s₂
  inside-Matches st e v {s} {s₁} {s₂} r m p o l = record {
    absent = λ y h. back y ∙ m.absent y (inside_none e st y h);
    free = λ y w h k.
        let k' = sym (back y) ∙ k in
        ground (
          arith,
          l (number w),
          other_number y w h k',
          p.step.loops (number w),
          m.free y w (inside_true e st y h) k',
        );
  }
    where
      back : (y : Str) → s₂.overriden y ≡ s.overriden y
      back y = ap (λ f. f y) (o ∙ p.step.build.overriden)

      other_number :
          (y : Str) (w : Value)
          → inside_loop e st y ≡ some true
          → s.overriden y ≡ some w
          → number w ≢ number v
      other_number y w h k same = elim p.origin.1 [
        | inl new ↦ absurd (omega (arith, r.scope_below y w k, same))
        | inr (x, named, hidden) ↦
            let n = inside_free x st y (subst (λ f. inside_loop f st y ≡ some true) named h) in
            absurd (cc (m.absent x n))
      ]

  -- A printed variant goes out of scope.
  pub leave_printed-Step :
      (k : Kind) (v : Value) (s : State B)
      → Ready b t s
      → HasKind b t k s.bindings v
      → Returns (λ _ s'. Step b t s s') (leave_printed b v s)
  leave_printed-Step variant v s r h = rw h.0 (laws.goes_out v s r h)
  leave_printed-Step double v s r h =
      rw (kind_is_variant laws double v s.bindings h) (returns (Step-refl b t r))
  leave_printed-Step long v s r h =
      rw (kind_is_variant laws long v s.bindings h) (returns (Step-refl b t r))
  leave_printed-Step flag v s r h =
      rw (kind_is_variant laws flag v s.bindings h) (returns (Step-refl b t r))
  leave_printed-Step text v s r h =
      rw (kind_is_variant laws text v s.bindings h) (returns (Step-refl b t r))

  -- The loop and its cleanup: no loop runs over the iterable any more.
  pub cleaned-Step :
      (n : ℕ) {s s' s'' : State B}
      → Ready b t s
      → t.looping s.bindings n ≡ false
      → Build b t s s'
      → LoopSet b t n true s s'
      → Build b t s' s''
      → LoopSet b t n false s' s''
      → Step b t s s''
  cleaned-Step n r h p l q l' = record {
    build = Build-trans b t r p q;
    loops = λ m. ground (arith, l m, l' m, h);
  }
