-- ===== src/Llvm/Expressions/Total.antt =====
-- The visit of an expression returns a value of its kind.
use b.Base.{
  ◌≤◌, ◌<◌, ◌≡◌, ◌⊎◌, inl, inr, ◌∙◌, refl, sym, ap, subst, false, some, List, [], ◌∷◌, Str,
  if◌then◌else◌, arith, Option-cases,
}
use b.Ast.Expression.{
  Expression, ExpressionList, nil, null_argument, argument, variable_reference, get_attribute,
  method_call, double_literal, integer_literal, boolean_literal, string_literal, binary_operation,
  unary_operation, comparison,
}
use b.Base.Int.{pos}
use b.Llvm.{
  LlvmType, double_type, int_type, byte_pointer, constant_double, constant_int, global_string,
  Value, type_of, State, done, ◌>>=◌, pure,
}
use b.Llvm.Bindings.{Bindings}
use b.Llvm.Returns.{Returns, returns, Returns-bind, Returns-weaken}
use b.Llvm.Steps.{
  Kind, variant, double, long, flag, text, Tracked, number, Ready, Step, IsKnown, HasKind,
  HasKind-mono, Step-refl, Step-trans,
}
use b.Llvm.Steps.Lawful.{Lawful, NewVariant, AllKnown}
use b.Llvm.Expressions.{
  reference, binary_value, unary_value, comparison_value, expression, arguments,
}
use b.Llvm.Expressions.Kinds.{
  is_variant_kind, binary_kind, unary_kind, comparison_kind, kind, kinds, of_variant_lem,
  of_one_lem, of_both_lem, of_call_lem, push_lem,
}
use b.Llvm.Expressions.Numbers.{some_injective}
use b.Llvm.Expressions.Operators.{
  NewOfKind, binary_value-New, unary_value-New, comparison_value-New,
}

abbrev type_of_kind : Kind → LlvmType
type_of_kind double = double_type
type_of_kind long = int_type 64
type_of_kind flag = int_type 1
type_of_kind _ = byte_pointer

module _ {B : Type 0} {b : Bindings B} {t : Tracked B} (laws : Lawful b t) where
  -- A variant is new, or it is what hides the variable that the expression names.
  abbrev pub Origin : Kind → Expression → State B → State B → Value → Type 0
  Origin variant e s s' v =
      (number v < s'.next_value)
      × ((s.next_value ≤ number v)
          ⊎ ((x : Str) × (e ≡ variable_reference x) × (s.overriden x ≡ some v)))
  Origin _ e s s' v = Unit

  pub record Valued (k : Kind) (e : Expression) (s : State B) (v : Value) (s' : State B)
      : Type 0 where
    pub step : Step b t s s'
    pub has_kind : HasKind b t k s'.bindings v
    pub origin : Origin k e s s' v

  New-Valued :
      (k : Kind) (e : Expression) {s s₁ s' : State B} (v : Value)
      → Ready b t s
      → Step b t s s₁
      → NewOfKind laws k s₁ v s'
      → Valued k e s v s'
  unfolding NewOfKind
  New-Valued variant e v r p (q, h, n) =
      let new = n refl in
      record {
        step = Step-trans b t r p q;
        has_kind = h;
        origin = (new.1, inl (omega (arith, p.build.values_grow, new.0)));
      }
  New-Valued double e v r p (q, h, n) = record {
    step = Step-trans b t r p q;
    has_kind = h;
    origin = tt;
  }
  New-Valued long e v r p (q, h, n) = record {
    step = Step-trans b t r p q;
    has_kind = h;
    origin = tt;
  }
  New-Valued flag e v r p (q, h, n) = record {
    step = Step-trans b t r p q;
    has_kind = h;
    origin = tt;
  }
  New-Valued text e v r p (q, h, n) = record {
    step = Step-trans b t r p q;
    has_kind = h;
    origin = tt;
  }

  NewVariant-Valued :
      (e : Expression) {s s₁ s' : State B} (v : Value)
      → Ready b t s
      → Step b t s s₁
      → NewVariant b t s₁ v s'
      → Valued variant e s v s'
  NewVariant-Valued e v r p (q, h, new) = record {
    step = Step-trans b t r p q;
    has_kind = h;
    origin = (new.1, inl (omega (arith, p.build.values_grow, new.0)));
  }

  reference-Valued :
      (x : Str) (s : State B)
      → Ready b t s
      → Returns (Valued variant (variable_reference x) s) (reference b x (s.overriden x) s)
  reference-Valued x s r = elim (Option-cases (s.overriden x)) [
    | inl absent ↦ rw absent (
        Returns-weaken (laws.variable_lookup x s r)
          (λ v s' n. NewVariant-Valued (variable_reference x) v r (Step-refl b t r) n))
    | inr (w, hidden) ↦ rw hidden (
        Returns-weaken (laws.new_reference w s r (r.scope x w hidden)) (λ v s' (p, same). record {
          step = p;
          has_kind =
              subst (IsKnown b t s'.bindings) (sym same)
                (HasKind-mono b t variant w p.build (r.scope x w hidden));
          origin = (
            subst (λ u. number u < s'.next_value) (sym same)
                (omega (arith, p.build.values_grow, r.scope_below x w hidden)),
            inr (x, refl, hidden ∙ ap some (sym same)),
          );
        }))
  ]

  AllKnown-mono :
      (ks : List Kind) (vs : List Value) {s s' : State B}
      → Step b t s s'
      → AllKnown b t s ks vs
      → AllKnown b t s' ks vs
  AllKnown-mono [] [] p h = tt
  AllKnown-mono (k ∷ ks) (v ∷ vs) p (h, hs) =
      (HasKind-mono b t k v p.build h, AllKnown-mono ks vs p hs)
  AllKnown-mono [] (v ∷ vs) p h = h
  AllKnown-mono (k ∷ ks) [] p h = h

  -- A literal is a constant of its kind.
  literal :
      (j : Kind) (e : Expression) (v : Value) (k : Kind) (s : State B)
      → some j ≡ some k
      → is_variant_kind j ≡ false
      → type_of v ≡ type_of_kind j
      → Ready b t s
      → Returns (Valued k e s) (done v s)
  literal variant e v k s h n ty r = cc
  literal double e v k s h n ty r =
      subst (λ i. Returns (Valued i e s) (done v s)) (some_injective h)
        (returns (record { step = Step-refl b t r; has_kind = ty; origin = tt }))
  literal long e v k s h n ty r =
      subst (λ i. Returns (Valued i e s) (done v s)) (some_injective h)
        (returns (record { step = Step-refl b t r; has_kind = ty; origin = tt }))
  literal flag e v k s h n ty r =
      subst (λ i. Returns (Valued i e s) (done v s)) (some_injective h)
        (returns (record { step = Step-refl b t r; has_kind = ty; origin = tt }))
  literal text e v k s h n ty r =
      subst (λ i. Returns (Valued i e s) (done v s)) (some_injective h)
        (returns (record { step = Step-refl b t r; has_kind = ty; origin = tt }))

  mutual
    unfolding expression arguments

    pub expression-Valued :
        (e : Expression) (k : Kind) (s : State B)
        → kind e ≡ some k
        → Ready b t s
        → Returns (Valued k e s) (expression b e s)
    expression-Valued (variable_reference x) k s h r =
        subst (λ j. Returns (Valued j (variable_reference x) s) (reference b x (s.overriden x) s))
          (some_injective h) (reference-Valued x s r)
    expression-Valued (get_attribute e a) k s h r =
        let (he, same) = of_variant_lem (kind e) k h in
        subst (λ j. Returns (Valued j (get_attribute e a) s) (expression b (get_attribute e a) s))
          (sym same)
          (Returns-bind (expression b e) (b.create_get_attribute a) s
            (expression-Valued e variant s he r)
            λ v s₁ p.
              Returns-weaken (laws.attribute a v s₁ p.step.build.ready p.has_kind)
                (λ u s' n. NewVariant-Valued (get_attribute e a) u r p.step n))
    expression-Valued (method_call m xs) k s h r =
        let (ks, hs, same) = of_call_lem (kinds xs) h in
        subst (λ j. Returns (Valued j (method_call m xs) s) (expression b (method_call m xs) s))
          (sym same)
          (Returns-bind (arguments b xs) (b.create_method_call m) s (arguments-Known xs ks s hs r)
            λ vs s₁ (p, known).
              Returns-weaken (laws.method_call m ks vs s₁ p.build.ready known)
                (λ u s' n. NewVariant-Valued (method_call m xs) u r p n))
    expression-Valued (double_literal v) k s h r =
        literal double (double_literal v) (constant_double v) k s h refl refl r
    expression-Valued (integer_literal n) k s h r =
        literal long (integer_literal n) (constant_int 64 n) k s h refl refl r
    expression-Valued (boolean_literal v) k s h r =
        literal flag (boolean_literal v) (constant_int 1 (if v then pos 1 else pos 0)) k s h refl
          refl r
    expression-Valued (string_literal u) k s h r =
        literal text (string_literal u) (global_string u) k s h refl refl r
    expression-Valued (binary_operation l w op) k s h r =
        let (kl, kr, el, er, e) = of_both_lem (kind l) (kind w) binary_kind h in
        Returns-bind (expression b l) (λ left. expression b w >>= binary_value b op left) s
          (expression-Valued l kl s el r)
          λ left s₁ p.
            Returns-bind (expression b w) (binary_value b op left) s₁
              (expression-Valued w kr s₁ er p.step.build.ready)
              λ right s₂ q.
                Returns-weaken
                  (binary_value-New laws op kl kr k left right s₂ e
                    (HasKind-mono b t kl left q.step.build p.has_kind) q.has_kind
                    q.step.build.ready)
                  (λ v s' n.
                    New-Valued k (binary_operation l w op) v r (Step-trans b t r p.step q.step) n)
    expression-Valued (unary_operation e op) k s h r =
        let (j, ej, ek) = of_one_lem (kind e) (unary_kind op) h in
        Returns-bind (expression b e) (unary_value b op) s (expression-Valued e j s ej r) λ v s₁ p.
          Returns-weaken (unary_value-New laws op j k v s₁ ek p.has_kind p.step.build.ready)
            (λ u s' n. New-Valued k (unary_operation e op) u r p.step n)
    expression-Valued (comparison l w op) k s h r =
        let (kl, kr, el, er, e) = of_both_lem (kind l) (kind w) (comparison_kind op) h in
        Returns-bind (expression b l) (λ left. expression b w >>= comparison_value b op left) s
          (expression-Valued l kl s el r)
          λ left s₁ p.
            Returns-bind (expression b w) (comparison_value b op left) s₁
              (expression-Valued w kr s₁ er p.step.build.ready)
              λ right s₂ q.
                Returns-weaken
                  (comparison_value-New laws op kl kr k left right s₂ e
                    (HasKind-mono b t kl left q.step.build p.has_kind) q.has_kind
                    q.step.build.ready)
                  (λ v s' n.
                    New-Valued k (comparison l w op) v r (Step-trans b t r p.step q.step) n)

    arguments-Known :
        (xs : ExpressionList) (ks : List Kind) (s : State B)
        → kinds xs ≡ some ks
        → Ready b t s
        → Returns (λ vs s'. Step b t s s' × AllKnown b t s' ks vs) (arguments b xs s)
    arguments-Known nil ks s h r =
        subst (λ js. Returns (λ vs s'. Step b t s s' × AllKnown b t s' js vs) (arguments b nil s))
          (some_injective h) (returns (Step-refl b t r, tt))
    arguments-Known (null_argument xs) ks s h r = cc
    arguments-Known (argument x xs) ks s h r =
        let (j, js, ej, ejs, same) = push_lem (kind x) (kinds xs) h in
        subst
          (λ is.
            Returns (λ vs s'. Step b t s s' × AllKnown b t s' is vs)
              (arguments b (argument x xs) s))
          (sym same)
          (Returns-bind (expression b x) (λ v. arguments b xs >>= λ vs. pure (v ∷ vs)) s
            (expression-Valued x j s ej r)
            λ v s₁ p.
              Returns-bind (arguments b xs) (λ vs. pure (v ∷ vs)) s₁
                (arguments-Known xs js s₁ ejs p.step.build.ready)
                λ vs s₂ (q, known).
                  returns
                    (Step-trans b t r p.step q, (HasKind-mono b t j v q.build p.has_kind, known)))
