-- ===== src/Llvm/Expressions/Compared.antt =====
-- Comparisons and unary operators on values that are no variants.
use b.Base.{
  ℕ, ◌≡◌, ◌⊎◌, inl, inr, refl, ◌∙◌, sym, subst, Bool, true, false, Option, none, some, arith,
}
use b.Ast.Expression.{
  UnaryOperation, ComparisonOperation, numeric_positive, numeric_negative, boolean_negation, or,
  and,
}
use b.Llvm.{int_type, Value, type_of, State}
use b.Llvm.Bindings.{Bindings}
use b.Llvm.Returns.{Returns, returns, Returns-weaken}
use b.Llvm.Steps.{Kind, variant, double, long, flag, text, Tracked, Ready, HasKind, Step-refl}
use b.Llvm.Expressions.{number_unary, number_comparison, compare_floats}
use b.Llvm.Expressions.Kinds.{is_variant_kind, number_kind, unary_kind, compared}
use b.Llvm.Expressions.Numbers.{
  ==-refl, some_injective, Typed, OfKind, AreFloats, emit-Typed, doubles-Typed, floats, kept_type,
  not_variant,
}

-- Whether an operator joins Booleans.
abbrev connects : ComparisonOperation → Bool
connects or = true
connects and = true
connects _ = false

compared_lem :
    (op : ComparisonOperation) (o : Option Kind) {k : Kind}
    → compared op o ≡ some k
    → (j : Kind) × (o ≡ some j)
      × ((connects op ≡ true) × (j ≡ k) ⊎ ((connects op ≡ false) × (k ≡ flag)))
compared_lem op none h = cc
compared_lem op (some j) h = (j, refl, ground arith)

module _ {B : Type 0} (b : Bindings B) (t : Tracked B) where
  connective-Typed :
      (op : ComparisonOperation) (w : ℕ) (left right : Value) (s : State B)
      → connects op ≡ true
      → type_of left ≡ int_type w
      → type_of right ≡ int_type w
      → Ready b t s
      → Returns (Typed b t (int_type w) s) (number_comparison op left right s)
  unfolding number_comparison
  connective-Typed and w left right s c tl tr r = rw (tl, tr, ==-refl w) (emit-Typed b t _ _ _ s r)
  connective-Typed or w left right s c tl tr r = rw (tl, tr, ==-refl w) (emit-Typed b t _ _ _ s r)
  connective-Typed _ w left right s c tl tr r = cc

  relation-Typed :
      (op : ComparisonOperation) (w : ℕ) (left right : Value) (s : State B)
      → connects op ≡ false
      → type_of left ≡ int_type w
      → type_of right ≡ int_type w
      → Ready b t s
      → Returns (Typed b t (int_type 1) s) (number_comparison op left right s)
  unfolding number_comparison
  relation-Typed and w left right s c tl tr r = cc
  relation-Typed or w left right s c tl tr r = cc
  relation-Typed _ w left right s c tl tr r = rw (tl, tr, ==-refl w) (emit-Typed b t _ _ _ s r)

  floats-Typed :
      (op : ComparisonOperation) (l r : Value) (s : State B)
      → connects op ≡ false
      → Ready b t s
      → Returns (Typed b t (int_type 1) s) (compare_floats op l r s)
  floats-Typed and l w s c r = cc
  floats-Typed or l w s c r = cc
  floats-Typed _ l w s c r = emit-Typed b t _ _ _ s r

  float_comparison-Typed :
      (op : ComparisonOperation) (kl kr : Kind) (left right : Value) (s : State B)
      → connects op ≡ false
      → AreFloats b t kl kr left right
      → HasKind b t kl s.bindings left
      → HasKind b t kr s.bindings right
      → Ready b t s
      → Returns (Typed b t (int_type 1) s) (number_comparison op left right s)
  unfolding number_comparison
  float_comparison-Typed op kl kr left right s c f hl hr r = rw f.not_both (
      doubles-Typed b t (int_type 1) (compare_floats op) kl kr left right s f.left_number
        f.right_number hl hr r (λ l w s' r'. floats-Typed op l w s' c r'))

  no_double_connective :
      (op : ComparisonOperation) (o : Option Kind) {k : Kind}
      → compared op o ≡ some k
      → o ≡ some double
      → connects op ≡ false
  no_double_connective op o h e = ground arith

  pub number_comparison-OfKind :
      (op : ComparisonOperation) (kl kr k : Kind) (left right : Value) (s : State B)
      → compared op (number_kind kl kr) ≡ some k
      → HasKind b t kl s.bindings left
      → HasKind b t kr s.bindings right
      → Ready b t s
      → Returns (OfKind b t k s) (number_comparison op left right s)
  number_comparison-OfKind op kl kr k left right s e hl hr r =
      let (j, ej, what) = compared_lem op (number_kind kl kr) e in
      elim (floats b t kl kr j left right s.bindings ej hl hr) [
        | inl (d, f) ↦ elim what [
          | inl (c, same) ↦
              absurd (cc (no_double_connective op (number_kind kl kr) e (rw ej (rw d)), c))
          | inr (c, same) ↦
              Returns-weaken (float_comparison-Typed op kl kr left right s c f hl hr r)
                (λ v s' (p, ty). (p, subst (λ i. HasKind b t i s'.bindings v) (sym same) ty))
        ]
        | inr (w, tl, tr, kept) ↦ elim what [
          | inl (c, same) ↦
              Returns-weaken (connective-Typed op w left right s c tl tr r) (λ v s' (p, ty). (
                p,
                kept_type b t kl k left v s s' (kept ∙ same) hl tl (not_variant b t kl kr j ej) ty,
              ))
          | inr (c, same) ↦
              Returns-weaken (relation-Typed op w left right s c tl tr r)
                (λ v s' (p, ty). (p, subst (λ i. HasKind b t i s'.bindings v) (sym same) ty))
        ]
      ]

  signed-Typed :
      (op : UnaryOperation) (w : ℕ) (v : Value) (s : State B)
      → type_of v ≡ int_type w
      → Ready b t s
      → Returns (Typed b t (int_type w) s) (number_unary op v s)
  unfolding number_unary
  signed-Typed numeric_positive w v s h r = returns (Step-refl b t r, h)
  signed-Typed numeric_negative w v s h r = rw h (emit-Typed b t _ _ _ s r)
  signed-Typed boolean_negation w v s h r = rw h (emit-Typed b t _ _ _ s r)

  pub number_unary-OfKind :
      (op : UnaryOperation) (j k : Kind) (v : Value) (s : State B)
      → unary_kind op j ≡ some k
      → is_variant_kind j ≡ false
      → HasKind b t j s.bindings v
      → Ready b t s
      → Returns (OfKind b t k s) (number_unary op v s)
  unfolding number_unary
  number_unary-OfKind op variant k v s e n h r = cc
  number_unary-OfKind op long k v s e n h r =
      Returns-weaken (signed-Typed op 64 v s h r)
        (λ u s' (p, ty). (p, subst (λ i. HasKind b t i s'.bindings u) (integer_kind op e) ty))
    where
      integer_kind : (op : UnaryOperation) {k : Kind} → unary_kind op long ≡ some k → long ≡ k
      integer_kind numeric_positive e = cc
      integer_kind numeric_negative e = cc
      integer_kind boolean_negation e = cc
  number_unary-OfKind op flag k v s e n h r =
      Returns-weaken (signed-Typed op 1 v s h r)
        (λ u s' (p, ty). (p, subst (λ i. HasKind b t i s'.bindings u) (integer_kind op e) ty))
    where
      integer_kind : (op : UnaryOperation) {k : Kind} → unary_kind op flag ≡ some k → flag ≡ k
      integer_kind numeric_positive e = cc
      integer_kind numeric_negative e = cc
      integer_kind boolean_negation e = cc
  number_unary-OfKind numeric_positive double k v s e n h r =
      subst (λ i. Returns (OfKind b t i s) (number_unary numeric_positive v s)) (some_injective e)
        (returns (Step-refl b t r, h))
  number_unary-OfKind numeric_positive text k v s e n h r =
      subst (λ i. Returns (OfKind b t i s) (number_unary numeric_positive v s)) (some_injective e)
        (returns (Step-refl b t r, h))
  number_unary-OfKind numeric_negative double k v s e n h r = cc
  number_unary-OfKind numeric_negative text k v s e n h r = cc
  number_unary-OfKind boolean_negation double k v s e n h r = cc
  number_unary-OfKind boolean_negation text k v s e n h r = cc
