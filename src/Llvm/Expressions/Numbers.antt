-- ===== src/Llvm/Expressions/Numbers.antt =====
-- Operators on two values that are no variants: the instruction is one that LLVM takes.
use b.Base.{
  ℕ, ◌⊎◌, inl, inr, ◌&&◌, ◌≡◌, refl, ap, subst, true, false, some, List, [], ◌∷◌, ◌==◌, arith,
}
use b.Ast.Expression.{BinaryOperation}
use b.Llvm.{LlvmType, double_type, int_type, Value, type_of, Opcode, State, M, ◌>>=◌, emit}
use b.Llvm.Bindings.{Bindings}
use b.Llvm.Returns.{Returns, returns, Returns-bind, Returns-weaken}
use b.Llvm.Steps.{
  Kind, variant, double, long, flag, text, Tracked, Ready, Step, HasKind, HasKind-mono, Step-trans,
  Step-refl,
}
use b.Llvm.Steps.Emit.{emit-Step}
use b.Llvm.Expressions.{is_integer_type, to_double, number_operation, float_opcode}
use b.Llvm.Expressions.Kinds.{is_variant_kind, number_kind}

pub ==-refl : (w : ℕ) → (w == w) ≡ true
==-refl w = ground arith

pub some_injective {ℓ} : {A : Type ℓ} {x y : A} → some x ≡ some y → x ≡ y
some_injective h = cc

module _ {B : Type 0} (b : Bindings B) (t : Tracked B) where
  -- A step that gives a value of a type.
  abbrev pub Typed : LlvmType → State B → Value → State B → Type 0
  Typed ty s v s' = Step b t s s' × (type_of v ≡ ty)

  pub emit-Typed :
      (op : Opcode) (operands : List Value) (ty : LlvmType) (s : State B)
      → Ready b t s
      → Returns (Typed ty s) (emit op operands ty s)
  emit-Typed op operands ty s r =
      Returns-weaken (emit-Step b t op operands ty s r) (λ v s' h. (h.0, ap type_of h.1))

  to_double-Typed :
      (k : Kind) (v : Value) (s : State B)
      → number_kind double k ≡ some double
      → HasKind b t k s.bindings v
      → Ready b t s
      → Returns (Typed double_type s) (to_double v s)
  to_double-Typed double v s e h r = rw h (returns (Step-refl b t r, h))
  to_double-Typed long v s e h r = rw h (emit-Typed _ _ _ s r)
  to_double-Typed flag v s e h r = rw h (emit-Typed _ _ _ s r)
  to_double-Typed variant v s e h r = cc
  to_double-Typed text v s e h r = cc

  -- Both operands as doubles, and what follows on them.
  pub doubles-Typed :
      (ty : LlvmType) (f : Value → Value → M B Value) (kl kr : Kind) (left right : Value)
      (s : State B)
      → number_kind double kl ≡ some double
      → number_kind double kr ≡ some double
      → HasKind b t kl s.bindings left
      → HasKind b t kr s.bindings right
      → Ready b t s
      → ((l r : Value) (s' : State B) → Ready b t s' → Returns (Typed ty s') (f l r s'))
      → Returns (Typed ty s) ((do l ← to_double left; r ← to_double right; f l r) s)
  doubles-Typed ty f kl kr left right s el er hl hr r k =
      Returns-bind (to_double left) (λ l. to_double right >>= f l) s
        (to_double-Typed kl left s el hl r)
        λ l s₁ (p, _).
          Returns-bind (to_double right) (f l) s₁
            (to_double-Typed kr right s₁ er (HasKind-mono b t kr right p.build hr) p.build.ready)
            λ w s₂ (q, _).
              Returns-weaken (k l w s₂ q.build.ready)
                (λ v s₃ (u, h). (Step-trans b t r p (Step-trans b t p.build.ready q u), h))

  abbrev pub OfKind : Kind → State B → Value → State B → Type 0
  OfKind k s v s' = Step b t s s' × HasKind b t k s'.bindings v

  -- Operands that are not both integers, but numbers.
  pub record AreFloats (kl kr : Kind) (left right : Value) : Type 0 where
    pub left_number : number_kind double kl ≡ some double
    pub right_number : number_kind double kr ≡ some double
    pub not_both : (is_integer_type (type_of left) && is_integer_type (type_of right)) ≡ false

  pub floats :
      (kl kr k : Kind) (left right : Value) (s : B)
      → number_kind kl kr ≡ some k
      → HasKind b t kl s left
      → HasKind b t kr s right
      → ((k ≡ double) × AreFloats kl kr left right)
        ⊎ ((w : ℕ) × (type_of left ≡ int_type w) × (type_of right ≡ int_type w) × (kl ≡ k))
  floats long long k left right s e hl hr = inr (64, hl, hr, some_injective e)
  floats flag flag k left right s e hl hr = inr (1, hl, hr, some_injective e)
  floats double double k left right s e hl hr =
      inl (cc, record { left_number = refl; right_number = refl; not_both = rw hl })
  floats double long k left right s e hl hr =
      inl (cc, record { left_number = refl; right_number = refl; not_both = rw hl })
  floats double flag k left right s e hl hr =
      inl (cc, record { left_number = refl; right_number = refl; not_both = rw hl })
  floats long double k left right s e hl hr =
      inl (cc, record { left_number = refl; right_number = refl; not_both = rw (hl, hr) })
  floats flag double k left right s e hl hr =
      inl (cc, record { left_number = refl; right_number = refl; not_both = rw (hl, hr) })
  floats _ _ k left right s e hl hr = cc

  -- A value of the type of its left operand has its kind.
  pub kept_type :
      (kl k : Kind) (left v : Value) (s s' : State B) {w : ℕ}
      → kl ≡ k
      → HasKind b t kl s.bindings left
      → type_of left ≡ int_type w
      → is_variant_kind kl ≡ false
      → type_of v ≡ int_type w
      → HasKind b t k s'.bindings v
  kept_type variant k left v s s' e h i n o = cc
  kept_type double k left v s s' e h i n o = cc
  kept_type long k left v s s' e h i n o = subst (λ j. HasKind b t j s'.bindings v) e (cc)
  kept_type flag k left v s s' e h i n o = subst (λ j. HasKind b t j s'.bindings v) e (cc)
  kept_type text k left v s s' e h i n o = cc

  pub not_variant : (kl kr k : Kind) → number_kind kl kr ≡ some k → is_variant_kind kl ≡ false
  not_variant variant kr k e = cc
  not_variant double kr k e = refl
  not_variant long kr k e = refl
  not_variant flag kr k e = refl
  not_variant text kr k e = refl

  pub number_operation-OfKind :
      (op : BinaryOperation) (kl kr k : Kind) (left right : Value) (s : State B)
      → number_kind kl kr ≡ some k
      → HasKind b t kl s.bindings left
      → HasKind b t kr s.bindings right
      → Ready b t s
      → Returns (OfKind k s) (number_operation op left right s)
  unfolding number_operation
  number_operation-OfKind op kl kr k left right s e hl hr r =
      elim (floats kl kr k left right s.bindings e hl hr) [
        | inl (d, f) ↦
            rw (d, f.not_both)
              (doubles-Typed double_type (λ l w. emit (float_opcode op) (l ∷ w ∷ []) double_type) kl
                kr left right s f.left_number f.right_number hl hr r
                (λ l w s' r'. emit-Typed _ _ _ s' r'))
        | inr (w, tl, tr, same) ↦
            Returns-weaken (integer-Typed op w left right s tl tr r) (λ v s' (p, ty).
              (p, kept_type kl k left v s s' same hl tl (not_variant kl kr k e) ty))
      ]
    where
      integer-Typed :
          (op : BinaryOperation) (w : ℕ) (left right : Value) (s : State B)
          → type_of left ≡ int_type w
          → type_of right ≡ int_type w
          → Ready b t s
          → Returns (Typed (int_type w) s) (number_operation op left right s)
      integer-Typed op w left right s tl tr r = rw (tl, tr, ==-refl w) (emit-Typed _ _ _ s r)
