-- ===== src/Llvm/Expressions/Operators.antt =====
-- The operators on values of the kinds that they take.
use b.Base.{◌≡◌, ◌≢◌, ◌⊎◌, inl, inr, ◌||◌, ◌∙◌, ap, subst, true, false, some, arith}
use b.Ast.Expression.{BinaryOperation, UnaryOperation, ComparisonOperation}
use b.Llvm.{Value, State}
use b.Llvm.Bindings.{Bindings}
use b.Llvm.Returns.{Returns, Returns-weaken}
use b.Llvm.Steps.{Kind, variant, double, long, flag, text, Tracked, Ready, Step, HasKind}
use b.Llvm.Steps.Lawful.{Lawful, IsNew}
use b.Llvm.Expressions.{is_variant, binary_value, unary_value, comparison_value}
use b.Llvm.Expressions.Kinds.{
  is_variant_kind, number_kind, compared, binary_kind, unary_kind, comparison_kind,
}
use b.Llvm.Expressions.Compared.{number_comparison-OfKind, number_unary-OfKind}
use b.Llvm.Expressions.Numbers.{number_operation-OfKind}

binary_cases :
    (kl kr k : Kind)
    → binary_kind kl kr ≡ some k
    → ((is_variant_kind kl || is_variant_kind kr) ≡ true) × (k ≡ variant)
      ⊎ ((is_variant_kind kl || is_variant_kind kr) ≡ false)
        × (number_kind kl kr ≡ some k)
        × (k ≢ variant)
binary_cases kl kr k e = ground arith

variant_of : (j : Kind) → is_variant_kind j ≡ true → j ≡ variant
variant_of j e = ground arith

unary_cases :
    (op : UnaryOperation) (j k : Kind)
    → unary_kind op j ≡ some k
    → (is_variant_kind j ≡ true) × (k ≡ variant) ⊎ (is_variant_kind j ≡ false) × (k ≢ variant)
unary_cases op j k e = ground arith

comparison_cases :
    (op : ComparisonOperation) (kl kr k : Kind)
    → comparison_kind op kl kr ≡ some k
    → ((is_variant_kind kl || is_variant_kind kr) ≡ true) × (k ≡ flag)
      ⊎ ((is_variant_kind kl || is_variant_kind kr) ≡ false)
        × (compared op (number_kind kl kr) ≡ some k)
        × (k ≢ variant)
comparison_cases op kl kr k e = ground arith

module _ {B : Type 0} {b : Bindings B} {t : Tracked B} (laws : Lawful b t) where
  pub kind_is_variant :
      (k : Kind) (v : Value) (s : B) → HasKind b t k s v → is_variant b v ≡ is_variant_kind k
  kind_is_variant variant v s h = h.0
  kind_is_variant double v s h = ap b.is_variant_type h ∙ laws.double_no_variant
  kind_is_variant long v s h = ap b.is_variant_type h ∙ laws.int_no_variant 64
  kind_is_variant flag v s h = ap b.is_variant_type h ∙ laws.int_no_variant 1
  kind_is_variant text v s h = ap b.is_variant_type h ∙ laws.text_no_variant

  -- Any value of an operator: a variant is new.
  unfoldable pub NewOfKind : Kind → State B → Value → State B → Type 0
  NewOfKind k s v s' =
      Step b t s s' × HasKind b t k s'.bindings v × (k ≡ variant → IsNew b t s s' v)

  pub binary_value-New :
      (op : BinaryOperation) (kl kr k : Kind) (left right : Value) (s : State B)
      → binary_kind kl kr ≡ some k
      → HasKind b t kl s.bindings left
      → HasKind b t kr s.bindings right
      → Ready b t s
      → Returns (NewOfKind k s) (binary_value b op left right s)
  unfolding NewOfKind
  binary_value-New op kl kr k left right s e hl hr r = elim (binary_cases kl kr k e) [
    | inl (some_variant, same) ↦
        rw
          (
            kind_is_variant kl left s.bindings hl,
            kind_is_variant kr right s.bindings hr,
            some_variant,
            same,
          )
          (Returns-weaken (laws.binary op kl kr left right s r hl hr)
            (λ v s' (p, h, n). (p, h, λ _. n)))
    | inr (no_variant, numbers, other) ↦
        rw
          (
            kind_is_variant kl left s.bindings hl,
            kind_is_variant kr right s.bindings hr,
            no_variant,
          )
          (Returns-weaken (number_operation-OfKind b t op kl kr k left right s numbers hl hr r)
            (λ v s' (p, h). (p, h, λ same. absurd (other same))))
  ]

  pub unary_value-New :
      (op : UnaryOperation) (j k : Kind) (v : Value) (s : State B)
      → unary_kind op j ≡ some k
      → HasKind b t j s.bindings v
      → Ready b t s
      → Returns (NewOfKind k s) (unary_value b op v s)
  unfolding NewOfKind
  unary_value-New op j k v s e h r = elim (unary_cases op j k e) [
    | inl (a_variant, same) ↦
        rw (kind_is_variant j v s.bindings h, a_variant, same)
          (Returns-weaken
            (laws.unary op v s r
              (subst (λ i. HasKind b t i s.bindings v) (variant_of j a_variant) h))
            (λ u s' (p, k', n). (p, k', λ _. n)))
    | inr (no_variant, other) ↦
        rw (kind_is_variant j v s.bindings h, no_variant)
          (Returns-weaken (number_unary-OfKind b t op j k v s e no_variant h r)
            (λ u s' (p, k'). (p, k', λ same. absurd (other same))))
  ]

  pub comparison_value-New :
      (op : ComparisonOperation) (kl kr k : Kind) (left right : Value) (s : State B)
      → comparison_kind op kl kr ≡ some k
      → HasKind b t kl s.bindings left
      → HasKind b t kr s.bindings right
      → Ready b t s
      → Returns (NewOfKind k s) (comparison_value b op left right s)
  unfolding NewOfKind
  comparison_value-New op kl kr k left right s e hl hr r = elim (comparison_cases op kl kr k e) [
    | inl (some_variant, same) ↦
        rw
          (
            kind_is_variant kl left s.bindings hl,
            kind_is_variant kr right s.bindings hr,
            some_variant,
            same,
          )
          (Returns-weaken (laws.comparison op kl kr left right s r hl hr)
            (λ v s' (p, h). (p, h, λ no. cc)))
    | inr (no_variant, numbers, other) ↦
        rw
          (
            kind_is_variant kl left s.bindings hl,
            kind_is_variant kr right s.bindings hr,
            no_variant,
          )
          (Returns-weaken (number_comparison-OfKind b t op kl kr k left right s numbers hl hr r)
            (λ v s' (p, h). (p, h, λ same. absurd (other same))))
  ]
  -- What an operator gives is what its expression gives, which is no variable.
