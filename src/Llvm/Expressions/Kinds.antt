-- ===== src/Llvm/Expressions/Kinds.antt =====
-- The kind of value that the visitor makes of an expression, or none where it makes an instruction
-- on operands that LLVM does not take.
use b.Base.{◌≡◌, refl, Bool, true, false, Option, none, some, List, [], ◌∷◌}
use b.Ast.Expression.{
  Expression, ExpressionList, UnaryOperation, ComparisonOperation, nil, null_argument, argument,
  variable_reference, get_attribute, method_call, double_literal, integer_literal, boolean_literal,
  string_literal, binary_operation, unary_operation, comparison, numeric_positive, or, and,
}
use b.Llvm.Steps.{Kind, variant, double, long, flag, text}

abbrev pub is_variant_kind : Kind → Bool
is_variant_kind variant = true
is_variant_kind _ = false

abbrev pub number_kind : Kind → Kind → Option Kind
number_kind long long = some long
number_kind flag flag = some flag
number_kind double double = some double
number_kind double long = some double
number_kind double flag = some double
number_kind long double = some double
number_kind flag double = some double
number_kind _ _ = none

abbrev pub binary_kind : Kind → Kind → Option Kind
binary_kind variant _ = some variant
binary_kind _ variant = some variant
binary_kind k k' = number_kind k k'

abbrev pub unary_kind : UnaryOperation → Kind → Option Kind
unary_kind _ variant = some variant
unary_kind numeric_positive k = some k
unary_kind _ long = some long
unary_kind _ flag = some flag
unary_kind _ _ = none

-- The kind of a comparison of numbers, from the kind that arithmetic on them has.
abbrev pub compared : ComparisonOperation → Option Kind → Option Kind
compared op none = none
compared and (some double) = none
compared or (some double) = none
compared and (some k) = some k
compared or (some k) = some k
compared op (some k) = some flag

abbrev pub comparison_kind : ComparisonOperation → Kind → Kind → Option Kind
comparison_kind op variant _ = some flag
comparison_kind op _ variant = some flag
comparison_kind op k k' = compared op (number_kind k k')

abbrev of_variant : Option Kind → Option Kind
of_variant (some variant) = some variant
of_variant _ = none

abbrev pub of_one : Option Kind → (Kind → Option Kind) → Option Kind
of_one none f = none
of_one (some k) f = f k

abbrev pub of_both : Option Kind → Option Kind → (Kind → Kind → Option Kind) → Option Kind
of_both none _ f = none
of_both (some k) o f = of_one o (f k)

abbrev pub of_call : Option (List Kind) → Option Kind
of_call none = none
of_call (some _) = some variant

abbrev pub push : Option Kind → Option (List Kind) → Option (List Kind)
push none _ = none
push (some k) none = none
push (some k) (some ks) = some (k ∷ ks)

abbrev mutual
  pub kind : Expression → Option Kind
  kind (variable_reference x) = some variant
  kind (get_attribute e a) = of_variant (kind e)
  kind (method_call m xs) = of_call (kinds xs)
  kind (double_literal v) = some double
  kind (integer_literal n) = some long
  kind (boolean_literal v) = some flag
  kind (string_literal t) = some text
  kind (binary_operation l r op) = of_both (kind l) (kind r) binary_kind
  kind (unary_operation e op) = of_one (kind e) (unary_kind op)
  kind (comparison l r op) = of_both (kind l) (kind r) (comparison_kind op)

  pub kinds : ExpressionList → Option (List Kind)
  kinds nil = some []
  kinds (null_argument xs) = none
  kinds (argument x xs) = push (kind x) (kinds xs)

pub of_variant_lem :
    (o : Option Kind) (k : Kind) → of_variant o ≡ some k → (o ≡ some variant) × (k ≡ variant)
of_variant_lem none k h = cc
of_variant_lem (some variant) k h = (refl, cc)
of_variant_lem (some double) k h = cc
of_variant_lem (some long) k h = cc
of_variant_lem (some flag) k h = cc
of_variant_lem (some text) k h = cc

pub of_one_lem :
    (o : Option Kind) (f : Kind → Option Kind) {k : Kind}
    → of_one o f ≡ some k
    → (j : Kind) × (o ≡ some j) × (f j ≡ some k)
of_one_lem none f h = cc
of_one_lem (some j) f h = (j, refl, h)

pub of_both_lem :
    (o o' : Option Kind) (f : Kind → Kind → Option Kind) {k : Kind}
    → of_both o o' f ≡ some k
    → (j : Kind) × (j' : Kind) × (o ≡ some j) × (o' ≡ some j') × (f j j' ≡ some k)
of_both_lem none o' f h = cc
of_both_lem (some j) none f h = cc
of_both_lem (some j) (some j') f h = (j, j', refl, refl, h)

pub of_call_lem :
    (o : Option (List Kind)) {k : Kind}
    → of_call o ≡ some k
    → (ks : List Kind) × (o ≡ some ks) × (k ≡ variant)
of_call_lem none h = cc
of_call_lem (some ks) h = (ks, refl, cc)

pub push_lem :
    (o : Option Kind) (o' : Option (List Kind)) {ks : List Kind}
    → push o o' ≡ some ks
    → (j : Kind) × (js : List Kind) × (o ≡ some j) × (o' ≡ some js) × (ks ≡ j ∷ js)
push_lem none o' h = cc
push_lem (some j) none h = cc
push_lem (some j) (some js) h = (j, js, refl, refl, cc)
