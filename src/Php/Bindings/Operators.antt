-- ===== src/Php/Bindings/Operators.antt =====
-- The operators on variants keep to the interface of the bindings.
use b.Base.{◌+◌, ◌≡◌, refl, sym, ap, ◌∙◌, subst, some, List, [], ◌∷◌, Str, str_eq_refl, arith}
use b.Base.Int.{pos, negsuc}
use b.Ast.Expression.{BinaryOperation, UnaryOperation, ComparisonOperation}
use b.Llvm.{
  LlvmType, Value, result, type_of, int_type, byte_pointer, pointer_pointer, void_type, Opcode,
  State, ◌>>=◌, ◌>>◌, pure, emit, call,
}
use b.Llvm.Returns.{Returns, returns, Returns-bind, Returns-weaken}
use b.Llvm.Steps.{
  Kind, variant, double, long, flag, text, is_result, HasKind, HasKind-mono, IsKnown, IsKnown-mono,
  Step-refl, Step-trans,
}
use b.Llvm.Steps.Emit.{emit-Step}
use b.Llvm.Steps.Lawful.{NewVariant, Condition}
use b.Php.Bindings.{
  PhpState, P, variant_name, variant_type, is_variant_type, set_ref_count, emit_counted, wrap_call,
  wrap_as_variant, operator_call, create_variant_comparison, create_variant_binary_operation,
  create_variant_unary_operation, variable_goes_out_of_scope, create_ret_void_if_call_fails,
  php_bindings,
}
use b.Php.Bindings.References.{
  php_tracked, PhpReady, PhpStep, Stepped, set_ref_count-Step, emit_counted-New, leave-Step,
  fails-Step,
}

abbrev pub PhpKnown : State PhpState → Value → Type 0
PhpKnown s v = IsKnown php_bindings php_tracked s.bindings v

abbrev pub step_trans :
    {s s' s'' : State PhpState} → PhpReady s → PhpStep s s' → PhpStep s' s'' → PhpStep s s''
step_trans r p q = Step-trans php_bindings php_tracked r p q

-- A step that leaves a variant that the bindings know.
abbrev pub KnownStep : State PhpState → Value → State PhpState → Type 0
KnownStep s v s' = PhpStep s s' × PhpKnown s' v

-- An instruction of any kind is a step.
pub emitted :
    (op : Opcode) (operands : List Value) (ty : LlvmType) (s : State PhpState)
    → PhpReady s
    → Returns
        (λ v s'. PhpStep s s' × (v ≡ result s.next_value ty) × (s'.next_value ≡ s.next_value + 1))
        (emit op operands ty s)
emitted op operands ty s r = emit-Step php_bindings php_tracked op operands ty s r

wrap_call-Known :
    (v : Value) (f : Str) (s : State PhpState)
    → PhpReady s
    → Returns (KnownStep s) (wrap_call v (some f) s)
wrap_call-Known v f s r =
    Returns-bind (emit Opcode.alloca [] variant_type) _ s
      (emitted Opcode.alloca [] variant_type s r)
      λ w s₁ (p, is, _).
        Returns-bind (emit (call f) (w ∷ v ∷ []) void_type) _ s₁
          (emitted (call f) (w ∷ v ∷ []) void_type s₁ p.build.ready)
          λ _ s₂ (q, _, _).
            Returns-bind (set_ref_count w (negsuc 0)) _ s₂
              (set_ref_count-Step w (negsuc 0) s₂ (ap is_result is) q.build.ready)
              λ _ s₃ (u, counted, _). returns (
                step_trans r p (step_trans p.build.ready q u),
                (
                  ap (λ x. is_variant_type (type_of x)) is ∙ str_eq_refl variant_name,
                  ap is_result is,
                  counted,
                ),
              )

pub wrap-Known :
    (k : Kind) (v : Value) (s : State PhpState)
    → PhpReady s
    → HasKind php_bindings php_tracked k s.bindings v
    → Returns (KnownStep s) (wrap_as_variant v s)
unfolding wrap_as_variant
wrap-Known variant v s r h = rw h.0 (returns (Step-refl php_bindings php_tracked r, h))
wrap-Known double v s r h = rw h (wrap_call-Known v _ s r)
wrap-Known long v s r h = rw h (wrap_call-Known v _ s r)
wrap-Known flag v s r h = rw h (wrap_call-Known v _ s r)
wrap-Known text v s r h = rw h (wrap_call-Known v _ s r)

operator_call-Step :
    (ty : LlvmType) (f : Str) (operands : Value → List Value) (s : State PhpState)
    → PhpReady s
    → Returns (Stepped s) (operator_call ty f operands s)
unfolding operator_call
operator_call-Step ty f operands s r =
    Returns-bind (emit Opcode.alloca [] ty) _ s (emitted Opcode.alloca [] ty s r)
      λ slot s₁ (p, _, _).
        Returns-bind (emit (call f) (operands slot) (int_type 1)) _ s₁
          (emitted (call f) (operands slot) (int_type 1) s₁ p.build.ready)
          λ c s₂ (q, _, _).
            Returns-bind (create_ret_void_if_call_fails c) _ s₂ (fails-Step c s₂ q.build.ready)
              λ _ s₃ u. returns (step_trans r p (step_trans p.build.ready q u))

pub known_mono : (v : Value) {s s' : State PhpState} → PhpStep s s' → PhpKnown s v → PhpKnown s' v
known_mono v p h = IsKnown-mono php_bindings php_tracked v p.build h

-- A new variant stays one over a further step.
pub new_then :
    (v : Value) {s s₁ s₂ s' : State PhpState}
    → PhpReady s
    → PhpStep s s₁
    → NewVariant php_bindings php_tracked s₁ v s₂
    → PhpStep s₂ s'
    → NewVariant php_bindings php_tracked s v s'
new_then v r p (q, h, n) u = (
  step_trans r p (step_trans p.build.ready q u),
  known_mono v u h,
  (omega (arith, p.build.values_grow, n.0), omega (arith, u.build.values_grow, n.1)),
)

-- Two variants go out of scope.
leave_two :
    {A : Type 0} (a : A) (l r : Value) (s : State PhpState)
    → PhpReady s
    → PhpKnown s l
    → PhpKnown s r
    → Returns
        (λ x s'. PhpStep s s' × (x ≡ a))
        ((do variable_goes_out_of_scope l; variable_goes_out_of_scope r; pure a) s)
leave_two a l r s ready hl hr =
    Returns-bind (variable_goes_out_of_scope l) _ s (leave-Step l s ready hl) λ _ s₁ p.
      Returns-bind (variable_goes_out_of_scope r) _ s₁
        (leave-Step r s₁ p.build.ready (known_mono r p hr))
        λ _ s₂ q. returns (step_trans ready p q, refl)

-- Both operands as variants, and what follows on them.
wrapped :
    {A : Type 0} (Q : A → State PhpState → Type 0) (f : Value → Value → P A) (k k' : Kind)
    (v w : Value) (s : State PhpState)
    → PhpReady s
    → HasKind php_bindings php_tracked k s.bindings v
    → HasKind php_bindings php_tracked k' s.bindings w
    → ((l r : Value) (s' : State PhpState)
        → PhpStep s s'
        → PhpKnown s' l
        → PhpKnown s' r
        → Returns Q (f l r s'))
    → Returns Q ((do l ← wrap_as_variant v; r ← wrap_as_variant w; f l r) s)
wrapped Q f k k' v w s ready hv hw then_ =
    Returns-bind (wrap_as_variant v) _ s (wrap-Known k v s ready hv) λ l s₁ (p, hl).
      Returns-bind (wrap_as_variant w) _ s₁
        (wrap-Known k' w s₁ p.build.ready (HasKind-mono php_bindings php_tracked k' w p.build hw))
        λ r s₂ (q, hr). then_ l r s₂ (step_trans ready p q) (known_mono l q hl) hr

pub comparison-Condition :
    (op : ComparisonOperation) (k k' : Kind) (v w : Value) (s : State PhpState)
    → PhpReady s
    → HasKind php_bindings php_tracked k s.bindings v
    → HasKind php_bindings php_tracked k' s.bindings w
    → Returns (Condition php_bindings php_tracked s) (create_variant_comparison op v w s)
unfolding create_variant_comparison
comparison-Condition op k k' v w s ready hv hw =
    wrapped (Condition php_bindings php_tracked s) _ k k' v w s ready hv hw λ l r s₁ p hl hr.
      Returns-bind (operator_call byte_pointer _ _) _ s₁
        (operator_call-Step byte_pointer _ _ s₁ p.build.ready)
        λ slot s₂ q.
          Returns-bind (emit Opcode.load (slot ∷ []) (int_type 8)) _ s₂
            (emitted Opcode.load (slot ∷ []) (int_type 8) s₂ q.build.ready)
            λ byte s₃ (u, _, _).
              Returns-bind (emit Opcode.trunc (byte ∷ []) (int_type 1)) _ s₃
                (emitted Opcode.trunc (byte ∷ []) (int_type 1) s₃ u.build.ready)
                λ bit s₄ (x, is, _).
                  let y = step_trans p.build.ready q (step_trans q.build.ready u x) in
                  Returns-weaken
                    (leave_two bit l r s₄ x.build.ready (known_mono l y hl) (known_mono r y hr))
                    (λ a s' (z, same). (
                      step_trans ready p (step_trans p.build.ready y z),
                      ap type_of same ∙ ap type_of is,
                    ))

pub binary-New :
    (op : BinaryOperation) (k k' : Kind) (v w : Value) (s : State PhpState)
    → PhpReady s
    → HasKind php_bindings php_tracked k s.bindings v
    → HasKind php_bindings php_tracked k' s.bindings w
    → Returns (NewVariant php_bindings php_tracked s) (create_variant_binary_operation op v w s)
unfolding create_variant_binary_operation
binary-New op k k' v w s ready hv hw =
    wrapped (NewVariant php_bindings php_tracked s) _ k k' v w s ready hv hw λ l r s₁ p hl hr.
      Returns-bind (operator_call pointer_pointer _ _) _ s₁
        (operator_call-Step pointer_pointer _ _ s₁ p.build.ready)
        λ slot s₂ q.
          Returns-bind (emit_counted Opcode.load (slot ∷ []) (pos 1)) _ s₂
            (emit_counted-New Opcode.load (slot ∷ []) (pos 1) s₂ q.build.ready)
            λ a s₃ n.
              let y = step_trans p.build.ready q n.0 in
              Returns-weaken
                (leave_two a l r s₃ n.0.build.ready (known_mono l y hl) (known_mono r y hr))
                (λ x s' (z, same).
                  subst (λ c. NewVariant php_bindings php_tracked s c s') (sym same)
                    (new_then a ready (step_trans ready p q) n z))

pub unary-New :
    (op : UnaryOperation) (v : Value) (s : State PhpState)
    → PhpReady s
    → PhpKnown s v
    → Returns (NewVariant php_bindings php_tracked s) (create_variant_unary_operation op v s)
unfolding create_variant_unary_operation
unary-New op v s ready hv =
    Returns-bind (wrap_as_variant v) _ s (wrap-Known variant v s ready hv) λ w s₁ (p, hw).
      Returns-bind (operator_call pointer_pointer _ _) _ s₁
        (operator_call-Step pointer_pointer _ _ s₁ p.build.ready)
        λ slot s₂ q.
          Returns-bind (emit_counted Opcode.load (slot ∷ []) (pos 1)) _ s₂
            (emit_counted-New Opcode.load (slot ∷ []) (pos 1) s₂ q.build.ready)
            λ a s₃ n.
              Returns-bind (variable_goes_out_of_scope w) _ s₃
                (leave-Step w s₃ n.0.build.ready (known_mono w (step_trans p.build.ready q n.0) hw))
                λ _ s' z. returns (new_then a ready (step_trans ready p q) n z)
