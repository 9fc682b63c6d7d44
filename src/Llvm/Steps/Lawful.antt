-- ===== src/Llvm/Steps/Lawful.antt =====
-- What the visitor relies on of the bindings of a runtime: each operation, at an open insertion
-- point and on values that they know, returns and leaves the function well formed.
use b.Base.{
  ℕ, ◌≤◌, ◌<◌, ◌≡◌, Bool, true, false, Option, none, some, List, [], ◌∷◌, Str, ◌==◌, if◌then◌else◌,
}
use b.Ast.Expression.{BinaryOperation, UnaryOperation, ComparisonOperation}
use b.Llvm.{insert, ret_void, double_type, int_type, byte_pointer, Value, type_of, State}
use b.Llvm.Bindings.{Bindings}
use b.Llvm.Returns.{Returns}
use b.Llvm.Steps.{Kind, Tracked, number, Ready, Build, Step, IsKnown, HasKind}

module _ {B : Type 0} (b : Bindings B) (t : Tracked B) where
  -- A value of after `s` that is one of `s'`.
  abbrev pub IsNew : State B → State B → Value → Type 0
  IsNew s s' v = (s.next_value ≤ number v) × (number v < s'.next_value)

  -- A new variant, or a condition, and what the operation leaves.
  abbrev pub NewVariant : State B → Value → State B → Type 0
  NewVariant s v s' = Step b t s s' × IsKnown b t s'.bindings v × IsNew s s' v

  abbrev pub Condition : State B → Value → State B → Type 0
  Condition s v s' = Step b t s s' × (type_of v ≡ int_type 1)

  -- The variable of a loop, if it was asked for.
  abbrev pub Asked : State B → State B → Bool → Option Value → Type 0
  Asked s s' true (some v) = IsKnown b t s'.bindings v × IsNew s s' v
  Asked s s' true none = ⊥
  Asked s s' false v = v ≡ none

  abbrev pub AllKnown : State B → List Kind → List Value → Type 0
  AllKnown s [] [] = Unit
  AllKnown s (k ∷ ks) (v ∷ vs) = HasKind b t k s.bindings v × AllKnown s ks vs
  AllKnown s _ _ = ⊥

  -- The number of a value joins those that a loop runs over, or leaves them.
  abbrev pub LoopSet : ℕ → Bool → State B → State B → Type 0
  LoopSet n on s s' =
      (m : ℕ) → t.looping s'.bindings m ≡ (if m == n then on else t.looping s.bindings m)

  -- The block of the insertion point has got its return, and what the bindings keep of the function
  -- may be forgotten.
  pub record TornDown (s s' : State B) : Type 0 where
    pub blocks : s'.block ≡ (insert ret_void s).block
    pub same_next : s'.next_block ≡ s.next_block
    pub same_variables : s'.overriden ≡ s.overriden
    pub same_loops : (n : ℕ) → t.looping s'.bindings n ≡ t.looping s.bindings n

  pub record Lawful : Type 0 where
    pub double_no_variant : b.is_variant_type double_type ≡ false
    pub int_no_variant : (w : ℕ) → b.is_variant_type (int_type w) ≡ false
    pub text_no_variant : b.is_variant_type byte_pointer ≡ false
    pub goes_out :
        (v : Value) (s : State B)
        → Ready b t s
        → IsKnown b t s.bindings v
        → Returns (λ _ s'. Step b t s s') (b.variable_goes_out_of_scope v s)
    pub new_reference :
        (v : Value) (s : State B)
        → Ready b t s
        → IsKnown b t s.bindings v
        → Returns (λ v' s'. Step b t s s' × (v' ≡ v)) (b.get_new_reference_for_variable v s)
    pub print :
        (k : Kind) (v : Value) (s : State B)
        → Ready b t s
        → HasKind b t k s.bindings v
        → Returns (λ _ s'. Step b t s s') (b.create_print_call v s)
    pub loop_init :
        (v : Value) (s : State B)
        → Ready b t s
        → IsKnown b t s.bindings v
        → number v < s.next_value
        → Returns
            (λ c s'. Build b t s s' × (type_of c ≡ int_type 1) × LoopSet (number v) true s s')
            (b.create_for_loop_init v s)
    pub loop_cleanup :
        (v : Value) (s : State B)
        → Ready b t s
        → IsKnown b t s.bindings v
        → Returns
            (λ _ s'. Build b t s s' × LoopSet (number v) false s s')
            (b.create_for_loop_cleanup v s)
    pub loop_next :
        (v : Value) (s : State B)
        → Ready b t s
        → IsKnown b t s.bindings v
        → t.looping s.bindings (number v) ≡ true
        → Returns (Condition s) (b.create_for_loop_next_iteration v s)
    pub loop_variables :
        (v : Value) (key value : Bool) (s : State B)
        → Ready b t s
        → IsKnown b t s.bindings v
        → t.looping s.bindings (number v) ≡ true
        → Returns
            (λ kv s'. Step b t s s' × Asked s s' key kv.0 × Asked s s' value kv.1)
            (b.create_for_loop_get_variables v key value s)
    pub comparison :
        (op : ComparisonOperation) (k k' : Kind) (v w : Value) (s : State B)
        → Ready b t s
        → HasKind b t k s.bindings v
        → HasKind b t k' s.bindings w
        → Returns (Condition s) (b.create_variant_comparison op v w s)
    pub binary :
        (op : BinaryOperation) (k k' : Kind) (v w : Value) (s : State B)
        → Ready b t s
        → HasKind b t k s.bindings v
        → HasKind b t k' s.bindings w
        → Returns (NewVariant s) (b.create_variant_binary_operation op v w s)
    pub unary :
        (op : UnaryOperation) (v : Value) (s : State B)
        → Ready b t s
        → IsKnown b t s.bindings v
        → Returns (NewVariant s) (b.create_variant_unary_operation op v s)
    pub variable_lookup :
        (x : Str) (s : State B)
        → Ready b t s
        → Returns (NewVariant s) (b.create_variable_lookup x s)
    pub method_call :
        (m : Str) (ks : List Kind) (vs : List Value) (s : State B)
        → Ready b t s
        → AllKnown s ks vs
        → Returns (NewVariant s) (b.create_method_call m vs s)
    pub attribute :
        (a : Str) (v : Value) (s : State B)
        → Ready b t s
        → IsKnown b t s.bindings v
        → Returns (NewVariant s) (b.create_get_attribute a v s)
    pub teardown :
        (s : State B) → Ready b t s → Returns (λ _ s'. TornDown s s') (b.function_teardown s)
