-- ===== src/Php/Bindings/Loops.antt =====
-- The loops of the bindings for PHP: a loop that runs over a value has an entry for it.
use b.Base.{
  ℕ, ◌<◌, ◌≡◌, refl, ap, Bool, true, false, Option, none, some, [], ◌∷◌, codes, arith, Option-cases,
  inl, inr,
}
use b.Base.Int.{ℤ, pos, negsuc}
use b.Llvm.{Value, result, type_of, int_type, pointer_pointer, void_type, Opcode, State, emit, call}
use b.Llvm.Returns.{Returns, returns, Returns-bind, Returns-weaken}
use b.Llvm.Steps.{number, is_result, Build, Build-trans, Step-refl}
use b.Llvm.Steps.Lawful.{LoopSet, Condition, Asked}
use b.Llvm.Visitor.{is_some}
use b.Php.Bindings.{
  PhpState, find_at, put_at, set_metadata, emit_counted, variable_slot, loaded_variable,
  create_for_loop_init, create_for_loop_cleanup, create_for_loop_next_iteration,
  create_for_loop_get_variables, php_bindings,
}
use b.Php.Bindings.References.{
  php_tracked, PhpReady, PhpStep, Stepped, bindings-Build, emit_counted-New,
}
use b.Php.Bindings.Operators.{PhpKnown, step_trans, emitted, known_mono}

-- An entry for the iterable is set or erased.
pub set_metadata-LoopSet :
    (v : Value) (m : Option (Value × Value)) (s : State PhpState)
    → PhpReady s
    → is_result v ≡ true
    → (is_some m ≡ true → number v < s.next_value)
    → Returns
        (λ _ s'.
          Build php_bindings php_tracked s s'
          × LoopSet php_bindings php_tracked (number v) (is_some m) s s')
        (set_metadata v m s)
unfolding set_metadata
set_metadata-LoopSet (result k ty) m s r h lt = returns (
  bindings-Build s (record s.bindings { metadata = put_at (result k ty) m s.bindings.metadata }) r
      (λ n e. e) (λ n e. ground (arith, r.bounded n, lt, e)),
  λ n. ground arith,
)
set_metadata-LoopSet _ m s r h lt = cc

-- The entry of an iterable that a loop runs over.
metadata_of :
    (v : Value) (m : ℕ → Option (Value × Value))
    → is_result v ≡ true
    → is_some (m (number v)) ≡ true
    → (e : Value × Value) × (find_at v m ≡ some e)
metadata_of (result n ty) m h k = elim (Option-cases (m n)) [
  | inl e ↦ absurd (cc)
  | inr (c, e) ↦ (c, e)
]
metadata_of _ m h k = cc

pub loop_init-LoopSet :
    (v : Value) (s : State PhpState)
    → PhpReady s
    → PhpKnown s v
    → number v < s.next_value
    → Returns
        (λ c s'.
          Build php_bindings php_tracked s s'
          × (type_of c ≡ int_type 1)
          × LoopSet php_bindings php_tracked (number v) true s s')
        (create_for_loop_init v s)
unfolding create_for_loop_init
loop_init-LoopSet v s r (a, h, k) lt = rw a (
    Returns-bind (emit Opcode.alloca [] pointer_pointer) _ s (emitted _ _ pointer_pointer s r)
      λ position s₁ (p, _, _).
        Returns-bind (emit (call (codes "forloop_init")) _ _) _ s₁ (emitted _ _ _ s₁ p.build.ready)
          λ table s₂ (q, _, _).
            Returns-bind (set_metadata v (some (table, position))) _ s₂
              (set_metadata-LoopSet v (some (table, position)) s₂ q.build.ready h
                (λ _. omega (arith, p.build.values_grow, q.build.values_grow, lt)))
              λ _ s₃ (u, l).
                Returns-weaken (emitted _ _ (int_type 1) s₃ u.ready) (λ c s' (x, is, _). (
                  Build-trans php_bindings php_tracked r p.build (
                      Build-trans php_bindings php_tracked p.build.ready q.build
                        (Build-trans php_bindings php_tracked q.build.ready u x.build)),
                  ap type_of is,
                  λ n. ground (arith, x.loops n, l n, q.loops n, p.loops n),
                )))

pub next-Condition :
    (v : Value) (s : State PhpState)
    → PhpReady s
    → PhpKnown s v
    → is_some (s.bindings.metadata (number v)) ≡ true
    → Returns (Condition php_bindings php_tracked s) (create_for_loop_next_iteration v s)
unfolding create_for_loop_next_iteration
next-Condition v s r (a, h, k) l =
    let ((table, position), e) = metadata_of v s.bindings.metadata h l in
    rw e (
      Returns-weaken
        (emitted (call (codes "forloop_next")) (table ∷ position ∷ []) (int_type 1) s r)
        (λ c s' (p, is, _). (p, ap type_of is)))

slot-Step :
    (asked : Bool) (s : State PhpState) → PhpReady s → Returns (Stepped s) (variable_slot asked s)
slot-Step true s r = Returns-weaken (emitted _ _ pointer_pointer s r) (λ w s' (p, _, _). p)
slot-Step false s r = returns (Step-refl php_bindings php_tracked r)

loaded-Asked :
    (asked : Bool) (slot : Value) (c : ℤ) (s : State PhpState)
    → PhpReady s
    → Returns
        (λ v s'. PhpStep s s' × Asked php_bindings php_tracked s s' asked v)
        (loaded_variable asked slot c s)
loaded-Asked true slot c s r =
    Returns-bind (emit_counted Opcode.load (slot ∷ []) c) _ s (emit_counted-New _ _ c s r)
      λ v s' (p, h, n). returns (p, (h, n))
loaded-Asked false slot c s r = returns (Step-refl php_bindings php_tracked r, refl)

Asked-mono :
    (asked : Bool) (v : Option Value) {s s₁ s₂ s' : State PhpState}
    → PhpStep s s₁
    → Asked php_bindings php_tracked s₁ s₂ asked v
    → PhpStep s₂ s'
    → Asked php_bindings php_tracked s s' asked v
Asked-mono true (some v) p (h, n) q = (
  known_mono v q h,
  (omega (arith, p.build.values_grow, n.0), omega (arith, q.build.values_grow, n.1)),
)
Asked-mono true none p h q = h
Asked-mono false v p h q = h

pub variables-Asked :
    (v : Value) (key value : Bool) (s : State PhpState)
    → PhpReady s
    → PhpKnown s v
    → is_some (s.bindings.metadata (number v)) ≡ true
    → Returns
        (λ kv s'.
          PhpStep s s'
          × Asked php_bindings php_tracked s s' key kv.0
          × Asked php_bindings php_tracked s s' value kv.1)
        (create_for_loop_get_variables v key value s)
unfolding create_for_loop_get_variables
variables-Asked v key value s r (a, h, k) l =
    let ((table, position), e) = metadata_of v s.bindings.metadata h l in
    rw e (
      Returns-bind (variable_slot key) _ s (slot-Step key s r) λ key_slot s₁ p.
        Returns-bind (variable_slot value) _ s₁ (slot-Step value s₁ p.build.ready)
          λ value_slot s₂ q.
            Returns-bind (emit _ _ void_type) _ s₂ (emitted _ _ void_type s₂ q.build.ready)
              λ _ s₃ (u, _, _).
                let y = step_trans r p (step_trans p.build.ready q u) in
                Returns-bind (loaded_variable key key_slot (pos 1)) _ s₃
                  (loaded-Asked key key_slot (pos 1) s₃ u.build.ready)
                  λ kv s₄ (x, ak).
                    Returns-bind (loaded_variable value value_slot (negsuc 0)) _ s₄
                      (loaded-Asked value value_slot (negsuc 0) s₄ x.build.ready)
                      λ vv s₅ (z, av). returns (
                        step_trans r y (step_trans u.build.ready x z),
                        Asked-mono key kv y ak z,
                        Asked-mono value vv (step_trans r y x) av
                            (Step-refl php_bindings php_tracked z.build.ready),
                      ))

pub cleanup-LoopSet :
    (v : Value) (s : State PhpState)
    → PhpReady s
    → PhpKnown s v
    → Returns
        (λ _ s'.
          Build php_bindings php_tracked s s'
          × LoopSet php_bindings php_tracked (number v) false s s')
        (create_for_loop_cleanup v s)
unfolding create_for_loop_cleanup
cleanup-LoopSet v s r (a, h, k) = set_metadata-LoopSet v none s r h (λ e. absurd (cc e))
