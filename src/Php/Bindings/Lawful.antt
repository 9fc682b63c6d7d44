-- ===== src/Php/Bindings/Lawful.antt =====
-- The bindings for PHP keep to the interface that the visitor relies on.
use b.Base.{ℕ, ◌+◌, ◌≡◌, refl, Bool, true, false, some, List, [], ◌∷◌, Str, codes, if◌then◌else◌}
use b.Base.Int.{pos, negsuc}
use b.Llvm.{
  insert, LlvmType, struct_pointer, Value, type_of, int_type, pointer_pointer, void_type, Opcode,
  State, emit,
}
use b.Llvm.Returns.{Returns, returns, Returns-bind, Returns-weaken}
use b.Llvm.Steps.{Kind, variant, double, long, flag, text, HasKind, HasKind-mono, Step-refl}
use b.Llvm.Steps.Lawful.{TornDown, Lawful, NewVariant, AllKnown}
use b.Php.Bindings.{
  function_teardown, PhpState, is_variant_type, emit_counted, wrap_as_variant, print_method,
  print_call, create_print_call, create_variable_lookup, create_get_attribute, create_method_call,
  store_arguments, leave_all, argument_array, variable_goes_out_of_scope,
  create_ret_void_if_call_fails, php_bindings,
}
use b.Php.Bindings.References.{
  php_tracked, PhpReady, PhpStep, Stepped, emit_counted-New, leave-Step, reference-Step, fails-Step,
}
use b.Php.Bindings.Loops.{loop_init-LoopSet, next-Condition, variables-Asked, cleanup-LoopSet}
use b.Php.Bindings.Operators.{
  PhpKnown, step_trans, emitted, wrap-Known, known_mono, new_then, comparison-Condition, binary-New,
  unary-New,
}

variant_print :
    (ty : LlvmType) → is_variant_type ty ≡ true → print_method ty ≡ some (codes "print_variant")
variant_print (struct_pointer n) h = rw h
variant_print _ h = cc

print_call-Step :
    (v : Value) (f : Str) (s : State PhpState)
    → PhpReady s
    → Returns (Stepped s) (print_call v (some f) s)
print_call-Step v f s r = Returns-weaken (emitted _ _ void_type s r) (λ w s' (p, _, _). p)

print-Step :
    (k : Kind) (v : Value) (s : State PhpState)
    → PhpReady s
    → HasKind php_bindings php_tracked k s.bindings v
    → Returns (Stepped s) (create_print_call v s)
unfolding create_print_call
print-Step variant v s r h = rw (variant_print (type_of v) h.0) (print_call-Step v _ s r)
print-Step double v s r h = rw h (print_call-Step v _ s r)
print-Step long v s r h = rw h (print_call-Step v _ s r)
print-Step flag v s r h = rw h (print_call-Step v _ s r)
print-Step text v s r h = rw h (print_call-Step v _ s r)

lookup-New :
    (x : Str) (s : State PhpState)
    → PhpReady s
    → Returns (NewVariant php_bindings php_tracked s) (create_variable_lookup x s)
unfolding create_variable_lookup
lookup-New x s r = emit_counted-New _ _ (negsuc 0) s r

attribute-New :
    (a : Str) (v : Value) (s : State PhpState)
    → PhpReady s
    → PhpKnown s v
    → Returns (NewVariant php_bindings php_tracked s) (create_get_attribute a v s)
unfolding create_get_attribute
attribute-New a v s r h =
    Returns-bind (emit_counted _ _ (negsuc 0)) _ s (emit_counted-New _ _ (negsuc 0) s r) λ w s₁ n.
      Returns-bind (variable_goes_out_of_scope v) _ s₁
        (leave-Step v s₁ n.0.build.ready (known_mono v n.0 h))
        λ _ s' z. returns (new_then w r (Step-refl php_bindings php_tracked r) n z)

AllPhpKnown : State PhpState → List Value → Type 0
AllPhpKnown s [] = Unit
AllPhpKnown s (v ∷ vs) = PhpKnown s v × AllPhpKnown s vs

all_mono :
    (vs : List Value) {s s' : State PhpState} → PhpStep s s' → AllPhpKnown s vs → AllPhpKnown s' vs
unfolding AllPhpKnown
all_mono [] p h = tt
all_mono (v ∷ vs) p (h, hs) = (known_mono v p h, all_mono vs p hs)

kinds_mono :
    (ks : List Kind) (vs : List Value) {s s' : State PhpState}
    → PhpStep s s'
    → AllKnown php_bindings php_tracked s ks vs
    → AllKnown php_bindings php_tracked s' ks vs
kinds_mono [] [] p h = tt
kinds_mono (k ∷ ks) (v ∷ vs) p (h, hs) =
    (HasKind-mono php_bindings php_tracked k v p.build h, kinds_mono ks vs p hs)
kinds_mono [] (v ∷ vs) p h = h
kinds_mono (k ∷ ks) [] p h = h

wrapped_list :
    (test : Bool) (w : Value) (ws : List Value) (s : State PhpState)
    → PhpKnown s w
    → AllPhpKnown s ws
    → AllPhpKnown s (if test then ws else w ∷ ws)
unfolding AllPhpKnown
wrapped_list true w ws s h hs = hs
wrapped_list false w ws s h hs = (h, hs)

store-Known :
    (array : Value) (index : ℕ) (ks : List Kind) (vs : List Value) (s : State PhpState)
    → PhpReady s
    → AllKnown php_bindings php_tracked s ks vs
    → Returns (λ ws s'. PhpStep s s' × AllPhpKnown s' ws) (store_arguments array index vs s)
unfolding store_arguments AllPhpKnown
store-Known array index [] [] s r h = returns (Step-refl php_bindings php_tracked r, tt)
store-Known array index (k ∷ ks) [] s r h = elim h [ ]
store-Known array index [] (v ∷ vs) s r h = elim h [ ]
store-Known array index (k ∷ ks) (v ∷ vs) s r (h, hs) =
    Returns-bind (emit Opcode.in_bounds_gep _ pointer_pointer) _ s
      (emitted Opcode.in_bounds_gep _ pointer_pointer s r)
      λ slot s₁ (p, _, _).
        Returns-bind (wrap_as_variant v) _ s₁
          (wrap-Known k v s₁ p.build.ready (HasKind-mono php_bindings php_tracked k v p.build h))
          λ w s₂ (q, hw).
            Returns-bind (emit Opcode.store (w ∷ slot ∷ []) void_type) _ s₂
              (emitted Opcode.store (w ∷ slot ∷ []) void_type s₂ q.build.ready)
              λ _ s₃ (u, _, _).
                let y = step_trans r p (step_trans p.build.ready q u) in
                Returns-bind (store_arguments array (index + 1) vs) _ s₃
                  (store-Known array (index + 1) ks vs s₃ u.build.ready (kinds_mono ks vs y hs))
                  λ ws s₄ (x, known). returns (
                    step_trans r y x,
                    wrapped_list (is_variant_type (type_of v)) w ws s₄
                        (known_mono w (step_trans q.build.ready u x) hw) known,
                  )

leave_all-Step :
    (vs : List Value) (s : State PhpState)
    → PhpReady s
    → AllPhpKnown s vs
    → Returns (Stepped s) (leave_all vs s)
unfolding leave_all AllPhpKnown
leave_all-Step [] s r h = returns (Step-refl php_bindings php_tracked r)
leave_all-Step (v ∷ vs) s r (h, hs) =
    Returns-bind (variable_goes_out_of_scope v) _ s (leave-Step v s r h) λ _ s₁ p.
      Returns-weaken (leave_all-Step vs s₁ p.build.ready (all_mono vs p hs))
        (λ _ s' q. step_trans r p q)

array-Step :
    (vs : List Value) (s : State PhpState) → PhpReady s → Returns (Stepped s) (argument_array vs s)
array-Step [] s r = returns (Step-refl php_bindings php_tracked r)
array-Step (v ∷ vs) s r = Returns-weaken (emitted _ _ pointer_pointer s r) (λ w s' (p, _, _). p)

method_call-New :
    (m : Str) (ks : List Kind) (vs : List Value) (s : State PhpState)
    → PhpReady s
    → AllKnown php_bindings php_tracked s ks vs
    → Returns (NewVariant php_bindings php_tracked s) (create_method_call m vs s)
unfolding create_method_call
method_call-New m ks vs s r h =
    Returns-bind (argument_array vs) _ s (array-Step vs s r) λ array s₁ p.
      Returns-bind (store_arguments array 0 vs) _ s₁
        (store-Known array 0 ks vs s₁ p.build.ready (kinds_mono ks vs p h))
        λ ws s₂ (q, known).
          Returns-bind (emit_counted _ _ (pos 1)) _ s₂
            (emit_counted-New _ _ (pos 1) s₂ q.build.ready)
            λ v s₃ n.
              Returns-bind (leave_all ws) _ s₃
                (leave_all-Step ws s₃ n.0.build.ready (all_mono ws n.0 known))
                λ _ s₄ u.
                  Returns-bind (emit _ _ (int_type 1)) _ s₄
                    (emitted _ _ (int_type 1) s₄ u.build.ready)
                    λ c s₅ (x, _, _).
                      Returns-bind (create_ret_void_if_call_fails c) _ s₅
                        (fails-Step c s₅ x.build.ready)
                        λ _ s₆ z. returns (
                          new_then v r (step_trans r p q) n
                            (step_trans n.0.build.ready u (step_trans u.build.ready x z)))

teardown-TornDown :
    (s : State PhpState)
    → PhpReady s
    → Returns (λ _ s'. TornDown php_bindings php_tracked s s') (function_teardown s)
unfolding function_teardown insert
teardown-TornDown s r =
    returns
      (record { blocks = refl; same_next = refl; same_variables = refl; same_loops = λ n. refl })

-- The bindings for PHP keep to the interface that the visitor relies on. Each operation, on values of
-- the kinds that the visitor hands to it, returns, keeps all blocks, values and variables of before,
-- and ends with the insertion point in a block of the function that is still open. Values that the
-- operation gives as variants have a reference count, so that they can go out of scope. A comparison
-- and the tests of a loop give one bit. A loop has its entry from its start to its cleanup.
pub php-Lawful : Lawful php_bindings php_tracked
php-Lawful = record {
  double_no_variant = refl;
  int_no_variant = λ w. refl;
  text_no_variant = refl;
  goes_out = leave-Step;
  new_reference = reference-Step;
  print = print-Step;
  loop_init = loop_init-LoopSet;
  loop_cleanup = λ v s r h. cleanup-LoopSet v s r h;
  loop_next = next-Condition;
  loop_variables = variables-Asked;
  comparison = comparison-Condition;
  binary = binary-New;
  unary = unary-New;
  variable_lookup = lookup-New;
  method_call = method_call-New;
  attribute = attribute-New;
  teardown = teardown-TornDown;
}
