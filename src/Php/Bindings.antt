-- ===== src/Php/Bindings.antt =====
-- src/php/php_bindings.cpp: the bindings of the LLVM visitor for PHP. They count the references of
-- the variants that instructions give, and keep the table and the position of each running loop.
-- The functions that they call are taken to be in the module. A value that is no result of an
-- instruction has no entry in their maps.
pub mod Counts
pub mod References
pub mod Operators
pub mod Loops
pub mod Lawful
use b.Base.{
  ℕ, ◌+◌, Bool, true, false, ◌||◌, not, Option, none, some, List, [], ◌∷◌, Str, codes, str_eq,
  length, ◌==◌, if◌then◌else◌,
}
use b.Base.Int.{ℤ, pos, negsuc, ◌+ℤ◌, ◌-ℤ◌, eqb_ℤ, is_zero}
use b.Ast.Expression.{
  BinaryOperation, UnaryOperation, ComparisonOperation, binary_code, unary_code, comparison_code,
  not_equal,
}
use b.Llvm
use b.Llvm.{
  insert, ret_void, LlvmType, void_type, double_type, byte_pointer, pointer_pointer, int_type,
  struct_pointer, Value, constant_int, global_string, null_pointer, function_argument, result,
  type_of, Opcode, State, M, ◌>>=◌, ◌>>◌, pure, raise, break, emit, insert, new_block,
  set_insert_point, cond_br, ret_void, call, unknown_type, no_refcount,
}
use b.Llvm.Bindings.{Bindings}
pub use b.Php.Bindings.Counts.{
  PhpState, find_at, put_at, P, variant_name, variant_type, hash_table_type, is_variant_type,
  is_uncounted, count_down, leave_counted, new_reference, print_method, print_call, wrap_method,
  wrap_call,
}
unfoldable pub use b.Php.Bindings.Counts.{
  set_ref_count, set_metadata, emit_counted, create_ret_void_if_call_fails,
  variable_goes_out_of_scope, get_new_reference_for_variable, create_print_call, wrap_as_variant,
}

-- The callee takes the pointer to a variant.
unfoldable pub create_for_loop_init : Value → P Value
create_for_loop_init iterable =
    if is_variant_type (type_of iterable)
    then (do
      hash_position ← emit Opcode.alloca [] pointer_pointer
      hash_table ←
          emit (call (codes "forloop_init")) (iterable ∷ hash_position ∷ []) hash_table_type
      set_metadata iterable (some (hash_table, hash_position))
      emit (Opcode.icmp not_equal) (hash_table ∷ null_pointer hash_table_type ∷ []) (int_type 1))
    else break

unfoldable pub create_for_loop_cleanup : Value → P (Unit {0})
create_for_loop_cleanup iterable = set_metadata iterable none

-- where there is no entry, `operator[]` makes one of null pointers, which no call takes
abbrev next_call : Option (Value × Value) → P Value
next_call none = break
next_call (some (table, position)) =
    emit (call (codes "forloop_next")) (table ∷ position ∷ []) (int_type 1)

unfoldable pub create_for_loop_next_iteration : Value → P Value
create_for_loop_next_iteration iterable s = next_call (find_at iterable s.bindings.metadata) s

abbrev variable_slot : Bool → P Value
variable_slot asked =
    if asked then emit Opcode.alloca [] pointer_pointer else pure (null_pointer pointer_pointer)

abbrev loaded_variable : Bool → Value → ℤ → P (Option Value)
loaded_variable asked slot c =
    if asked then (do v ← emit_counted Opcode.load (slot ∷ []) c; pure (some v)) else pure none

abbrev variables_call : Bool → Bool → Option (Value × Value) → P (Option Value × Option Value)
variables_call key value none = break
variables_call key value (some (table, position)) = do
  key_slot ← variable_slot key
  value_slot ← variable_slot value
  _ ←
      emit (call (codes "forloop_getvalues")) (table ∷ position ∷ value_slot ∷ key_slot ∷ [])
        void_type
  k ← loaded_variable key key_slot (pos 1)
  v ← loaded_variable value value_slot (negsuc 0)
  pure (k, v)

unfoldable pub create_for_loop_get_variables : Value → Bool → Bool → P (Option Value × Option Value)
create_for_loop_get_variables iterable key value s =
    variables_call key value (find_at iterable s.bindings.metadata) s

-- the call of an operator of the runtime, with the slot of its result; the template returns where
-- the call fails
unfoldable pub operator_call : LlvmType → Str → (Value → List Value) → P Value
operator_call slot_type f operands = do
  slot ← emit Opcode.alloca [] slot_type
  call_result ← emit (call f) (operands slot) (int_type 1)
  create_ret_void_if_call_fails call_result
  pure slot

unfoldable pub create_variant_comparison : ComparisonOperation → Value → Value → P Value
create_variant_comparison op left right = do
  l ← wrap_as_variant left
  r ← wrap_as_variant right
  slot ←
      operator_call byte_pointer (codes "compare_variant")
        (λ slot. constant_int 16 (pos (comparison_code op)) ∷ slot ∷ l ∷ r ∷ [])
  byte ← emit Opcode.load (slot ∷ []) (int_type 8)
  bit ← emit Opcode.trunc (byte ∷ []) (int_type 1)
  variable_goes_out_of_scope l
  variable_goes_out_of_scope r
  pure bit

unfoldable pub create_variant_binary_operation : BinaryOperation → Value → Value → P Value
create_variant_binary_operation op left right = do
  l ← wrap_as_variant left
  r ← wrap_as_variant right
  slot ←
      operator_call pointer_pointer (codes "binary_variant_operation")
        (λ slot. constant_int 8 (pos (binary_code op)) ∷ slot ∷ l ∷ r ∷ [])
  v ← emit_counted Opcode.load (slot ∷ []) (pos 1)
  variable_goes_out_of_scope l
  variable_goes_out_of_scope r
  pure v

unfoldable pub create_variant_unary_operation : UnaryOperation → Value → P Value
create_variant_unary_operation op value = do
  w ← wrap_as_variant value
  slot ←
      operator_call pointer_pointer (codes "unary_variant_operation")
        (λ slot. constant_int 8 (pos (unary_code op)) ∷ slot ∷ w ∷ [])
  v ← emit_counted Opcode.load (slot ∷ []) (pos 1)
  variable_goes_out_of_scope w
  pure v

-- the global string of a name, and its length
abbrev name_arguments : Str → List Value
name_arguments x = global_string x ∷ constant_int 32 (pos (length x)) ∷ []

unfoldable pub create_variable_lookup : Str → P Value
create_variable_lookup x =
    emit_counted (call (codes "get_value_from_hashtable"))
      (function_argument 0 hash_table_type ∷ name_arguments x) (negsuc 0)

unfoldable pub create_get_attribute : Str → Value → P Value
create_get_attribute a variable = do
  v ← emit_counted (call (codes "get_attribute")) (variable ∷ name_arguments a) (negsuc 0)
  variable_goes_out_of_scope variable
  pure v

-- The arguments are stored in an array; those that had to be wrapped are to be destroyed.
unfoldable pub store_arguments : Value → ℕ → List Value → P (List Value)
store_arguments array index [] = pure []
store_arguments array index (v ∷ vs) = do
  slot ← emit Opcode.in_bounds_gep (array ∷ constant_int 32 (pos index) ∷ []) pointer_pointer
  w ← wrap_as_variant v
  _ ← emit Opcode.store (w ∷ slot ∷ []) void_type
  rest ← store_arguments array (index + 1) vs
  pure (if is_variant_type (type_of v) then rest else w ∷ rest)

abbrev argument_array : List Value → P Value
argument_array [] = pure (null_pointer pointer_pointer)
argument_array (v ∷ vs) =
    emit Opcode.alloca (constant_int 32 (pos (length (v ∷ vs))) ∷ []) pointer_pointer

unfoldable pub leave_all : List Value → P (Unit {0})
leave_all [] = pure tt
leave_all (v ∷ vs) = do variable_goes_out_of_scope v; leave_all vs

unfoldable pub create_method_call : Str → List Value → P Value
create_method_call m vs = do
  array ← argument_array vs
  to_destroy ← store_arguments array 0 vs
  v ←
      emit_counted (call (codes "do_method_call"))
        (function_argument 2 hash_table_type
          ∷ global_string m
          ∷ constant_int 32 (pos (length m))
          ∷ constant_int 32 (pos (length vs))
          ∷ array
          ∷ [])
        (pos 1)
  leave_all to_destroy
  call_succeeded ← emit (Opcode.icmp not_equal) (v ∷ null_pointer variant_type ∷ []) (int_type 1)
  create_ret_void_if_call_fails call_succeeded
  pure v

-- The return, and the references are forgotten.
unfoldable pub function_teardown : P (Unit {0})
unfolding insert
function_teardown s =
    pure tt (record (insert ret_void s) { bindings = record s.bindings { ref_count = λ n. none } })

abbrev pub php_bindings : Bindings PhpState
php_bindings = record {
  is_variant_type = is_variant_type;
  variable_goes_out_of_scope = variable_goes_out_of_scope;
  get_new_reference_for_variable = get_new_reference_for_variable;
  create_print_call = create_print_call;
  create_for_loop_init = create_for_loop_init;
  create_for_loop_cleanup = create_for_loop_cleanup;
  create_for_loop_next_iteration = create_for_loop_next_iteration;
  create_for_loop_get_variables = create_for_loop_get_variables;
  create_variant_comparison = create_variant_comparison;
  create_variant_binary_operation = create_variant_binary_operation;
  create_variant_unary_operation = create_variant_unary_operation;
  create_variable_lookup = create_variable_lookup;
  create_method_call = create_method_call;
  create_get_attribute = create_get_attribute;
  function_teardown = function_teardown;
}
