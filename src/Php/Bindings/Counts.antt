-- ===== src/Php/Bindings/Counts.antt =====
-- src/php/php_bindings.cpp: the state of the bindings, the counts of references, the check of a call,
-- and the functions that print a value or wrap it as a variant.
use b.Base.{
  ℕ, ◌+◌, Bool, true, false, Option, none, some, List, [], ◌∷◌, Str, codes, str_eq, ◌==◌,
  if◌then◌else◌,
}
use b.Base.Int.{ℤ, pos, negsuc, ◌+ℤ◌, ◌-ℤ◌, eqb_ℤ, is_zero}
use b.Llvm.{
  LlvmType, void_type, double_type, byte_pointer, int_type, struct_pointer, Value,
  function_argument, result, type_of, Opcode, M, ◌>>=◌, ◌>>◌, pure, raise, emit, insert, new_block,
  set_insert_point, cond_br, ret_void, call, unknown_type, no_refcount,
}

-- `m_variablesRefCount` and `m_forLoopMetadata`, by the number of the value
pub record PhpState : Type 0 where
  pub ref_count : ℕ → Option ℤ
  pub metadata : ℕ → Option (Value × Value)

module _ {ℓ} {A : Type ℓ} where
  abbrev pub find_at : Value → (ℕ → Option A) → Option A
  find_at (result n _) m = m n
  find_at _ m = none

  -- an entry is set, or erased
  abbrev pub put_at : Value → Option A → (ℕ → Option A) → ℕ → Option A
  put_at (result n _) a m k = if k == n then a else m k
  put_at _ a m k = m k

abbrev pub P : Type 0 → Type 0
P A = M PhpState A

abbrev pub variant_name : Str
variant_name = codes "struct._zval_struct"

abbrev pub variant_type : LlvmType
variant_type = struct_pointer variant_name

abbrev pub hash_table_type : LlvmType
hash_table_type = struct_pointer (codes "struct._hashtable")

abbrev pub is_variant_type : LlvmType → Bool
is_variant_type (struct_pointer n) = str_eq n variant_name
is_variant_type _ = false

unfoldable pub set_ref_count : Value → ℤ → P (Unit {0})
set_ref_count v c s = pure tt (record s {
  bindings = record s.bindings { ref_count = put_at v (some c) s.bindings.ref_count };
})

unfoldable pub set_metadata : Value → Option (Value × Value) → P (Unit {0})
set_metadata v m s =
    pure tt
      (record s { bindings = record s.bindings { metadata = put_at v m s.bindings.metadata } })

-- a variant that an instruction gives, with its count
unfoldable pub emit_counted : Opcode → List Value → ℤ → P Value
emit_counted op operands c = do v ← emit op operands variant_type; set_ref_count v c; pure v

-- `createRetVoidIfCallFails`
unfoldable pub create_ret_void_if_call_fails : Value → P (Unit {0})
unfolding insert new_block set_insert_point
create_ret_void_if_call_fails call_result s =
    let n = s.next_block in
    let s₁ = insert (cond_br call_result n (n + 1)) (new_block true (new_block true s)) in
    pure tt (set_insert_point n (insert ret_void (set_insert_point (n + 1) s₁)))

abbrev pub is_uncounted : ℤ → Bool
is_uncounted c = eqb_ℤ c (negsuc 0)

abbrev pub count_down : Value → ℤ → P (Unit {0})
count_down v c = do
  set_ref_count v (c -ℤ pos 1)
  if is_zero (c -ℤ pos 1)
      then (do _ ← emit (call (codes "destruct_zval")) (v ∷ []) void_type; pure tt)
      else pure tt

abbrev pub leave_counted : Value → Option ℤ → P (Unit {0})
leave_counted v none = raise no_refcount
leave_counted v (some c) = if is_uncounted c then pure tt else count_down v c

unfoldable pub variable_goes_out_of_scope : Value → P (Unit {0})
variable_goes_out_of_scope v s = leave_counted v (find_at v s.bindings.ref_count) s

abbrev pub new_reference : Value → Option ℤ → P Value
new_reference v none = raise no_refcount
new_reference v (some c) =
    if is_uncounted c then pure v else (do set_ref_count v (c +ℤ pos 1); pure v)

unfoldable pub get_new_reference_for_variable : Value → P Value
get_new_reference_for_variable v s = new_reference v (find_at v s.bindings.ref_count) s

-- `getPrintMethodForType`
abbrev pub print_method : LlvmType → Option Str
print_method double_type = some (codes "print_double")
print_method (int_type w) =
    if w == 1
    then some (codes "print_boolean")
    else if w == 64
    then some (codes "print_integer")
    else none
print_method byte_pointer = some (codes "print_string")
print_method (struct_pointer n) =
    if str_eq n variant_name then some (codes "print_variant") else none
print_method _ = none

abbrev pub print_call : Value → Option Str → P Value
print_call v none = raise unknown_type
print_call v (some f) =
    emit (call f) (v ∷ function_argument 1 (struct_pointer (codes "struct.template_buffer")) ∷ [])
      void_type

unfoldable pub create_print_call : Value → P Value
create_print_call v = print_call v (print_method (type_of v))

abbrev pub wrap_method : LlvmType → Option Str
wrap_method double_type = some (codes "set_zval_double")
wrap_method (int_type w) =
    if w == 1
    then some (codes "set_zval_bool")
    else if w == 64
    then some (codes "set_zval_int")
    else none
wrap_method byte_pointer = some (codes "set_zval_string_nocopy")
wrap_method _ = none

abbrev pub wrap_call : Value → Option Str → P Value
wrap_call v none = raise unknown_type
wrap_call v (some f) = do
  zval ← emit Opcode.alloca [] variant_type
  _ ← emit (call f) (zval ∷ v ∷ []) void_type
  set_ref_count zval (negsuc 0)
  pure zval

-- a value as a variant, if it is none: the callers' test and `wrapAsVariant`
unfoldable pub wrap_as_variant : Value → P Value
wrap_as_variant v =
    if is_variant_type (type_of v) then pure v else wrap_call v (wrap_method (type_of v))
