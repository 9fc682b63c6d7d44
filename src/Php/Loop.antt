-- ===== src/Php/Loop.antt =====
-- Loops over PHP values: `forloop_init`, `forloop_getvalues` and `forloop_next` of
-- src/php/php_bindings_functions.c. `run_loop` and `loop_block` are no code of the program: they call
-- the three in the order that the picture above `LLVMVisitor::for_block` of
-- lib/backends/llvm/llvm_visitor.cpp gives, which compiled templates follow.
pub mod Visits
use b.Base.{
  ℕ, zero, suc, Bool, true, false, ◌&&◌, not, Option, none, some, List, [], ◌∷◌, Outcome, ok,
  out_of_fuel, ◌>>=◌, ltb, if◌then◌else◌,
}
use b.Php.{Zend, ZendType, is_object, is_array, is_string, is_other}

module _ {Z H P : Type 0} (z : Zend Z H P) where
  abbrev started : H → Option (H × P)
  started ht = if ltb 0 (z.num_elements ht) then some (ht, z.pointer_reset ht) else none

  abbrev init_typed : ZendType → Z → Option (H × P)
  init_typed is_object value = started (z.object_properties value)
  init_typed is_array value = started (z.array_value value)
  init_typed is_string value = none
  init_typed is_other value = none

  -- the table, if it has elements, and the position that `ht_pos` is set to
  unfoldable pub forloop_init : Z → Option (H × P)
  forloop_init value = init_typed (z.type_of value) value

  abbrev current_value : Option Z → Z
  current_value none = z.null_value
  current_value (some v) = v

  -- the key and the value, where both are asked for
  unfoldable pub forloop_getvalues : H → P → Z × Z
  forloop_getvalues ht ht_pos = (z.current_key ht ht_pos, current_value (z.current_data ht ht_pos))

  -- the position behind this one, if there is one
  abbrev next_position : Option P → Option P
  next_position none = none
  next_position (some p) = if z.is_end p then none else some p

  unfoldable pub forloop_next : H → P → Option P
  forloop_next ht ht_pos = next_position (z.move_forward ht ht_pos)

  -- The order of the calls in a loop: the body for each key and value, or the other branch. The block
  -- "loop" is entered with a position, and jumps back to itself while there is a next one.
  unfoldable pub loop_block {ℓ} : {S : Type ℓ} → (Z → Z → S → Outcome S) → H → ℕ → P → S → Outcome S
  loop_block body ht zero ht_pos s = out_of_fuel
  loop_block body ht (suc fuel) ht_pos s = do
    let (key, value) = forloop_getvalues ht ht_pos
    s' ← body key value s
    elim (forloop_next ht ht_pos) [ none ↦ ok s' | some p ↦ loop_block body ht fuel p s' ]

  unfoldable pub run_loop {ℓ} :
      {S : Type ℓ} → ℕ → Z → (Z → Z → S → Outcome S) → (S → Outcome S) → S → Outcome S
  run_loop fuel iterable body else_body s = elim (forloop_init iterable) [
    | none ↦ else_body s
    | some (ht, p) ↦ loop_block body ht fuel p s
  ]
