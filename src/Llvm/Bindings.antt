-- ===== src/Llvm/Bindings.antt =====
-- lib/backends/llvm/llvm_bindings.h: the interface that the bindings of a runtime implement.
use b.Base.{Bool, true, Option, List, Str}
use b.Ast.Expression.{BinaryOperation, UnaryOperation, ComparisonOperation}
use b.Llvm.{LlvmType, Value, State, M, new_block, set_insert_point}

pub record Bindings (B : Type 0) : Type 0 where
  pub is_variant_type : LlvmType → Bool
  pub variable_goes_out_of_scope : Value → M B (Unit {0})
  pub get_new_reference_for_variable : Value → M B Value
  pub create_print_call : Value → M B Value
  pub create_for_loop_init : Value → M B Value
  pub create_for_loop_cleanup : Value → M B (Unit {0})
  pub create_for_loop_next_iteration : Value → M B Value
  -- the key and the value, each where it is asked for
  pub create_for_loop_get_variables : Value → Bool → Bool → M B (Option Value × Option Value)
  pub create_variant_comparison : ComparisonOperation → Value → Value → M B Value
  pub create_variant_binary_operation : BinaryOperation → Value → Value → M B Value
  pub create_variant_unary_operation : UnaryOperation → Value → M B Value
  pub create_variable_lookup : Str → M B Value
  pub create_method_call : Str → List Value → M B Value
  pub create_get_attribute : Str → Value → M B Value
  pub function_teardown : M B (Unit {0})

module _ {B : Type 0} where
  -- the block "entry"
  unfoldable pub function_setup : State B → State B
  unfolding new_block set_insert_point
  function_setup s = set_insert_point s.next_block (new_block true s)
