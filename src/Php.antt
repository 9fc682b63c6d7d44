-- ===== src/Php.antt =====
-- The PHP extension: the runtime functions of src/php/php_bindings_functions.c, which the code of a
-- compiled template calls, and the methods of src/php/php_b2.cpp that use them.
--
-- The Zend engine is outside the repository and is the parameter `Zend`: `Z` are its values, `H` its
-- hash tables and `P` the positions in them; a function that fails gives `none`.
pub mod Buffer
pub mod Printing
pub mod Operations
pub mod Tables
pub mod Loop
pub mod Bindings
pub mod Engine
use b.Base.{ℕ, Bool, Option, List, Str}
use b.Base.Int.{ℤ}

-- `Z_TYPE_P`, as far as the code looks at it
pub data ZendType : Type 0 where
  is_string is_object is_array is_other : ZendType

pub record Zend (Z H P : Type 0) : Type 0 where
  pub type_of : Z → ZendType
  -- the bytes that `Z_STRVAL_P` and `Z_STRLEN_P` give
  pub string_value : Z → Str
  -- `Z_OBJPROP_P` and `Z_ARRVAL_P`
  pub object_properties : Z → H
  pub array_value : Z → H
  pub of_double : ℕ → Z
  pub of_long : ℤ → Z
  pub of_bool : Bool → Z
  pub of_string : Str → Z
  -- `zval_used_for_init`
  pub null_value : Z
  pub convert_to_string : Z → Z
  pub is_true : Z → Bool
  pub compare_function : Z → Z → Option ℤ
  pub add_function : Z → Z → Option Z
  pub sub_function : Z → Z → Option Z
  pub mul_function : Z → Z → Option Z
  pub div_function : Z → Z → Option Z
  pub mod_function : Z → Z → Option Z
  pub boolean_not_function : Z → Option Z
  pub hash_find : H → Str → Option Z
  pub hash_add : H → Str → Z → Option H
  pub num_elements : H → ℕ
  pub pointer_reset : H → P
  pub current_data : H → P → Option Z
  pub current_key : H → P → Z
  pub move_forward : H → P → Option P
  -- whether the position is the null pointer
  pub is_end : P → Bool
  pub is_callable : Z → Bool
  pub call_user_function : Z → List Z → Option Z
