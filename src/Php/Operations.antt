-- ===== src/Php/Operations.antt =====
-- The operators of src/php/php_bindings_functions.c on variants. The compiled template calls them
-- with the code of the operator.
pub mod Agrees
use b.Base.{
  ℕ, ◌+◌, ◌*◌, ◌%◌, ◌^◌, Bool, true, false, ◌&&◌, ◌||◌, not, Option, none, some, ◌==◌,
  if◌then◌else◌,
}
use b.Base.Int.{ℤ, pos, eqb_ℤ, ltb_ℤ, leb_ℤ}
use b.Php.{Zend}

-- The exception that is set, with the operator that is not known.
pub data EngineError : Type 0 where
  unknown_compare_operator unknown_binary_operator unknown_unary_operator : ℕ → EngineError

-- `true` with the result; `false`, the engine having failed; `false` after an exception was set.
pub data Answer (A : Type 0) : Type 0 where
  success : A → Answer A
  failure : Answer A
  exception : EngineError → Answer A

-- `(x << 8) | y` of two characters
abbrev str_to_short : ℕ → ℕ → ℕ
str_to_short x y = (x * 256 + y) % 2 ^ 16

-- `... == SUCCESS`
abbrev answer : {A : Type 0} → Option A → Answer A
answer none = failure
answer (some a) = success a

-- the second `switch`, on the result of `compare_function`
abbrev compare_result : ℕ → ℤ → Answer Bool
compare_result op result =
    if op == str_to_short b'=' b'='
    then success (eqb_ℤ result (pos 0))
    else if op == str_to_short b'!' b'='
    then success (not (eqb_ℤ result (pos 0)))
    else if op == str_to_short b'<' b'='
    then success (leb_ℤ result (pos 0))
    else if op == str_to_short b'>' b'='
    then success (leb_ℤ (pos 0) result)
    else if op == str_to_short b'>' 0
    then success (ltb_ℤ (pos 0) result)
    else if op == str_to_short b'<' 0
    then success (ltb_ℤ result (pos 0))
    else exception (unknown_compare_operator op)

abbrev compare_answer : ℕ → Option ℤ → Answer Bool
compare_answer op none = failure
compare_answer op (some result) = compare_result op result

module _ {Z H P : Type 0} (z : Zend Z H P) where
  unfoldable pub compare_variant : ℕ → Z → Z → Answer Bool
  compare_variant op left right =
      if op == str_to_short b'&' b'&'
      then success (z.is_true left && z.is_true right)
      else if op == str_to_short b'|' b'|'
      then success (z.is_true left || z.is_true right)
      else compare_answer op (z.compare_function left right)

  unfoldable pub binary_variant_operation : ℕ → Z → Z → Answer Z
  binary_variant_operation op left right =
      if op == b'+'
      then answer (z.add_function left right)
      else if op == b'-'
      then answer (z.sub_function left right)
      else if op == b'*'
      then answer (z.mul_function left right)
      else if op == b'/'
      then answer (z.div_function left right)
      else if op == b'%'
      then answer (z.mod_function left right)
      else exception (unknown_binary_operator op)

  unfoldable pub unary_variant_operation : ℕ → Z → Answer Z
  unary_variant_operation op value =
      if op == b'!'
      then answer (z.boolean_not_function value)
      else if op == b'+'
      then answer (z.add_function (z.of_long (pos 0)) value)
      else if op == b'-'
      then answer (z.sub_function (z.of_long (pos 0)) value)
      else exception (unknown_unary_operator op)
