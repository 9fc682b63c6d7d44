-- ===== src/Simple.antt =====
-- The C runtime of the simple bindings: src/simple/simple_variant.h and
-- src/simple/simple_bindings_functions.c. A function that flows off its end without a value is
-- undefined; what goes to the error stream is a part of the result.
pub mod Agrees
use b.Base.{
  ℕ, ◌+◌, ◌*◌, ◌%◌, ◌^◌, Bool, true, false, not, Option, none, some, List, [], ◌∷◌, ◌++◌, Str,
  codes, str_eq, Outcome, ok, undefined, ◌==◌, if◌then◌else◌,
}
use b.Base.Int.{ℤ, ◌+ℤ◌, ◌-ℤ◌, ◌*ℤ◌, quot_ℤ, rem_ℤ, in_long, is_zero}
use b.Base.Int
use b.Base.Double.{DoubleOps}
use b.Passes.Convert.{print_long}

-- `struct Variant`, with the field of its type; an array and a map are pointers
pub data Variant : Type 0 where
  no_variant : Variant
  double : ℕ → Variant
  integer : ℤ → Variant
  bool : Bool → Variant
  string : Str → Variant
  array : ℕ → Variant
  map : ℕ → Variant

abbrev type_to_string : Variant → Str
type_to_string no_variant = codes "none"
type_to_string (double _) = codes "double"
type_to_string (integer _) = codes "integer"
type_to_string (bool _) = codes "bool"
type_to_string (string _) = codes "string"
type_to_string (array _) = codes "array"
type_to_string (map _) = codes "map"

abbrev print_boolean : Bool → Str
print_boolean v = if v then codes "1" else codes "0"

-- What goes to the standard output; `print_double` is `printf("%f", v)`.
unfoldable pub print_variant : (ℕ → Str) → Variant → Str
print_variant print_double (string s) = s
print_variant print_double (double v) = print_double v
print_variant print_double (integer n) = print_long n
print_variant print_double (bool v) = print_boolean v
print_variant print_double _ = []

abbrev pub is_number : Variant → Bool
is_number (double _) = true
is_number (integer _) = true
is_number _ = false

-- The text on the error stream, and the value.
abbrev pub Reply : Type 0 → Type 0
Reply A = Outcome (Str × A)

abbrev silently {ℓ} : {A : Type ℓ} → A → Outcome (Str × A)
silently a = ok ([], a)

abbrev not_a_number : Str → Variant → Str
not_a_number side v =
    side ++ codes " isn't a double nor an integer, but a " ++ type_to_string v ++ codes "!"

-- `x | (y << 8)` of two characters
abbrev str_to_short : ℕ → ℕ → ℕ
str_to_short x y = (x + y * 256) % 2 ^ 16

module _ (d : DoubleOps) where
  -- `LEFT` and `RIGHT`: the two branches have the type `double` in common
  abbrev number : Variant → ℕ
  number (double v) = v
  number (integer n) = d.of_long n
  number _ = 0

  abbrev compare_numbers : ℕ → ℕ → ℕ → Reply Bool
  compare_numbers op left right =
      if op == str_to_short b'=' b'='
      then silently (d.eq left right)
      else if op == str_to_short b'!' b'='
      then silently (not (d.eq left right))
      else if op == str_to_short b'<' b'='
      then silently (d.le left right)
      else if op == str_to_short b'>' b'='
      then silently (d.le right left)
      else if op == str_to_short b'>' 0
      then silently (d.lt right left)
      else if op == str_to_short b'<' 0
      then silently (d.lt left right)
      else undefined

  unfoldable pub compare_variant : ℕ → Variant → Variant → Reply Bool
  compare_variant op left right =
      if not (is_number left)
      then ok (not_a_number (codes "left") left, false)
      else if not (is_number right)
      then ok (not_a_number (codes "right") right, false)
      else compare_numbers op (number left) (number right)

  abbrev double_operation : ℕ → ℕ → ℕ → Reply Variant
  double_operation op left right =
      if op == b'+'
      then silently (double (d.add left right))
      else if op == b'-'
      then silently (double (d.sub left right))
      else if op == b'*'
      then silently (double (d.mul left right))
      else if op == b'/'
      then silently (double (d.div left right))
      else undefined

  -- a result that is no `long` is undefined
  abbrev long_result : ℤ → Reply Variant
  long_result n = if in_long n then silently (integer n) else undefined

  -- so are a division by zero, and a remainder whose quotient is no `long`
  abbrev long_operation : ℕ → ℤ → ℤ → Reply Variant
  long_operation op left right =
      if op == b'+'
      then long_result (left +ℤ right)
      else if op == b'-'
      then long_result (left -ℤ right)
      else if op == b'*'
      then long_result (left *ℤ right)
      else if op == b'/'
      then (if is_zero right then undefined else long_result (quot_ℤ left right))
      else if op == b'%'
      then (if is_zero right
          then undefined
          else if in_long (quot_ℤ left right)
          then silently (integer (rem_ℤ left right))
          else undefined)
      else undefined

  abbrev number_operation : ℕ → Variant → Variant → Reply Variant
  number_operation op (integer a) (integer c) = long_operation op a c
  number_operation op left right = double_operation op (number left) (number right)

  unfoldable pub binary_variant_operation : ℕ → Variant → Variant → Reply Variant
  binary_variant_operation op left right =
      if not (is_number left)
      then ok (not_a_number (codes "left") left, integer (Int.pos 0))
      else if not (is_number right)
      then ok (not_a_number (codes "right") right, integer (Int.pos 0))
      else number_operation op left right

-- The values end with a null key; behind it, and where there is none, the code reads past their end.
unfoldable pub lookup_variable : List (Option Str × Variant) → Str → Outcome Variant
lookup_variable [] key = undefined
lookup_variable ((none, v) ∷ values) key = ok (bool false)
lookup_variable ((some k, v) ∷ values) key =
    if str_eq k key then ok v else lookup_variable values key
