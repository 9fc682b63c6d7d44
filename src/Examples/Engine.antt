-- ===== src/Examples/Engine.antt =====
-- A small engine: values without objects, whose arrays hold texts, and memory that is filled with
-- zeros. It stands for the Zend engine in the examples.
use b.Base.{
  ℕ, zero, suc, ◌≤◌, ◌≡◌, refl, ap, Bool, true, false, not, Option, none, some, List, [], ◌∷◌, Str,
  codes, find, length, if◌then◌else◌, arith,
}
use b.Base.Int.{ℤ, pos, ◌+ℤ◌, ◌-ℤ◌, ◌*ℤ◌, quot_ℤ, rem_ℤ, in_long, is_zero}
use b.Base.Memory.{take}
use b.Passes.Convert.{print_long}
use b.Php.{Zend, ZendType, is_string, is_array, is_other}
use b.Php.Buffer.Refine.{Reallocates}
use b.Php.Operations.Agrees.{sign_of_longs, sign_of_booleans, Documented}
use b.Php.Tables.Registered.{Adds}
use b.Examples.{toy}

pub data Zval : Type 0 where
  null : Zval
  bool : Bool → Zval
  long : ℤ → Zval
  double : ℕ → Zval
  string : Str → Zval
  array : List (Str × Str) → Zval

abbrev pub Table : Type 0
Table = List (Str × Zval)

abbrev type_of : Zval → ZendType
type_of (string _) = is_string
type_of (array _) = is_array
type_of _ = is_other

abbrev string_value : Zval → Str
string_value (string s) = s
string_value _ = []

abbrev convert_to_string : Zval → Zval
convert_to_string (long n) = string (print_long n)
convert_to_string (string s) = string s
convert_to_string (bool v) = string (if v then codes "1" else [])
convert_to_string _ = string []

abbrev table_of_texts : List (Str × Str) → Table
table_of_texts [] = []
table_of_texts ((k, s) ∷ xs) = (k, string s) ∷ table_of_texts xs

abbrev array_value : Zval → Table
array_value (array xs) = table_of_texts xs
array_value _ = []

abbrev is_true : Zval → Bool
is_true (bool v) = v
is_true (long n) = not (is_zero n)
is_true _ = false

abbrev compare_function : Zval → Zval → Option ℤ
compare_function (long a) (long c) = some (sign_of_longs a c)
compare_function (bool a) (bool c) = some (sign_of_booleans a c)
compare_function _ _ = none

abbrev arithmetic : (ℤ → ℤ → ℤ) → Zval → Zval → Option Zval
arithmetic f (long a) (long c) = if in_long (f a c) then some (long (f a c)) else some (double 0)
arithmetic f _ _ = none

abbrev div_function : Zval → Zval → Option Zval
div_function (long a) (long c) =
    if is_zero c
    then none
    else if is_zero (rem_ℤ a c)
    then some (long (quot_ℤ a c))
    else some (double (toy.div (toy.of_long a) (toy.of_long c)))
div_function _ _ = none

abbrev mod_function : Zval → Zval → Option Zval
mod_function (long a) (long c) = if is_zero c then none else some (long (rem_ℤ a c))
mod_function _ _ = none

abbrev add_entry : Table → Str → Zval → Option Table → Option Table
add_entry h k v (some _) = none
add_entry h k v none = some ((k, v) ∷ h)

abbrev as_added : Option Zval → Option Table
as_added none = none
as_added (some v) = some []

abbrev first_value : Table → Option Zval
first_value [] = none
first_value ((k, v) ∷ p) = some v

abbrev first_key : Table → Zval
first_key [] = null
first_key ((k, v) ∷ p) = string k

abbrev pub rest : Table → Table
rest [] = []
rest (e ∷ p) = p

abbrev no_entries : Table → Bool
no_entries [] = true
no_entries (e ∷ p) = false

-- A call of a function is the number of its arguments.
abbrev pub zend : Zend Zval Table Table
zend = record {
  type_of = type_of;
  string_value = string_value;
  object_properties = λ v. [];
  array_value = array_value;
  of_double = double;
  of_long = long;
  of_bool = bool;
  of_string = string;
  null_value = null;
  convert_to_string = convert_to_string;
  is_true = is_true;
  compare_function = compare_function;
  add_function = arithmetic ◌+ℤ◌;
  sub_function = arithmetic ◌-ℤ◌;
  mul_function = arithmetic ◌*ℤ◌;
  div_function = div_function;
  mod_function = mod_function;
  boolean_not_function = λ v. some (bool (not (is_true v)));
  hash_find = λ h k. find k h;
  hash_add = λ h k v. add_entry h k v (as_added (find k h));
  num_elements = λ h. length h;
  pointer_reset = λ h. h;
  current_data = λ h p. first_value p;
  current_key = λ h p. first_key p;
  move_forward = λ h p. some (rest p);
  is_end = no_entries;
  is_callable = λ v. true;
  call_user_function = λ f params. some (long (pos (length params)));
}

pub zend-Documented : Documented zend toy
zend-Documented = record {
  compare_longs = λ a c. refl;
  compare_booleans = λ a c. refl;
  true_boolean = λ v. refl;
  add = λ a c h. rw h;
  sub = λ a c h. rw h;
  mul = λ a c h. rw h;
  div = λ a c h k. ground (arith, h);
  mod_ = λ a c h. rw h;
}

pub zend-Adds : Adds zend
unfolding find
zend-Adds = record {
  new_key = λ h h' k v e. ground (arith, e);
  added = λ h h' k v e j. ground (arith, e);
}

-- `erealloc` keeps the bytes and adds zeros.
unfoldable pub resize : Str → ℕ → Str
resize bytes zero = []
resize [] (suc n) = 0 ∷ resize [] n
resize (x ∷ bytes) (suc n) = x ∷ resize bytes n

pub length-resize : (bytes : Str) (n : ℕ) → length (resize bytes n) ≡ n
unfolding resize
length-resize bytes zero = refl
length-resize [] (suc n) = ap suc (length-resize [] n)
length-resize (x ∷ bytes) (suc n) = ap suc (length-resize bytes n)

take-resize :
    (bytes : Str) (n k : ℕ) → k ≤ length bytes → k ≤ n → take k (resize bytes n) ≡ take k bytes
unfolding resize
take-resize bytes n zero h l = refl
take-resize bytes zero (suc k) h l = absurd (omega arith)
take-resize [] (suc n) (suc k) h l = absurd (omega arith)
take-resize (x ∷ bytes) (suc n) (suc k) h l =
    ap (λ s. x ∷ s) (take-resize bytes n k (omega arith) (omega arith))

pub resize-Reallocates : Reallocates resize
resize-Reallocates = record { new_length = length-resize; kept = take-resize }
