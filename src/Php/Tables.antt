-- ===== src/Php/Tables.antt =====
-- The hash tables of a PHP template: the lookup of variables, attributes and functions in
-- src/php/php_bindings_functions.c, and the registration of a function, `Engine::addFunction` of
-- src/php/php_b2.cpp. A key that the engine reads has an explicit length.
pub mod Registered
use b.Base.{
  ℕ, zero, suc, ◌+◌, Bool, Option, none, some, List, [], ◌∷◌, ◌++◌, Str, length, if◌then◌else◌,
}
use b.Base.Memory.{take}
use b.Php.{Zend, ZendType, is_string, is_object, is_array, is_other}

-- The bytes of a C string with its NUL byte, up to the length given.
abbrev key_bytes : Str → ℕ → Str
key_bytes key key_length = take key_length (key ++ 0 ∷ [])

-- What `do_method_call` returns: the value, or the null pointer, with an exception where there is no
-- such function.
pub data CallResult (Z : Type 0) : Type 0 where
  returned : Z → CallResult Z
  no_such_function : Str → CallResult Z
  call_failed : CallResult Z

-- What `addFunction` does: the new table, or an exception.
pub data Registration (H : Type 0) : Type 0 where
  registered : H → Registration H
  not_callable cannot_add : Registration H

module _ {Z H P : Type 0} (z : Zend Z H P) where
  abbrev or_null : Option Z → Z
  or_null none = z.null_value
  or_null (some v) = v

  unfoldable pub get_value_from_hashtable : H → Str → ℕ → Z
  get_value_from_hashtable map key key_length =
      or_null (z.hash_find map (key_bytes key (key_length + 1)))

  -- the table of an object or an array
  abbrev table_of : ZendType → Z → Option H
  table_of is_object v = some (z.object_properties v)
  table_of is_array v = some (z.array_value v)
  table_of _ v = none

  abbrev attribute_of : Str → ℕ → Option H → Z
  attribute_of key key_length none = z.null_value
  attribute_of key key_length (some ht) = get_value_from_hashtable ht key key_length

  unfoldable pub get_attribute : Z → Str → ℕ → Z
  unfolding get_value_from_hashtable
  get_attribute map key key_length = attribute_of key key_length (table_of (z.type_of map) map)

  abbrev call_result : Option Z → CallResult Z
  call_result none = call_failed
  call_result (some v) = returned v

  abbrev call_found : Str → List Z → Option Z → CallResult Z
  call_found name params none = no_such_function name
  call_found name params (some f) = call_result (z.call_user_function f params)

  unfoldable pub do_method_call : H → Str → ℕ → List Z → CallResult Z
  do_method_call func_table name name_length params =
      call_found name params (z.hash_find func_table (key_bytes name name_length))

  abbrev registration : Option H → Registration H
  registration none = cannot_add
  registration (some h) = registered h

  -- `addFunction`, behind the parsing of its parameters: `name` is a PHP string with its length
  unfoldable pub add_function : H → Str → Z → Registration H
  add_function functions name cb =
      if z.is_callable cb then registration (z.hash_add functions name cb) else not_callable
