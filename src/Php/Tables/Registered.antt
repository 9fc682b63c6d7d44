-- ===== src/Php/Tables/Registered.antt =====
-- A function that was registered is the one that a method call of a template calls.
use b.Base.{
  ◌≡◌, refl, ap, Bool, true, false, Option, none, some, List, [], ◌∷◌, Str, length, str_eq,
  if◌then◌else◌, arith,
}
use b.Php.{Zend}
use b.Php.Tables.{
  call_result, no_such_function, registered, do_method_call, add_function, key_bytes, call_found,
}

-- The name itself, without the NUL byte.
key_bytes-length : (name : Str) → key_bytes name (length name) ≡ name
key_bytes-length [] = refl
key_bytes-length (c ∷ name) = ap (λ s. c ∷ s) (key_bytes-length name)

module _ {Z H P : Type 0} (z : Zend Z H P) where
  -- What the engine documents of adding to a hash table: it fails where the key is there, and else
  -- the key has the value, and the other keys keep theirs.
  pub record Adds : Type 0 where
    pub new_key : (h h' : H) (k : Str) (v : Z) → z.hash_add h k v ≡ some h' → z.hash_find h k ≡ none
    pub added :
        (h h' : H) (k : Str) (v : Z)
        → z.hash_add h k v ≡ some h'
        → (j : Str) → z.hash_find h' j ≡ (if str_eq k j then some v else z.hash_find h j)

  added_of_registered :
      (h h' : H) (name : Str) (cb : Z)
      → add_function z h name cb ≡ registered h'
      → z.hash_add h name cb ≡ some h'
  unfolding add_function
  added_of_registered h h' name cb e = ground arith

  -- Behind a registration that succeeds, a method call of the template with that name calls the
  -- function that was registered with the values of the arguments, and a call with any other name
  -- does what it did before; and no function of that name had been there. The engine's hash tables
  -- are taken to keep what is added.
  pub do_method_call-add_function :
      (h h' : H) (name : Str) (cb : Z)
      → Adds
      → add_function z h name cb ≡ registered h'
      → (other : Str) (params : List Z)
      → (do_method_call z h' other (length other) params ≡ (
          if str_eq name other
          then call_result z (z.call_user_function cb params)
          else do_method_call z h other (length other) params))
        × (do_method_call z h name (length name) params ≡ no_such_function name)
  unfolding do_method_call add_function
  do_method_call-add_function h h' name cb a e other params =
      let e' = added_of_registered h h' name cb e in
      (
        rw (key_bytes-length other, a.added h h' name cb e' other)
            (found_or (str_eq name other) (z.hash_find h other)),
        rw (key_bytes-length name, a.new_key h h' name cb e'),
      )
    where
      found_or :
          (b : Bool) (o : Option Z)
          → call_found z other params (if b then some cb else o) ≡ (
              if b
              then call_result z (z.call_user_function cb params)
              else call_found z other params o)
      found_or true o = refl
      found_or false o = refl
