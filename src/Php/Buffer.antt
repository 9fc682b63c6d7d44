-- ===== src/Php/Buffer.antt =====
-- The output buffer of a template, src/php/php_template.h and `add_to_buffer` of
-- src/php/php_bindings_functions.c.
pub mod Refine
use b.Base.{
  ℕ, Bool, ◌+◌, ◌%◌, ◌^◌, [], ◌∷◌, List, Str, Outcome, ok, undefined, ◌>>=◌, ltb, if◌then◌else◌,
  length,
}
use b.Base.Memory.{write_at}

-- `ptr` are the bytes of the allocation
pub record TemplateBuffer : Type 0 where
  pub ptr : Str
  pub str_length : ℕ
  pub allocated_length : ℕ

abbrev pub buffer_chunk_size : ℕ
buffer_chunk_size = 256

-- `str_len + 1 > BUFFER_CHUNK_SIZE ? str_len + 1 : BUFFER_CHUNK_SIZE`, in `int`: it overflows where
-- the text has 2^31 - 1 bytes
abbrev growth : ℕ → Outcome ℕ
growth str_len =
    if ltb (str_len + 1) (2 ^ 31)
    then ok (if ltb buffer_chunk_size (str_len + 1) then str_len + 1 else buffer_chunk_size)
    else undefined

-- `buffer->str_length + str_len + 1 > buffer->allocated_length`, in `size_t`
abbrev needs_memory : TemplateBuffer → ℕ → Bool
needs_memory buffer str_len =
    ltb buffer.allocated_length ((buffer.str_length + str_len + 1) % 2 ^ 64)

-- the `memcpy`, and the NUL byte behind it
abbrev append_bytes : Str → TemplateBuffer → Outcome TemplateBuffer
append_bytes str buffer = do
  copied ← write_at buffer.ptr buffer.str_length str
  let end = (buffer.str_length + length str) % 2 ^ 64
  terminated ← write_at copied end (0 ∷ [])
  ok (record buffer { ptr = terminated; str_length = end })

-- `erealloc` is the engine's: it takes the bytes of an allocation and the new length.
module _ (erealloc : Str → ℕ → Str) where
  abbrev grow : TemplateBuffer → ℕ → Outcome TemplateBuffer
  grow buffer str_len = do
    more ← growth str_len
    let new_length = (buffer.allocated_length + more) % 2 ^ 64
    ok (record buffer { ptr = erealloc buffer.ptr new_length; allocated_length = new_length })

  unfoldable pub add_to_buffer : Str → TemplateBuffer → Outcome TemplateBuffer
  add_to_buffer str buffer = do
    grown ← if needs_memory buffer (length str) then grow buffer (length str) else ok buffer
    append_bytes str grown
