-- ===== src/Php/Buffer/Refine.antt =====
-- The output buffer refines a text that only grows: `add_to_buffer` appends, and stays inside the
-- allocation.
use b.Base.{
  ℕ, ◌+◌, ◌%◌, ◌^◌, ◌≤◌, ◌<◌, ◌≡◌, refl, ap, ◌∙◌, sym, [], false, ◌∷◌, ◌++◌, Str, ok, ltb,
  if◌then◌else◌, inl, inr, Bool-cases, length, arith,
}
use b.Base.Memory.{take, write_at_lem}
use b.Php.Buffer.{TemplateBuffer, growth, needs_memory, grow, append_bytes, add_to_buffer}

-- The text that has been written.
abbrev pub contents : TemplateBuffer → Str
contents b = take b.str_length b.ptr

pub record IsValid (b : TemplateBuffer) : Type 0 where
  pub allocation : length b.ptr ≡ b.allocated_length
  pub inside : b.str_length ≤ b.allocated_length

-- Behind the text stands a NUL byte.
abbrev pub IsTerminated : TemplateBuffer → Type 0
IsTerminated b = take (b.str_length + 1) b.ptr ≡ contents b ++ 0 ∷ []

-- What the code relies on of `erealloc`: the new allocation has the length asked for, and the bytes
-- of the old one as far as it goes.
pub record Reallocates (erealloc : Str → ℕ → Str) : Type 0 where
  pub new_length : (bytes : Str) (n : ℕ) → length (erealloc bytes n) ≡ n
  pub kept :
      (bytes : Str) (n k : ℕ) → k ≤ length bytes → k ≤ n → take k (erealloc bytes n) ≡ take k bytes

-- `str` fits an `int` with its NUL byte, and the allocation stays below 2^64.
pub record Fits (str : Str) (b : TemplateBuffer) : Type 0 where
  pub in_int : length str + 1 < 2 ^ 31
  pub in_size : b.allocated_length + length str + 257 < 2 ^ 64

pub record Appended (str : Str) (b b' : TemplateBuffer) : Type 0 where
  pub valid : IsValid b'
  pub text : contents b' ≡ contents b ++ str
  pub terminated : IsTerminated b'
  pub allocated : b'.allocated_length ≤ b.allocated_length + length str + 257

-- `b'` is `b` in an allocation with room for `n` bytes and the NUL byte.
record Roomy (n : ℕ) (b b' : TemplateBuffer) : Type 0 where
  roomy_valid : IsValid b'
  same_text : contents b' ≡ contents b
  room : b'.str_length + n + 1 ≤ b'.allocated_length
  size : b'.allocated_length ≤ b.allocated_length + n + 257

chosen_growth : ℕ → ℕ
chosen_growth n = if ltb 256 (n + 1) then n + 1 else 256

growth_lem : (n : ℕ) → n + 1 < 2 ^ 31 → growth n ≡ ok (chosen_growth n)
unfolding chosen_growth
growth_lem n h = ground arith

growth_bounds : (n : ℕ) → (n + 1 ≤ chosen_growth n) × (chosen_growth n ≤ n + 257)
unfolding chosen_growth
growth_bounds n = ground arith

-- The two writes, where the text and the NUL byte fit.
append_bytes_lem :
    (str : Str) (b : TemplateBuffer)
    → IsValid b
    → b.str_length + length str + 1 ≤ b.allocated_length
    → b.allocated_length < 2 ^ 64
    → (b' : TemplateBuffer) × (append_bytes str b ≡ ok b')
      × IsValid b'
      × (contents b' ≡ contents b ++ str)
      × IsTerminated b'
      × (b'.allocated_length ≡ b.allocated_length)
append_bytes_lem str b v room small =
    let (m, w) = write_at_lem b.ptr b.str_length str (omega arith) in
    let (m', w') = write_at_lem m (b.str_length + length str) (0 ∷ []) (omega arith) in
    let no_wrap : (b.str_length + length str) % 2 ^ 64 ≡ b.str_length + length str = omega arith in
    let kept = w'.before ∙ w.through in
    (
      record b { ptr = m'; str_length = b.str_length + length str },
      rw (w.written, no_wrap, w'.written),
      record { allocation = w'.same_length ∙ w.same_length ∙ v.allocation; inside = omega arith },
      kept,
      w'.through ∙ ap (λ t. t ++ 0 ∷ []) (w.through ∙ sym kept),
      refl,
    )

module _ {erealloc : Str → ℕ → Str} (e : Reallocates erealloc) where
  grow_lem :
      (str : Str) (b : TemplateBuffer)
      → IsValid b
      → Fits str b
      → (b' : TemplateBuffer) × (grow erealloc b (length str) ≡ ok b') × Roomy (length str) b b'
  grow_lem str b v f =
      let n = chosen_growth (length str) in
      let (enough, most) = growth_bounds (length str) in
      let no_wrap : (b.allocated_length + n) % 2 ^ 64 ≡ b.allocated_length + n = omega arith in
      (
        record b {
          ptr = erealloc b.ptr (b.allocated_length + n);
          allocated_length = b.allocated_length + n;
        },
        rw (growth_lem (length str) f.in_int, no_wrap),
        record {
          roomy_valid = record { allocation = e.new_length _ _; inside = omega arith };
          same_text = e.kept _ _ b.str_length (omega arith) (omega arith);
          room = omega arith;
          size = omega arith;
        },
      )

  -- Where the test finds room there is room.
  stay_lem :
      (str : Str) (b : TemplateBuffer)
      → IsValid b
      → Fits str b
      → needs_memory b (length str) ≡ false
      → Roomy (length str) b b
  stay_lem str b v f h = record {
    roomy_valid = v;
    same_text = refl;
    room = ground arith;
    size = omega arith;
  }

  append-Roomy :
      (str : Str) {b grown : TemplateBuffer}
      → Roomy (length str) b grown
      → Fits str b
      → (b' : TemplateBuffer) × (append_bytes str grown ≡ ok b') × Appended str b b'
  append-Roomy str {b} {grown} r f =
      let (b', run, valid, text, ended, same) =
        append_bytes_lem str grown r.roomy_valid r.room (omega arith) in
      (
        b',
        run,
        record {
          valid = valid;
          text = text ∙ ap (λ t. t ++ str) r.same_text;
          terminated = ended;
          allocated = omega arith;
        },
      )

  pub add_to_buffer_lem :
      (str : Str) (b : TemplateBuffer)
      → IsValid b
      → Fits str b
      → (b' : TemplateBuffer) × (add_to_buffer erealloc str b ≡ ok b') × Appended str b b'
  unfolding add_to_buffer
  add_to_buffer_lem str b v f = elim (Bool-cases (needs_memory b (length str))) [
    | inl more ↦
        let (grown, run, roomy) = grow_lem str b v f in
        let (b', done, added) = append-Roomy str roomy f in (b', rw (more, run) done, added)
    | inr enough ↦
        let (b', done, added) = append-Roomy str (stay_lem str b v f enough) f in
        (b', rw enough done, added)
  ]
