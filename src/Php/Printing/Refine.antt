-- ===== src/Php/Printing/Refine.antt =====
-- What the compiled template prints is rendered whole and in order, whatever the buffer does.
use b.Base.{
  ℕ, ◌+◌, ◌^◌, ◌≤◌, ◌<◌, ◌≡◌, ◌≢◌, refl, ap, ◌∙◌, sym, Bool, true, false, [], List, ◌∷◌, ◌++◌,
  append_assoc, append-nil, Str, codes, ok, length, length-append, arith,
}
use b.Passes.Convert
use b.Php.{Zend, ZendType, is_string, is_object, is_array, is_other}
use b.Php.Buffer.{TemplateBuffer, add_to_buffer}
use b.Php.Buffer.Refine.{contents, IsValid, Reallocates, Fits, add_to_buffer_lem}
use b.Php.Printing.{
  Output, double, boolean, integer, text, variant, print_boolean, print_string, print_typed,
  print_output, print_outputs, new_buffer, render_template,
}

module _ {Z H P : Type 0} (z : Zend Z H P) where
  -- The specification: the text of each output, and of a run their concatenation. A variant that is
  -- a string is its bytes, any other is converted.
  abbrev variant_text : ZendType → Z → Str
  variant_text is_string v = z.string_value v
  variant_text _ v = z.string_value (z.convert_to_string v)

  abbrev pub text_of : Output Z → Str
  text_of (double v) = z.string_value (z.convert_to_string (z.of_double v))
  text_of (boolean true) = codes "1"
  text_of (boolean false) = []
  text_of (integer n) = z.string_value (z.convert_to_string (z.of_long n))
  text_of (text s) = s
  text_of (variant v) = variant_text (z.type_of v) v

  abbrev pub texts_of : List (Output Z) → Str
  texts_of [] = []
  texts_of (o ∷ os) = text_of o ++ texts_of os

  -- Every text fits an `int` with its NUL byte, and all together an allocation of `n` bytes more.
  abbrev pub AllFit : List (Output Z) → ℕ → Type 0
  AllFit [] n = n < 2 ^ 64
  AllFit (o ∷ os) n = (length (text_of o) + 1 < 2 ^ 31) × AllFit os (n + length (text_of o) + 257)

  AllFit-bound : (os : List (Output Z)) (n : ℕ) → AllFit os n → n < 2 ^ 64
  AllFit-bound [] n h = h
  AllFit-bound (o ∷ os) n h = omega (arith, AllFit-bound os _ h.1)

  AllFit-less : (os : List (Output Z)) (n m : ℕ) → m ≤ n → AllFit os n → AllFit os m
  AllFit-less [] n m le h = omega arith
  AllFit-less (o ∷ os) n m le h =
      (h.0, AllFit-less os (n + length (text_of o) + 257) _ (omega arith) h.1)

  -- What the code relies on: the bytes of a string that `ZVAL_STRING` made are those given.
  abbrev pub KeepsStrings : Type 0
  KeepsStrings = (s : Str) → z.string_value (z.of_string s) ≡ s

  module _ (erealloc : Str → ℕ → Str) (keeps : KeepsStrings) where
    -- Two texts of different lengths leave different contents.
    two_texts :
        (s t : Str) (b : TemplateBuffer)
        → Reallocates erealloc
        → IsValid b
        → Fits s b
        → Fits t b
        → length s ≢ length t
        → (b₁ : TemplateBuffer) × (b₂ : TemplateBuffer) × (add_to_buffer erealloc s b ≡ ok b₁)
          × (add_to_buffer erealloc t b ≡ ok b₂)
          × (contents b₁ ≢ contents b₂)
    two_texts s t b e v f g differ =
        let (b₁, run₁, added₁) = add_to_buffer_lem e s b v f in
        let (b₂, run₂, added₂) = add_to_buffer_lem e t b v g in
        (
          b₁,
          b₂,
          run₁,
          run₂,
          λ same. differ (
              omega (
                arith,
                ap length same,
                ap length added₁.text,
                ap length added₂.text,
                length-append (contents b) s,
                length-append (contents b) t,
              )),
        )

    print_typed_lem :
        (t : ZendType) (v : Z) (b : TemplateBuffer)
        → print_typed z erealloc t v b ≡ add_to_buffer erealloc (variant_text t v) b
    print_typed_lem is_string v b = refl
    print_typed_lem is_object v b = refl
    print_typed_lem is_array v b = refl
    print_typed_lem is_other v b = refl

    print_output_lem :
        (o : Output Z) (b : TemplateBuffer)
        → print_output z erealloc o b ≡ add_to_buffer erealloc (text_of o) b
    unfolding print_output
    print_output_lem (double v) b = refl
    print_output_lem (boolean true) b = rw (keeps (codes "1"))
    print_output_lem (boolean false) b = rw (keeps [])
    print_output_lem (integer n) b = refl
    print_output_lem (text s) b = rw (keeps s)
    print_output_lem (variant v) b = print_typed_lem (z.type_of v) v b

    print_outputs_lem :
        (os : List (Output Z)) (b : TemplateBuffer)
        → Reallocates erealloc
        → IsValid b
        → AllFit os b.allocated_length
        → (b' : TemplateBuffer) × (print_outputs z erealloc os b ≡ ok b')
          × IsValid b'
          × (contents b' ≡ contents b ++ texts_of os)
    unfolding print_outputs
    print_outputs_lem [] b e v h = (b, refl, v, sym (append-nil _))
    print_outputs_lem (o ∷ os) b e v h =
        let fits : Fits (text_of o) b = record { in_int = h.0; in_size = AllFit-bound os _ h.1 } in
        let (b₁, step, added) = add_to_buffer_lem e (text_of o) b v fits in
        let (b', rest, valid, written) =
          print_outputs_lem os b₁ e added.valid (AllFit-less os _ _ added.allocated h.1) in
        (
          b',
          rw (print_output_lem o b, step) rest,
          valid,
          written
              ∙ ap (λ t. t ++ texts_of os) added.text
              ∙ append_assoc (contents b) (text_of o) (texts_of os),
        )

    -- `Template::render` gives exactly the texts of the outputs of the compiled template, one after
    -- the other: the buffer, which starts with 200 bytes and grows on the way, is written only
    -- inside its allocation and loses nothing. The texts are taken to fit the counters, the engine's
    -- emalloc to give as many bytes as asked for, its erealloc to keep what is there, and its
    -- strings to have the bytes that they are made of.
    pub render_template-texts_of :
        (emalloc : ℕ → Str) (os : List (Output Z))
        → Reallocates erealloc
        → ((n : ℕ) → length (emalloc n) ≡ n)
        → AllFit os 200
        → render_template emalloc (print_outputs z erealloc os) ≡ ok (texts_of os)
    unfolding render_template
    render_template-texts_of emalloc os e allocates h =
        let valid : IsValid (new_buffer emalloc) = record {
          allocation = allocates 200;
          inside = omega arith;
        } in
        let (b', run, _, shown) = print_outputs_lem os (new_buffer emalloc) e valid h in
        rw run (ap ok shown)

    -- A Boolean is printed as "1" or as nothing, but the pass that turns printed literals into raw
    -- blocks makes it "true" or "false": for both Booleans, and every valid buffer that the two
    -- texts fit, both calls return and the texts that they leave differ. The engine's erealloc is
    -- taken to keep what is there, and its strings to have the bytes that they are made of.
    pub print_boolean-ne-converted :
        (v : Bool) (b : TemplateBuffer)
        → Reallocates erealloc
        → IsValid b
        → b.allocated_length + 263 < 2 ^ 64
        → (b₁ : TemplateBuffer) × (b₂ : TemplateBuffer) × (print_boolean z erealloc v b ≡ ok b₁)
          × (print_string z erealloc (Convert.print_boolean v) b ≡ ok b₂)
          × (contents b₁ ≢ contents b₂)
    print_boolean-ne-converted true b e valid h =
        two_texts (z.string_value (z.of_string (codes "1")))
          (z.string_value (z.of_string (codes "true"))) b e valid
          (rw (keeps (codes "1")) (omega arith)) (rw (keeps (codes "true")) (omega arith))
          (λ same.
            omega (arith, same, ap length (keeps (codes "1")), ap length (keeps (codes "true"))))
    print_boolean-ne-converted false b e valid h =
        two_texts (z.string_value (z.of_string [])) (z.string_value (z.of_string (codes "false"))) b
          e valid (rw (keeps []) (omega arith)) (rw (keeps (codes "false")) (omega arith))
          (λ same. omega (arith, same, ap length (keeps []), ap length (keeps (codes "false"))))
