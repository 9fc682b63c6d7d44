-- ===== src/Examples/Texts.antt =====
-- The escape functions on small texts.
use b.Base.{◌≡◌, refl, inl, inr, Str, [], ◌∷◌, codes, ok, out_of_fuel, arith}
use b.Escape.{print_escape, javascript_escape, print_escaped, javascript_escaped}
use b.Escape.Loop.{AllBytes, escaped_text}
use b.Escape.Text.{
  IsByte, IsPrinted, print_escape-text, javascript_escape-text, javascript_escape-endless,
  print_escape-IsPrinted,
}

abbrev sample : Str
sample = codes "a\nb\t"

abbrev sample_escaped : Str
sample_escaped = codes "a\\nb\\t"

print_escaped_sample : print_escape 30 sample ≡ ok sample_escaped
unfolding print_escape
print_escaped_sample = refl

-- a byte below 32 in decimal, and DEL cut to two digits and a NUL
javascript_escaped_controls :
    javascript_escape 30 (30 ∷ 127 ∷ [])
    ≡ ok (b'\\' ∷ b'x' ∷ b'3' ∷ b'0' ∷ b'\\' ∷ b'x' ∷ b'1' ∷ b'2' ∷ 0 ∷ [])
unfolding javascript_escape
javascript_escaped_controls = refl

sample_bytes : AllBytes IsByte sample
sample_bytes = (omega arith, (omega arith, (omega arith, (omega arith, tt))))

print_escape-text_example : print_escape 30 sample ≡ ok (escaped_text print_escaped sample)
print_escape-text_example = print_escape-text 30 sample sample_bytes (omega arith)

javascript_escape-text_example :
    javascript_escape 30 sample ≡ ok (escaped_text javascript_escaped sample)
javascript_escape-text_example =
    javascript_escape-text 30 sample
      (
        (omega arith, omega arith),
        (
          (omega arith, omega arith),
          ((omega arith, omega arith), ((omega arith, omega arith), tt)),
        ),
      )
      (omega arith)

javascript_escape-endless_example : javascript_escape 1000 (codes "it's") ≡ out_of_fuel
javascript_escape-endless_example =
    javascript_escape-endless 1000 (codes "it's") (inr (inr (inl refl)))

print_escape-IsPrinted_example : AllBytes IsPrinted sample_escaped
print_escape-IsPrinted_example =
    print_escape-IsPrinted 30 sample sample_escaped sample_bytes (omega arith) print_escaped_sample
