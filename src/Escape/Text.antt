-- ===== src/Escape/Text.antt =====
-- What the two escape functions return, and the texts on which the JavaScript one does not return.
use b.Base.{
  ℕ, zero, suc, ◌*◌, ◌≤◌, ◌<◌, ◌≡◌, ◌≢◌, refl, sym, ◌∙◌, ap, Bool, true, false, ◌&&◌, ◌||◌, ◌⊎◌,
  inl, inr, Option, none, some, [], ◌∷◌, ◌++◌, Str, leb, ◌==◌, ok, out_of_fuel, length,
  length-append, arith, ==_iff, subst, not,
}
use b.Escape.{print_escaped, javascript_escaped, print_escape, javascript_escape}
use b.Escape.Loop.{
  escaped_text, AllBytes, IsTame, IsPlain, Contains, bytes_with, loop-tame, loop-endless, bytes_of,
}

module _ (table : ℕ → Bool) where
  -- The table holds at every number that is less than the bound.
  table_holds : ℕ → Bool
  table_holds zero = true
  table_holds (suc bound) = table_holds bound && table bound

  table_holds-at : (bound c : ℕ) → table_holds bound ≡ true → c < bound → table c ≡ true
  unfolding table_holds
  table_holds-at zero c holds below = absurd (omega arith)
  table_holds-at (suc bound) c holds below = ground (arith, table_holds-at bound c)

abbrev is_none : Option Str → Bool
is_none none = true
is_none (some e) = false

abbrev all_plain : (ℕ → Option Str) → Str → Bool
all_plain escaped [] = true
all_plain escaped (e ∷ es) = is_none (escaped e) && all_plain escaped es

abbrev tame_replacement : (ℕ → Option Str) → Option Str → Bool
tame_replacement escaped none = true
tame_replacement escaped (some []) = false
tame_replacement escaped (some (e ∷ es)) = all_plain escaped es && leb (length es) 4

all_plain_sound :
    (escaped : ℕ → Option Str) (es : Str) → all_plain escaped es ≡ true → IsPlain escaped es
all_plain_sound escaped [] h = tt
all_plain_sound escaped (e ∷ es) h = ground (arith, all_plain_sound escaped es)

IsTame-sound :
    (escaped : ℕ → Option Str) (c : ℕ) (o : Option Str)
    → escaped c ≡ o
    → tame_replacement escaped o ≡ true
    → IsTame escaped c
IsTame-sound escaped c none eq h = inl eq
IsTame-sound escaped c (some []) eq h = cc
IsTame-sound escaped c (some (e ∷ es)) eq h =
    inr (e, es, eq, all_plain_sound escaped es (ground arith), ground arith)

print_table : table_holds (λ c. tame_replacement print_escaped (print_escaped c)) 256 ≡ true
unfolding table_holds print_escaped
print_table = refl

javascript_table :
    table_holds (λ c. c == 39 || tame_replacement javascript_escaped (javascript_escaped c)) 256
    ≡ true
unfolding table_holds javascript_escaped
javascript_table = refl

abbrev pub IsByte : ℕ → Type 0
IsByte c = c < 256

print-IsTame : (c : ℕ) → IsByte c → IsTame print_escaped c
print-IsTame c h =
    IsTame-sound print_escaped c (print_escaped c) refl (table_holds-at _ 256 c print_table h)

javascript-IsTame : (c : ℕ) → IsByte c → c ≢ 39 → IsTame javascript_escaped c
javascript-IsTame c h ne =
    IsTame-sound javascript_escaped c (javascript_escaped c) refl (
      no_quote (c == 39) _ (λ e. ne ((==_iff c 39).0 e))
        (table_holds-at _ 256 c javascript_table h))
  where
    no_quote : (q t : Bool) → (q ≡ true → ⊥) → (q || t) ≡ true → t ≡ true
    no_quote true t ne_q h = absurd (ne_q refl)
    no_quote false t ne_q h = h

module _ (escaped : ℕ → Option Str) where
  length-bytes_of : (c : ℕ) → IsTame escaped c → length (bytes_of escaped c) ≤ 5
  length-bytes_of c (inl h) = omega (arith, ap (λ o. length (bytes_with c o)) h)
  length-bytes_of c (inr (e, es, eq, plain, le)) =
      omega (arith, ap (λ o. length (bytes_with c o)) eq)

  length-escaped_text :
      (s : Str) → AllBytes (IsTame escaped) s → length (escaped_text escaped s) ≤ 5 * length s
  unfolding escaped_text
  length-escaped_text [] h = omega arith
  length-escaped_text (c ∷ s) h = omega (
    arith,
    length-append (bytes_of escaped c) (escaped_text escaped s),
    length-bytes_of c h.0,
    length-escaped_text s h.1,
  )

AllBytes-map {ℓ κ} :
    {P : ℕ → Type ℓ} {Q : ℕ → Type κ}
    → ((c : ℕ) → P c → Q c)
    → (s : Str) → AllBytes P s
    → AllBytes Q s
AllBytes-map f [] h = tt
AllBytes-map f (c ∷ s) h = (f c h.0, AllBytes-map f s h.1)

-- On every string of bytes, more than five rounds for each byte are enough for the escape function
-- of the print visitor, and it replaces each byte on its own.
pub print_escape-text :
    (f : ℕ) (s : Str)
    → AllBytes IsByte s
    → 5 * length s < f
    → print_escape f s ≡ ok (escaped_text print_escaped s)
unfolding print_escape
print_escape-text f s h lt =
    let tame = AllBytes-map print-IsTame s h in
    loop-tame print_escaped s f [] tame (omega (arith, length-escaped_text print_escaped s tame))

-- On every string of bytes without an apostrophe, more than five rounds for each byte are enough
-- for the JavaScript escape function, and it replaces each byte on its own.
pub javascript_escape-text :
    (f : ℕ) (s : Str)
    → AllBytes (λ c. IsByte c × (c ≢ 39)) s
    → 5 * length s < f
    → javascript_escape f s ≡ ok (escaped_text javascript_escaped s)
unfolding javascript_escape
javascript_escape-text f s h lt =
    let tame = AllBytes-map (λ c (p : IsByte c × (c ≢ 39)). javascript-IsTame c p.0 p.1) s h in
    loop-tame javascript_escaped s f [] tame
      (omega (arith, length-escaped_text javascript_escaped s tame))

-- On a string with an apostrophe the JavaScript escape function does not return: no number of
-- rounds is enough.
pub javascript_escape-endless :
    (f : ℕ) (s : Str) → Contains 39 s → javascript_escape f s ≡ out_of_fuel
unfolding javascript_escape javascript_escaped
javascript_escape-endless f s h = loop-endless javascript_escaped 39 b'\\' refl f [] s h

-- A byte of an escaped text is NUL, or neither a control character nor DEL.
abbrev pub IsPrinted : ℕ → Type 0
IsPrinted c = (c ≡ 0) ⊎ ((32 ≤ c) × (c ≢ 127))

abbrev printed : ℕ → Bool
printed c = c == 0 || (leb 32 c && not (c == 127))

abbrev all_printed : Str → Bool
all_printed [] = true
all_printed (c ∷ s) = printed c && all_printed s

all_printed_sound : (s : Str) → all_printed s ≡ true → AllBytes IsPrinted s
all_printed_sound [] h = tt
all_printed_sound (c ∷ s) h = ground (arith, all_printed_sound s)

printed_table : table_holds (λ c. all_printed (bytes_of print_escaped c)) 256 ≡ true
unfolding table_holds print_escaped
printed_table = refl

AllBytes-append {ℓ} :
    (P : ℕ → Type ℓ) (s t : Str) → AllBytes P s → AllBytes P t → AllBytes P (s ++ t)
AllBytes-append P [] t hs ht = ht
AllBytes-append P (c ∷ s) t hs ht = (hs.0, AllBytes-append P s t hs.1 ht)

escaped_text-IsPrinted :
    (s : Str) → AllBytes IsByte s → AllBytes IsPrinted (escaped_text print_escaped s)
unfolding escaped_text
escaped_text-IsPrinted [] h = tt
escaped_text-IsPrinted (c ∷ s) h =
    AllBytes-append IsPrinted (bytes_of print_escaped c) _
      (all_printed_sound _ (table_holds-at _ 256 c printed_table h.0))
      (escaped_text-IsPrinted s h.1)

-- What the escape function of the print visitor returns holds neither a control character nor DEL,
-- but for NUL.
pub print_escape-IsPrinted :
    (f : ℕ) (s t : Str)
    → AllBytes IsByte s
    → 5 * length s < f
    → print_escape f s ≡ ok t
    → AllBytes IsPrinted t
print_escape-IsPrinted f s t h lt p =
    subst (AllBytes IsPrinted) (ok-injective (sym (print_escape-text f s h lt) ∙ p))
      (escaped_text-IsPrinted s h)
  where
    ok-injective : {a c : Str} → ok a ≡ ok c → a ≡ c
    ok-injective e = cc
