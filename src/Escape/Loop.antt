-- ===== src/Escape/Loop.antt =====
-- When the escape loops end, and with what.
use b.Base.{
  ℕ, zero, suc, ◌+◌, ◌-◌, ◌≤◌, ◌<◌, ◌≡◌, refl, sym, ◌∙◌, ap, ◌⊎◌, inl, inr, Option, none, some, [],
  ◌∷◌, ◌++◌, Str, append_assoc, append-nil, ok, out_of_fuel, length, length-append, arith,
}
use native.Mathlib.Nat.{zero-add}
use b.Escape.{escape_loop}

-- What a byte becomes.
abbrev pub bytes_with : ℕ → Option Str → Str
bytes_with c none = c ∷ []
bytes_with c (some e) = e

abbrev pub bytes_of : (ℕ → Option Str) → ℕ → Str
bytes_of escaped c = bytes_with c (escaped c)

-- What a text becomes, byte by byte.
unfoldable pub escaped_text : (ℕ → Option Str) → Str → Str
escaped_text escaped [] = []
escaped_text escaped (c ∷ s) = bytes_of escaped c ++ escaped_text escaped s

-- No byte of the text is replaced.
abbrev pub IsPlain : (ℕ → Option Str) → Str → Type 0
IsPlain escaped [] = Unit
IsPlain escaped (c ∷ s) = (escaped c ≡ none) × IsPlain escaped s

-- A replacement begins with a byte, the rest of it is not replaced again, and it has at most five.
abbrev pub IsTame : (ℕ → Option Str) → ℕ → Type 0
IsTame escaped c =
    (escaped c ≡ none)
    ⊎ ((e : ℕ) × (es : Str) × (escaped c ≡ some (e ∷ es)) × IsPlain escaped es × (length es ≤ 4))

abbrev pub AllBytes {ℓ} : (ℕ → Type ℓ) → Str → Type ℓ
AllBytes P [] = Unit
AllBytes P (c ∷ s) = P c × AllBytes P s

abbrev pub Contains : ℕ → Str → Type 0
Contains q [] = ⊥
Contains q (c ∷ s) = (c ≡ q) ⊎ Contains q s

module _ (escaped : ℕ → Option Str) where
  -- The loop passes over plain bytes, one round for each.
  loop-plain :
      (es : Str) (f : ℕ) (before rest : Str)
      → IsPlain escaped es
      → escape_loop escaped (length es + f) before (es ++ rest)
        ≡ escape_loop escaped f (before ++ es) rest
  unfolding escape_loop
  loop-plain [] f before rest h = rw (zero-add, append-nil)
  loop-plain (e ∷ es) f before rest (h, hs) =
      let shift : suc (length es) + f ≡ suc (length es + f) = omega arith in
      rw (shift, escape_loop, h)
        (loop-plain es f (before ++ e ∷ []) rest hs
          ∙ ap (λ u. escape_loop escaped f u rest) (append_assoc before (e ∷ []) es))

  -- The step at a byte that is replaced.
  loop-replaced :
      (e : ℕ) (es : Str) (f : ℕ) (before rest : Str)
      → IsPlain escaped es
      → length es ≤ f
      → escape_loop escaped f (before ++ e ∷ []) (es ++ rest)
        ≡ escape_loop escaped (f - length es) (before ++ e ∷ es) rest
  loop-replaced e es f before rest h le =
      let split : f ≡ length es + (f - length es) = omega arith in
      ap (λ k. escape_loop escaped k (before ++ e ∷ []) (es ++ rest)) split
      ∙ loop-plain es (f - length es) (before ++ e ∷ []) rest h
      ∙ ap (λ u. escape_loop escaped (f - length es) u rest) (append_assoc before (e ∷ []) es)

  step-plain :
      (c : ℕ) (s : Str) (f : ℕ) (before : Str)
      → escaped c ≡ none
      → escape_loop escaped (suc f) before (c ∷ s) ≡ escape_loop escaped f (before ++ c ∷ []) s
  unfolding escape_loop
  step-plain c s f before h = rw (h, escape_loop)

  step-replaced :
      (c : ℕ) (s : Str) (f : ℕ) (before : Str) {e : ℕ} {es : Str}
      → escaped c ≡ some (e ∷ es)
      → escape_loop escaped (suc f) before (c ∷ s)
        ≡ escape_loop escaped f (before ++ e ∷ []) (es ++ s)
  unfolding escape_loop
  step-replaced c s f before h = rw (h, escape_loop)

  text-plain :
      (c : ℕ) (s : Str)
      → escaped c ≡ none
      → escaped_text escaped (c ∷ s) ≡ c ∷ escaped_text escaped s
  unfolding escaped_text
  text-plain c s h = rw h

  text-replaced :
      (c : ℕ) (s : Str) {e : ℕ} {es : Str}
      → escaped c ≡ some (e ∷ es)
      → escaped_text escaped (c ∷ s) ≡ e ∷ (es ++ escaped_text escaped s)
  unfolding escaped_text
  text-replaced c s h = rw h

  -- Rounds above the length of the escaped text are enough, where every replacement is tame.
  pub loop-tame :
      (s : Str) (f : ℕ) (before : Str)
      → AllBytes (IsTame escaped) s
      → length (escaped_text escaped s) < f
      → escape_loop escaped f before s ≡ ok (before ++ escaped_text escaped s)
  loop-tame s zero before h lt = absurd (omega arith)
  loop-tame [] (suc f) before h lt = unfold escape_loop escaped_text in rw append-nil
  loop-tame (c ∷ s) (suc f) before (inl plain, hs) lt =
      let text = text-plain c s plain in
      step-plain c s f before plain
      ∙ loop-tame s f (before ++ c ∷ []) hs (omega (arith, ap length text))
      ∙ ap ok
          (append_assoc before (c ∷ []) (escaped_text escaped s) ∙ ap (λ u. before ++ u) (sym text))
  loop-tame (c ∷ s) (suc f) before (inr (e, es, eq, plain, le), hs) lt =
      let text = text-replaced c s eq in
      let long = ap length text ∙ ap suc (length-append es (escaped_text escaped s)) in
      step-replaced c s f before eq
      ∙ loop-replaced e es f before s plain (omega (arith, long))
      ∙ loop-tame s (f - length es) (before ++ e ∷ es) hs (omega (arith, long))
      ∙ ap ok
          (append_assoc before (e ∷ es) (escaped_text escaped s) ∙ ap (λ u. before ++ u) (sym text))

  Contains-append : (q : ℕ) (es s : Str) → Contains q s → Contains q (es ++ s)
  Contains-append q [] s h = h
  Contains-append q (e ∷ es) s h = inr (Contains-append q es s h)

  -- A byte that is replaced by a text with itself in second place is replaced again in the next
  -- round: the loop does not end.
  pub loop-endless :
      (q front : ℕ)
      → escaped q ≡ some (front ∷ q ∷ [])
      → (f : ℕ) (before s : Str) → Contains q s
      → escape_loop escaped f before s ≡ out_of_fuel
  unfolding escape_loop
  loop-endless q front again zero before s h = refl
  loop-endless q front again (suc f) before [] h = absurd h
  loop-endless q front again (suc f) before (c ∷ s) (inl p) =
      rw (p, again, escape_loop)
        (loop-endless q front again f (before ++ front ∷ []) (q ∷ s) (inl refl))
  loop-endless q front again (suc f) before (c ∷ s) (inr h) =
      on_byte (escaped c) refl (λ u r. loop-endless q front again f u r)
    where
      on_byte :
          (o : Option Str)
          → escaped c ≡ o
          → ((u r : Str) → Contains q r → escape_loop escaped f u r ≡ out_of_fuel)
          → escape_loop escaped (suc f) before (c ∷ s) ≡ out_of_fuel
      on_byte none eq rec = rw (eq, escape_loop) (rec (before ++ c ∷ []) s h)
      on_byte (some []) eq rec = rw (eq, escape_loop) (rec before s h)
      on_byte (some (e ∷ es)) eq rec =
          rw (eq, escape_loop) (rec (before ++ e ∷ []) (es ++ s) (Contains-append q es s h))
