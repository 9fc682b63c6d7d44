-- ===== src/Base/Memory.antt =====
-- Memory as the list of its bytes, and `memcpy` into it.
use Prim.Native.Nat.{ℕ, zero, suc, ◌+◌, ◌≤◌}
use mathlib.Core.Path.{◌≡◌, refl, ap, ◌∙◌}
use mathlib.Core.List.{List, [], ◌∷◌, ◌++◌}
use native.Mathlib.Omega.{arith}
use b.Base.Text.{Str, length}
use b.Base.Call.{Outcome, ok, undefined, ◌>>=◌}

abbrev pub take {ℓ} : {A : Type ℓ} → ℕ → List A → List A
take zero xs = []
take (suc n) [] = []
take (suc n) (x ∷ xs) = x ∷ take n xs

-- `memcpy(&memory[i], bytes, length(bytes))`: a write behind the end is undefined.
unfoldable pub write_at : Str → ℕ → Str → Outcome Str
write_at memory zero [] = ok memory
write_at [] zero (c ∷ s) = undefined
write_at (x ∷ memory) zero (c ∷ s) = do ok (c ∷ (← write_at memory zero s))
write_at [] (suc i) s = undefined
write_at (x ∷ memory) (suc i) s = do ok (x ∷ (← write_at memory i s))

suc-add : (i n : ℕ) → suc i + n ≡ suc (i + n)
suc-add i n = omega arith

pub take-le {ℓ} :
    {A : Type ℓ} (n k : ℕ) (xs ys : List A) → n ≤ k → take k xs ≡ take k ys → take n xs ≡ take n ys
take-le zero k xs ys h e = refl
take-le (suc n) zero xs ys h e = absurd (omega arith)
take-le (suc n) (suc k) [] [] h e = refl
take-le (suc n) (suc k) [] (y ∷ ys) h e = cc
take-le (suc n) (suc k) (x ∷ xs) [] h e = cc
take-le (suc n) (suc k) (x ∷ xs) (y ∷ ys) h e = ground (arith, take-le n k xs ys)

-- What a write inside the memory leaves: its length, the bytes before it, and behind them what
-- is written.
pub record Written (memory : Str) (i : ℕ) (s : Str) (memory' : Str) : Type 0 where
  pub written : write_at memory i s ≡ ok memory'
  pub same_length : length memory' ≡ length memory
  pub before : take i memory' ≡ take i memory
  pub through : take (i + length s) memory' ≡ take i memory ++ s

Written-cons :
    (x : ℕ) {memory : Str} {i : ℕ} {s : Str} {memory' : Str}
    → Written memory i s memory'
    → Written (x ∷ memory) (suc i) s (x ∷ memory')
unfolding write_at
Written-cons x {memory} {i} {s} {memory'} w = record {
  written = ap (λ r. r >>= λ m. ok (x ∷ m)) w.written;
  same_length = ap suc w.same_length;
  before = ap (λ m. x ∷ m) w.before;
  through = ap (λ k. take k (x ∷ memory')) (suc-add i (length s)) ∙ ap (λ m. x ∷ m) w.through;
}

pub write_at_lem :
    (memory : Str) (i : ℕ) (s : Str)
    → i + length s ≤ length memory
    → (memory' : Str) × Written memory i s memory'
unfolding write_at
write_at_lem memory zero [] h =
    (memory, record { written = refl; same_length = refl; before = refl; through = refl })
write_at_lem [] zero (c ∷ s) h = absurd (omega arith)
write_at_lem (x ∷ memory) zero (c ∷ s) h =
    let (m, w) = write_at_lem memory zero s (omega arith) in (c ∷ m, ground arith)
write_at_lem [] (suc i) s h = absurd (omega arith)
write_at_lem (x ∷ memory) (suc i) s h =
    let (m, w) = write_at_lem memory i s (omega arith) in (x ∷ m, Written-cons x w)
