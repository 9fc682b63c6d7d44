-- ===== src/Llvm/Flow.antt =====
-- Where the control goes from block to block of the function under construction.
use b.Base.{
  refl, ℕ, ◌≤◌, ◌<◌, ◌≡◌, Bool, true, false, ◌||◌, ◌==◌, Option, none, some, List, [], ◌∷◌, arith,
}
use b.Llvm.{Instruction, compute, cond_br, br, ret_void, is_terminator, Block}

abbrev pub goes_to : Instruction → ℕ → Bool
goes_to (compute _ _ _) k = false
goes_to (cond_br _ l l') k = k == l || k == l'
goes_to (br l) k = k == l
goes_to ret_void k = false

-- The last instruction of a block; the list of them starts with it.
abbrev pub last_of : List Instruction → Option Instruction
last_of [] = none
last_of (i ∷ is) = some i

abbrev pub leads_to : Option Instruction → ℕ → Bool
leads_to none k = false
leads_to (some i) k = goes_to i k

-- A way from a block to a block, by the terminators of blocks that have been made.
pub data Route (f : ℕ → Block) (hi : ℕ) : ℕ → ℕ → Type 0 where
  here : {l : ℕ} → Route f hi l l
  via :
      {l m : ℕ} (k : ℕ)
      → l < hi
      → leads_to (last_of (f l).instructions) k ≡ true
      → Route f hi k m
      → Route f hi l m

pub Route-trans : {f : ℕ → Block} {hi l k m : ℕ} → Route f hi l k → Route f hi k m → Route f hi l m
Route-trans here q = q
Route-trans (via k lt h p) q = via k lt h (Route-trans p q)

-- Ways stay where the blocks that lead on keep doing so.
pub Route-kept :
    {f f' : ℕ → Block} {hi hi' l m : ℕ}
    → hi ≤ hi'
    → ((j k : ℕ)
        → j < hi
        → leads_to (last_of (f j).instructions) k ≡ true
        → leads_to (last_of (f' j).instructions) k ≡ true)
    → Route f hi l m
    → Route f' hi' l m
Route-kept le h here = here
Route-kept le h (via {l} k lt e p) = via k (omega (arith)) (h l k lt e) (Route-kept le h p)

pub goes_to-is_terminator : (i : Instruction) (k : ℕ) → goes_to i k ≡ true → is_terminator i ≡ true
goes_to-is_terminator (compute _ _ _) k h = cc
goes_to-is_terminator (cond_br _ _ _) k h = refl
goes_to-is_terminator (br _) k h = refl
goes_to-is_terminator ret_void k h = refl
