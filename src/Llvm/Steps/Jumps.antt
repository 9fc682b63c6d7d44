-- ===== src/Llvm/Steps/Jumps.antt =====
-- What the pieces of the visitor keep of the targets of jumps.
use b.Base.{ℕ, ◌+◌, ◌≡◌, Bool, true, arith}
use b.Llvm.{Instruction, State, insert, new_block, place, set_insert_point}
use b.Llvm.Steps.{jumps_between, all_between_mono, JumpsWithin}

module _ {B : Type 0} where
  pub insert-JumpsWithin :
      (lo : ℕ) (i : Instruction) (s : State B)
      → JumpsWithin lo s
      → jumps_between lo s.next_block i ≡ true
      → JumpsWithin lo (insert i s)
  unfolding insert
  insert-JumpsWithin lo i s w h l le lt = ground (arith, w l)

  pub new_block-JumpsWithin :
      (lo : ℕ) (placed : Bool) (s : State B)
      → JumpsWithin lo s
      → JumpsWithin lo (new_block placed s)
  unfolding new_block
  new_block-JumpsWithin lo placed s w l le lt =
      ground
        (arith, w l, all_between_mono lo s.next_block (s.next_block + 1) (s.block l).instructions)

  pub place-JumpsWithin : (lo l : ℕ) (s : State B) → JumpsWithin lo s → JumpsWithin lo (place l s)
  unfolding place
  place-JumpsWithin lo k s w l le lt = ground (arith, w l, w k)

  pub move-JumpsWithin :
      (lo l : ℕ) (s : State B) → JumpsWithin lo s → JumpsWithin lo (set_insert_point l s)
  unfolding set_insert_point
  move-JumpsWithin lo k s w = w
