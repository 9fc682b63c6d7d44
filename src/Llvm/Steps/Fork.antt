-- ===== src/Llvm/Steps/Fork.antt =====
-- A conditional branch: two blocks that are filled one after the other, each left with its
-- terminator, and the block where they meet.
use b.Base.{ℕ, ◌+◌, ◌≤◌, ◌<◌, ◌≡◌, ◌≢◌, ◌⊎◌, inr, sym, ap, ◌∙◌, true, arith}
use b.Llvm.{Instruction, is_terminator, State, insert}
use b.Llvm.Bindings.{Bindings}
use b.Llvm.Steps.{open_block, closed_block, Tracked, Ready, Build}

module _ {B : Type 0} where
  -- The block of the insertion point and all new ones have got their terminators.
  pub record Finish (s s' : State B) : Type 0 where
    pub blocks_grow : s.next_block ≤ s'.next_block
    pub frame : (l : ℕ) → l < s.next_block → l ≢ s.insert_block → s'.block l ≡ s.block l
    pub fresh : (l : ℕ) → s.next_block ≤ l → l < s'.next_block → closed_block (s'.block l) ≡ true
    pub left : closed_block (s'.block s.insert_block) ≡ true

  -- The insertion point is now the block `l`, and no other block has changed.
  pub record Moved (l : ℕ) (s s' : State B) : Type 0 where
    pub point : s'.insert_block ≡ l
    pub same_next : s'.next_block ≡ s.next_block
    pub others : (k : ℕ) → k ≢ l → s'.block k ≡ s.block k

  -- The branch has been made: the block `n` is being filled, and the next two wait.
  pub record Opened (n : ℕ) (s s' : State B) : Type 0 where
    pub first : n ≡ s.next_block
    pub point : s'.insert_block ≡ n
    pub opened : open_block (s'.block n) ≡ true
    pub room : n + 3 ≤ s'.next_block
    pub frame : (l : ℕ) → l < n → l ≢ s.insert_block → s'.block l ≡ s.block l
    pub fresh : (l : ℕ) → n + 3 ≤ l → l < s'.next_block → closed_block (s'.block l) ≡ true
    pub left : closed_block (s'.block s.insert_block) ≡ true

  -- The blocks of a step, apart from what else a step keeps.
  pub record Blocks (s s' : State B) : Type 0 where
    pub inside : s'.insert_block < s'.next_block
    pub blocks_grow : s.next_block ≤ s'.next_block
    pub frame : (l : ℕ) → l < s.next_block → l ≢ s.insert_block → s'.block l ≡ s.block l
    pub fresh :
        (l : ℕ)
        → s.next_block ≤ l
        → l < s'.next_block
        → l ≢ s'.insert_block
        → closed_block (s'.block l) ≡ true
    pub left : s'.insert_block ≢ s.insert_block → closed_block (s'.block s.insert_block) ≡ true
    pub moved : (s'.insert_block ≡ s.insert_block) ⊎ (s.next_block ≤ s'.insert_block)

  module _ {n : ℕ} {s₁ s₂ s₃ s₄ s₅ s₆ : State B} (o : Opened n s₁ s₂) (f : Finish s₂ s₃)
      (m : Moved (n + 1) s₃ s₄) (g : Finish s₄ s₅) (e : Moved (n + 2) s₅ s₆)
      (in₁ : s₁.insert_block < s₁.next_block) where
    -- a block that waits, or one of before, is as it was while another is filled
    fork-frame : (l : ℕ) → l < n + 3 → l ≢ n → l ≢ n + 1 → l ≢ n + 2 → s₆.block l ≡ s₂.block l
    fork-frame l lt h₀ h₁ h₂ =
        e.others l h₂
        ∙ g.frame l (omega (arith, m.same_next, f.blocks_grow, o.room)) (λ q. h₁ (q ∙ m.point))
        ∙ m.others l h₁
        ∙ f.frame l (omega (arith, o.room)) (λ q. h₀ (q ∙ o.point))

    -- Finished blocks stay so.
    fork-kept : (l : ℕ) → l < s₃.next_block → l ≢ n + 1 → l ≢ n + 2 → s₆.block l ≡ s₃.block l
    fork-kept l lt h₁ h₂ =
        e.others l h₂
        ∙ g.frame l (omega (arith, m.same_next)) (λ q. h₁ (q ∙ m.point))
        ∙ m.others l h₁

    fork-fresh : (l : ℕ) → n ≤ l → l < s₆.next_block → l ≢ n + 2 → closed_block (s₆.block l) ≡ true
    fork-fresh l le lt h = ground (
      arith,
      e.others l h,
      e.same_next,
      e.point,
      m.point,
      m.same_next,
      g.left,
      g.fresh l,
      f.left,
      f.fresh l,
      f.frame l,
      o.fresh l,
      o.point,
      o.room,
      f.blocks_grow,
      g.blocks_grow,
      fork-kept l,
    )

    pub fork : Blocks s₁ s₆
    fork = record {
      inside =
          omega (arith, e.point, e.same_next, g.blocks_grow, m.same_next, f.blocks_grow, o.room);
      blocks_grow =
          omega (arith, o.first, e.same_next, g.blocks_grow, m.same_next, f.blocks_grow, o.room);
      frame = λ l lt h.
          fork-frame l (omega (arith, o.first)) (λ q. absurd (omega (arith, q, o.first)))
            (λ q. absurd (omega (arith, q, o.first))) (λ q. absurd (omega (arith, q, o.first)))
          ∙ o.frame l (omega (arith, o.first)) h;
      fresh = λ l le lt h. fork-fresh l (omega (arith, o.first)) lt (λ q. h (q ∙ sym e.point));
      left = λ h.
          ap closed_block (
            fork-frame s₁.insert_block (omega (arith, o.first))
              (λ q. absurd (omega (arith, q, o.first))) (λ q. absurd (omega (arith, q, o.first)))
              (λ q. absurd (omega (arith, q, o.first))))
          ∙ o.left;
      moved = inr (omega (arith, o.first, e.point));
    }

  -- A terminator ends the block that a step has come to.
  pub finish :
      {b : Bindings B} {t : Tracked B} {s s' : State B} (i : Instruction)
      → is_terminator i ≡ true
      → Ready b t s
      → Build b t s s'
      → Finish s (insert i s')
  unfolding insert
  finish {s = s} {s' = s'} i h r p = record {
    blocks_grow = p.blocks_grow;
    frame = λ l lt e. grind (arith, p.frame l, p.moved);
    fresh = λ l le lt. grind (arith, h, p.fresh l, p.ready.opened);
    left = grind (arith, h, p.left, p.ready.opened);
  }

  -- A block that waits is as it was.
  pub waiting :
      {s s' : State B} (l : ℕ)
      → Finish s s'
      → l < s.next_block
      → s.insert_block < l
      → s'.block l ≡ s.block l
  waiting l f lt h = f.frame l lt (λ q. absurd (omega (arith, q)))
