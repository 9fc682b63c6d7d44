-- ===== src/Llvm/Visitor/Branches.antt =====
-- The blocks that a conditional and a loop make.
use b.Base.{ℕ, ◌+◌, ◌≤◌, ◌<◌, ◌≡◌, refl, sym, ap, subst, ◌∙◌, Bool, true, false, [], arith}
use b.Llvm.{Value, cond_br, br, State, insert, new_block, place, set_insert_point}
use b.Llvm.Visitor.{if_blocks, start_block, branch}
use b.Llvm.Bindings.{Bindings}
use b.Llvm.Flow.{Route}
use b.Llvm.Steps.Ways.{
  Settled, Settled-trans, insert-Settled, place-Settled, move-Settled, new_block-Settled,
}
use b.Llvm.Steps.Jumps.{insert-JumpsWithin, new_block-JumpsWithin, place-JumpsWithin}
use b.Llvm.Steps.{JumpsWithin, open_block, Tracked, Ready, Build, IsKnown}
use b.Llvm.Steps.Fork.{Finish, Moved, Opened, Blocks}

module _ {B : Type 0} where
  -- three new blocks, of which the first is in the function
  abbrev pub three_blocks : Bool → State B → State B
  three_blocks placed s = new_block placed (new_block placed (new_block true s))

  pub Opened-of :
      (placed : Bool) (s u : State B)
      → s.insert_block < s.next_block
      → Finish (three_blocks placed s) u
      → Opened s.next_block s (set_insert_point s.next_block u)
  unfolding new_block set_insert_point
  Opened-of placed s u h f = record {
    first = refl;
    point = refl;
    opened = ground (arith, f.frame s.next_block);
    room = omega (arith, f.blocks_grow);
    frame = λ l lt e. ground (arith, f.frame l);
    fresh = λ l le lt. f.fresh l (omega arith) lt;
    left = f.left;
  }

  -- The other two blocks, before anything is written to them.
  pub waiting_second :
      (placed : Bool) (s u : State B)
      → s.insert_block < s.next_block
      → Finish (three_blocks placed s) u
      → (set_insert_point s.next_block u).block (s.next_block + 1)
        ≡ record { instructions = []; placed = placed }
  unfolding new_block set_insert_point
  waiting_second placed s u h f = ground (arith, f.frame (s.next_block + 1))

  pub waiting_third :
      (placed : Bool) (s u : State B)
      → s.insert_block < s.next_block
      → Finish (three_blocks placed s) u
      → (set_insert_point s.next_block u).block (s.next_block + 2)
        ≡ record { instructions = []; placed = placed }
  unfolding new_block set_insert_point
  waiting_third placed s u h f = ground (arith, f.frame (s.next_block + 2))

  pub place-Moved : (l : ℕ) (s : State B) → Moved l s (set_insert_point l (place l s))
  unfolding place set_insert_point
  place-Moved l s = record { point = refl; same_next = refl; others = λ k h. ground arith }

  pub move-Moved : (l : ℕ) (s : State B) → Moved l s (set_insert_point l s)
  unfolding set_insert_point
  move-Moved l s = record { point = refl; same_next = refl; others = λ k h. refl }

  pub place_open :
      (l : ℕ) (s : State B) (placed : Bool)
      → s.block l ≡ record { instructions = []; placed = placed }
      → open_block ((set_insert_point l (place l s)).block l) ≡ true
  unfolding place set_insert_point
  place_open l s placed h = ground (arith, ap (λ x. x.instructions) h)

module _ {B : Type 0} where
  pub three_blocks-Settled : (placed : Bool) (s : State B) → Settled s (three_blocks placed s)
  three_blocks-Settled placed s = Settled-trans (new_block-Settled true s) (
      Settled-trans (new_block-Settled placed (new_block true s))
        (new_block-Settled placed (new_block placed (new_block true s))))

  pub start_block-Settled :
      (target next : ℕ) (s : State B)
      → open_block (s.block s.insert_block) ≡ true
      → Settled s (start_block target next s)
  start_block-Settled target next s o = Settled-trans (insert-Settled (br target) s o) (
      Settled-trans (place-Settled next (insert (br target) s))
        (move-Settled next (place next (insert (br target) s))))

module _ {B : Type 0} (lo : ℕ) where
  pub three_blocks-JumpsWithin :
      (placed : Bool) (s : State B) → JumpsWithin lo s → JumpsWithin lo (three_blocks placed s)
  three_blocks-JumpsWithin placed s w =
      new_block-JumpsWithin lo placed (new_block placed (new_block true s))
        (new_block-JumpsWithin lo placed (new_block true s) (new_block-JumpsWithin lo true s w))

  pub if_blocks-JumpsWithin :
      (c : Value) (s : State B)
      → lo ≤ s.next_block
      → JumpsWithin lo s
      → JumpsWithin lo (if_blocks c s)
  unfolding set_insert_point new_block
  if_blocks-JumpsWithin c s h w =
      insert-JumpsWithin lo (cond_br c s.next_block (s.next_block + 1)) (three_blocks false s)
        (three_blocks-JumpsWithin false s w) (ground arith)

  pub start_block-JumpsWithin :
      (target next : ℕ) (s : State B)
      → lo ≤ target
      → target < s.next_block
      → JumpsWithin lo s
      → JumpsWithin lo (start_block target next s)
  unfolding set_insert_point
  start_block-JumpsWithin target next s h k w =
      place-JumpsWithin lo next (insert (br target) s)
        (insert-JumpsWithin lo (br target) s w (ground arith))

  pub branch-JumpsWithin :
      (c : Value) (target other next : ℕ) (s : State B)
      → lo ≤ target
      → target < s.next_block
      → lo ≤ other
      → other < s.next_block
      → JumpsWithin lo s
      → JumpsWithin lo (branch c target other next s)
  unfolding set_insert_point
  branch-JumpsWithin c target other next s h k h' k' w =
      insert-JumpsWithin lo (cond_br c target other) s w (ground arith)

module _ {B : Type 0} (b : Bindings B) (t : Tracked B) where
  -- At another open insertion point, with the same values, the state is ready.
  pub Ready-moved :
      {s s' : State B}
      → Ready b t s
      → s'.insert_block < s'.next_block
      → open_block (s'.block s'.insert_block) ≡ true
      → s'.overriden ≡ s.overriden
      → s'.bindings ≡ s.bindings
      → s'.next_value ≡ s.next_value
      → Ready b t s'
  Ready-moved {s} {s'} r in_ open_ o bd v = record {
    inside = in_;
    opened = open_;
    bounded = λ n h. ground (arith, r.bounded n, bd, v);
    scope =
        λ x w h. subst (λ y. IsKnown b t y w) (sym bd) (r.scope x w (sym (ap (λ f. f x) o) ∙ h));
    scope_below = λ x w h. omega (arith, r.scope_below x w (sym (ap (λ f. f x) o) ∙ h), v);
  }

  -- What a step keeps of the values, apart from the blocks.
  pub record Carries (s s' : State B) : Type 0 where
    pub values_grow : s.next_value ≤ s'.next_value
    pub jumps : (lo : ℕ) → lo ≤ s.next_block → JumpsWithin lo s → JumpsWithin lo s'
    pub way : Route s'.block s'.next_block s.insert_block s'.insert_block
    pub overriden : s'.overriden ≡ s.overriden
    pub known : (n : ℕ) → t.known s.bindings n ≡ true → t.known s'.bindings n ≡ true

  pub carries : {s s' : State B} → Build b t s s' → Carries s s'
  carries p = record {
    values_grow = p.values_grow;
    jumps = p.jumps;
    way = p.way;
    overriden = p.overriden;
    known = p.known;
  }

  pub Build-of : {s s' : State B} → Blocks s s' → Ready b t s' → Carries s s' → Build b t s s'
  Build-of k r c = record {
    ready = r;
    blocks_grow = k.blocks_grow;
    values_grow = c.values_grow;
    frame = k.frame;
    fresh = k.fresh;
    left = k.left;
    moved = k.moved;
    jumps = c.jumps;
    way = c.way;
    overriden = c.overriden;
    known = c.known;
  }
