-- ===== src/Llvm/Steps/Ways.antt =====
-- Terminators stay, and so do the ways from block to block that they make.
use b.Base.{
  ℕ, ◌≤◌, ◌<◌, ◌≡◌, ◌≢◌, refl, sym, ap, ◌∙◌, subst, Bool, true, Option, none, some, List, [], ◌∷◌,
  arith,
}
use b.Llvm.{Instruction, is_terminator, State, insert, new_block, place, set_insert_point}
use b.Llvm.Bindings.{Bindings}
use b.Llvm.Flow.{Route, Route-kept, via, goes_to, leads_to, last_of, goes_to-is_terminator}
use b.Llvm.Steps.{is_open, open_block, Tracked, Ready, Build}

led :
    (o : Option Instruction) (k : ℕ)
    → leads_to o k ≡ true
    → (i : Instruction) × (o ≡ some i) × (goes_to i k ≡ true) × (is_terminator i ≡ true)
led none k h = cc
led (some i) k h = (i, refl, h, goes_to-is_terminator i k h)

no_terminator :
    (is : List Instruction) (i : Instruction)
    → is_open is ≡ true
    → last_of is ≡ some i
    → is_terminator i ≡ true
    → ⊥
no_terminator [] i h e k = cc
no_terminator (j ∷ is) i h e k = ground (arith, ap (λ o. leads o) e)
  where
    leads : Option Instruction → Bool
    leads none = true
    leads (some x) = is_terminator x

module _ {B : Type 0} where
  abbrev pub EndsWith : State B → ℕ → Instruction → Type 0
  EndsWith s l i = last_of (s.block l).instructions ≡ some i

  abbrev pub Way : State B → ℕ → ℕ → Type 0
  Way s l m = Route s.block s.next_block l m

  -- Blocks that have been made, and their terminators, are still there.
  pub record Settled (s s' : State B) : Type 0 where
    pub grow : s.next_block ≤ s'.next_block
    pub ends :
        (l : ℕ) (i : Instruction)
        → l < s.next_block
        → is_terminator i ≡ true
        → EndsWith s l i
        → EndsWith s' l i

  pub Settled-trans : {s s' s'' : State B} → Settled s s' → Settled s' s'' → Settled s s''
  Settled-trans p q = record {
    grow = omega (arith, p.grow, q.grow);
    ends = λ l i lt h e. q.ends l i (omega (arith, p.grow)) h (p.ends l i lt h e);
  }

  pub Way-Settled : {s s' : State B} {l m : ℕ} → Settled s s' → Way s l m → Way s' l m
  Way-Settled {s} {s'} p = Route-kept p.grow λ j k lt h.
      let (i, e, g, t) = led (last_of (s.block j).instructions) k h in
      subst (λ o. leads_to o k ≡ true) (sym (p.ends j i lt t e)) g

  pub insert-Settled :
      (i : Instruction) (s : State B)
      → open_block (s.block s.insert_block) ≡ true
      → Settled s (insert i s)
  unfolding insert
  insert-Settled i s o = record {
    grow = omega arith;
    ends = λ l j lt t e.
        let other : l ≢ s.insert_block = λ same.
          no_terminator (s.block s.insert_block).instructions j (ground (arith, o))
            (subst (λ k. EndsWith s k j) same e) t in
        ground (arith, e);
  }

  pub place-Settled : (l : ℕ) (s : State B) → Settled s (place l s)
  unfolding place
  place-Settled k s = record { grow = omega arith; ends = λ l j lt t e. ground (arith, e) }

  pub new_block-Settled : (placed : Bool) (s : State B) → Settled s (new_block placed s)
  unfolding new_block
  new_block-Settled placed s = record { grow = omega arith; ends = λ l j lt t e. ground (arith, e) }

  pub move-Settled : (k : ℕ) (s : State B) → Settled s (set_insert_point k s)
  unfolding set_insert_point
  move-Settled k s = record { grow = omega arith; ends = λ l j lt t e. e }

  pub insert-EndsWith : (i : Instruction) (s : State B) → EndsWith (insert i s) s.insert_block i
  unfolding insert
  insert-EndsWith i s = ground arith

  -- a way over a terminator
  pub via-Way :
      (s : State B) {l m : ℕ} (i : Instruction) (k : ℕ)
      → l < s.next_block
      → EndsWith s l i
      → goes_to i k ≡ true
      → Way s k m
      → Way s l m
  via-Way s i k lt e g w = via k lt (subst (λ o. leads_to o k ≡ true) (sym e) g) w

module _ {B : Type 0} {b : Bindings B} {t : Tracked B} where
  pub Build-Settled : {s s' : State B} → Ready b t s → Build b t s s' → Settled s s'
  Build-Settled {s} {s'} r p = record {
    grow = p.blocks_grow;
    ends = λ l i lt h e.
        let other : l ≢ s.insert_block = λ same.
          no_terminator (s.block s.insert_block).instructions i (ground (arith, r.opened))
            (subst (λ k. EndsWith s k i) same e) h in
        ap (λ x. last_of x.instructions) (p.frame l lt other) ∙ e;
  }
