-- ===== src/Llvm/Steps.antt =====
-- What a piece of the visitor leaves of the function under construction: every block that it left
-- ends with its one terminator, the block that it writes to is open, and no other block of before
-- has changed.
pub mod Jumps
pub mod Ways
pub mod Emit
pub mod Fork
pub mod Lawful
use b.Base.{
  ℕ, ◌+◌, ◌≤◌, ◌<◌, ◌≡◌, ◌≢◌, ◌⊎◌, inl, inr, refl, ap, ◌∙◌, sym, subst, Bool, true, false, ◌&&◌,
  not, leb, Option, none, some, List, [], ◌∷◌, Str, ltb, ◌==◌, if◌then◌else◌, arith,
}
use b.Llvm.{
  LlvmType, double_type, int_type, byte_pointer, void_type, pointer_pointer, struct_pointer, Value,
  constant_double, constant_int, global_string, null_pointer, function_argument, result, type_of,
  Instruction, compute, cond_br, br, ret_void, is_terminator, Block, State, set_block, append,
  insert, emit, Opcode,
}
use b.Llvm.Bindings.{Bindings}
use b.Llvm.Flow.{
  Route, Route-trans, Route-kept, here, leads_to, last_of, goes_to, goes_to-is_terminator,
}

abbrev pub is_open : List Instruction → Bool
is_open [] = true
is_open (i ∷ is) = not (is_terminator i) && is_open is

abbrev pub is_closed : List Instruction → Bool
is_closed [] = false
is_closed (i ∷ is) = is_terminator i && is_open is

-- A block in the function without a terminator, and one with exactly one, at its end.
abbrev pub open_block : Block → Bool
open_block b = is_open b.instructions && b.placed

abbrev pub closed_block : Block → Bool
closed_block b = is_closed b.instructions && b.placed

-- An open block leads nowhere.
pub leads_to-open :
    (is : List Instruction) (k : ℕ) → is_open is ≡ true → leads_to (last_of is) k ≡ true → ⊥
leads_to-open [] k h e = cc
leads_to-open (i ∷ is) k h e = ground (arith, goes_to-is_terminator i k e)

-- The blocks that an instruction may go on to are between two bounds.
abbrev pub is_between : ℕ → ℕ → ℕ → Bool
is_between lo hi l = leb lo l && ltb l hi

abbrev pub jumps_between : ℕ → ℕ → Instruction → Bool
jumps_between lo hi (compute _ _ _) = true
jumps_between lo hi (cond_br _ l k) = is_between lo hi l && is_between lo hi k
jumps_between lo hi (br l) = is_between lo hi l
jumps_between lo hi ret_void = true

abbrev pub all_between : ℕ → ℕ → List Instruction → Bool
all_between lo hi [] = true
all_between lo hi (i ∷ is) = jumps_between lo hi i && all_between lo hi is

jumps_between_mono :
    (lo hi hi' : ℕ) (i : Instruction)
    → hi ≤ hi'
    → jumps_between lo hi i ≡ true
    → jumps_between lo hi' i ≡ true
jumps_between_mono lo hi hi' (compute _ _ _) le h = refl
jumps_between_mono lo hi hi' (cond_br _ l k) le h = ground arith
jumps_between_mono lo hi hi' (br l) le h = ground arith
jumps_between_mono lo hi hi' ret_void le h = refl

pub all_between_mono :
    (lo hi hi' : ℕ) (is : List Instruction)
    → hi ≤ hi'
    → all_between lo hi is ≡ true
    → all_between lo hi' is ≡ true
all_between_mono lo hi hi' [] le h = refl
all_between_mono lo hi hi' (i ∷ is) le h =
    ground (arith, jumps_between_mono lo hi hi' i le, all_between_mono lo hi hi' is le)

-- The blocks from `lo` on jump to blocks from `lo` on that have been made.
abbrev pub JumpsWithin : {B : Type 0} → ℕ → State B → Type 0
JumpsWithin lo s =
    (l : ℕ)
    → lo ≤ l
    → l < s.next_block
    → all_between lo s.next_block (s.block l).instructions ≡ true

-- What the kinds of values are that the visitor tells apart.
pub data Kind : Type 0 where
  variant double long flag text : Kind

-- What bindings know of the values that instructions gave: those that may go out of scope, and
-- those that a loop runs over.
pub record Tracked (B : Type 0) : Type 0 where
  pub known : B → ℕ → Bool
  pub looping : B → ℕ → Bool

abbrev pub number : Value → ℕ
number (result n _) = n
number _ = 0

abbrev pub is_result : Value → Bool
is_result (result _ _) = true
is_result _ = false

module _ {B : Type 0} (b : Bindings B) (t : Tracked B) where
  -- A variant is the result of an instruction that the bindings know.
  abbrev pub IsKnown : B → Value → Type 0
  IsKnown s v =
      (b.is_variant_type (type_of v) ≡ true) × (is_result v ≡ true) × (t.known s (number v) ≡ true)

  abbrev pub HasKind : Kind → B → Value → Type 0
  HasKind variant s v = IsKnown s v
  HasKind double s v = type_of v ≡ double_type
  HasKind long s v = type_of v ≡ int_type 64
  HasKind flag s v = type_of v ≡ int_type 1
  HasKind text s v = type_of v ≡ byte_pointer

  -- The insertion point is an open block, and what hides a variable is a variant.
  pub record Ready (s : State B) : Type 0 where
    pub inside : s.insert_block < s.next_block
    pub opened : open_block (s.block s.insert_block) ≡ true
    pub bounded : (n : ℕ) → t.looping s.bindings n ≡ true → n < s.next_value
    pub scope : (x : Str) (v : Value) → s.overriden x ≡ some v → IsKnown s.bindings v
    pub scope_below : (x : Str) (v : Value) → s.overriden x ≡ some v → number v < s.next_value

  pub record Build (s s' : State B) : Type 0 where
    pub ready : Ready s'
    pub blocks_grow : s.next_block ≤ s'.next_block
    pub values_grow : s.next_value ≤ s'.next_value
    pub frame : (l : ℕ) → l < s.next_block → l ≢ s.insert_block → s'.block l ≡ s.block l
    pub fresh :
        (l : ℕ)
        → s.next_block ≤ l
        → l < s'.next_block
        → l ≢ s'.insert_block
        → closed_block (s'.block l) ≡ true
    pub left : s'.insert_block ≢ s.insert_block → closed_block (s'.block s.insert_block) ≡ true
    pub moved : (s'.insert_block ≡ s.insert_block) ⊎ (s.next_block ≤ s'.insert_block)
    pub jumps : (lo : ℕ) → lo ≤ s.next_block → JumpsWithin lo s → JumpsWithin lo s'
    pub way : Route s'.block s'.next_block s.insert_block s'.insert_block
    pub overriden : s'.overriden ≡ s.overriden
    pub known : (n : ℕ) → t.known s.bindings n ≡ true → t.known s'.bindings n ≡ true

  abbrev SameLoops : State B → State B → Type 0
  SameLoops s s' = (n : ℕ) → t.looping s'.bindings n ≡ t.looping s.bindings n

  pub record Step (s s' : State B) : Type 0 where
    pub build : Build s s'
    pub loops : SameLoops s s'

  -- Ways stay while the function grows.
  pub Route-Build :
      {s s' : State B} {l m : ℕ}
      → Ready s
      → Build s s'
      → Route s.block s.next_block l m
      → Route s'.block s'.next_block l m
  Route-Build {s} {s'} r p = Route-kept p.blocks_grow λ j k lt e.
      let other : j ≢ s.insert_block = λ same.
        leads_to-open (s.block s.insert_block).instructions k (ground (arith, r.opened))
          (subst (λ i. leads_to (last_of (s.block i).instructions) k ≡ true) same e) in
      subst (λ x. leads_to (last_of x.instructions) k ≡ true) (sym (p.frame j lt other)) e

  Build-trans-left :
      {s s' s'' : State B}
      → Build s s'
      → Build s' s''
      → s.insert_block < s.next_block
      → s''.insert_block ≢ s.insert_block
      → closed_block (s''.block s.insert_block) ≡ true
  Build-trans-left {s} {s'} {s''} p q in_ h = grind (arith, p.left, q.left, q.frame s.insert_block)

  Build-trans-frame :
      {s s' s'' : State B}
      → Build s s'
      → Build s' s''
      → (l : ℕ) → l < s.next_block
      → l ≢ s.insert_block
      → s''.block l ≡ s.block l
  Build-trans-frame {s} {s'} {s''} p q l h e =
      let other : l ≢ s'.insert_block = λ same. grind (arith, p.moved) in
      q.frame l (omega (arith, p.blocks_grow)) other ∙ p.frame l h e

  Build-trans-fresh :
      {s s' s'' : State B}
      → Build s s'
      → Build s' s''
      → (l : ℕ) → s.next_block ≤ l
      → l < s''.next_block
      → l ≢ s''.insert_block
      → closed_block (s''.block l) ≡ true
  Build-trans-fresh {s} {s'} {s''} p q l h k e =
      grind (arith, p.fresh l, q.fresh l, q.frame l, q.left)

  pub Build-trans : {s s' s'' : State B} → Ready s → Build s s' → Build s' s'' → Build s s''
  Build-trans {s} {s'} {s''} r p q = record {
    ready = q.ready;
    blocks_grow = omega (arith, p.blocks_grow, q.blocks_grow);
    values_grow = omega (arith, p.values_grow, q.values_grow);
    frame = Build-trans-frame p q;
    fresh = Build-trans-fresh p q;
    left = Build-trans-left p q r.inside;
    moved = grind (arith, p.moved, q.moved);
    jumps = λ lo h w. q.jumps lo (omega (arith, p.blocks_grow)) (p.jumps lo h w);
    way = Route-trans (Route-Build p.ready q p.way) q.way;
    overriden = q.overriden ∙ p.overriden;
    known = λ n h. q.known n (p.known n h);
  }

  pub Step-trans : {s s' s'' : State B} → Ready s → Step s s' → Step s' s'' → Step s s''
  Step-trans r p q = record {
    build = Build-trans r p.build q.build;
    loops = λ n. q.loops n ∙ p.loops n;
  }

  pub Build-refl : {s : State B} → Ready s → Build s s
  Build-refl r = record {
    ready = r;
    blocks_grow = omega arith;
    values_grow = omega arith;
    frame = λ l h e. refl;
    fresh = λ l h k e. absurd (omega arith);
    left = λ e. absurd (e refl);
    moved = inl refl;
    jumps = λ lo h w. w;
    way = here;
    overriden = refl;
    known = λ n h. h;
  }

  pub Step-refl : {s : State B} → Ready s → Step s s
  Step-refl r = record { build = Build-refl r; loops = λ n. refl }

  pub IsKnown-mono :
      {s s' : State B} (v : Value) → Build s s' → IsKnown s.bindings v → IsKnown s'.bindings v
  IsKnown-mono v p (h, r, k) = (h, r, p.known (number v) k)

  pub HasKind-mono :
      {s s' : State B} (k : Kind) (v : Value)
      → Build s s'
      → HasKind k s.bindings v
      → HasKind k s'.bindings v
  HasKind-mono variant v p h = IsKnown-mono v p h
  HasKind-mono double v p h = h
  HasKind-mono long v p h = h
  HasKind-mono flag v p h = h
  HasKind-mono text v p h = h
