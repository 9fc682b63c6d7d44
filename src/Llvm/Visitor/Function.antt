-- ===== src/Llvm/Visitor/Function.antt =====
-- The function of a template, with any bindings that keep to their interface.
use b.Base.{ℕ, ◌≤◌, ◌<◌, ◌≡◌, refl, ap, ap₂, ◌∙◌, true, false, none, Str, arith}
use native.Mathlib.Decide.{ℕ_discrete}
use b.Ast.Template.{Ast}
use b.Llvm.{State, done, insert, new_block, set_insert_point, ret_void}
use b.Llvm.Bindings.{Bindings, function_setup}
use b.Llvm.Returns.{Returns, Returns-bind, Returns-done, Returns-weaken}
use b.Llvm.Steps.Jumps.{insert-JumpsWithin}
use b.Llvm.Steps.{JumpsWithin, all_between, closed_block, Tracked, Ready, Step}
use b.Llvm.Steps.Lawful.{Lawful, TornDown}
use b.Llvm.Steps.Fork.{finish}
use b.Llvm.Visitor.{ast, visit}
use b.Llvm.Visitor.Supported.{Supported, no_variables}
use b.Llvm.Visitor.Scopes.{Matches}
use b.Llvm.Visitor.Statements.{ast-Stepped}

-- No variable is hidden, and no loop runs: so it is before a template is visited.
pub record IsIdle {B : Type 0} (t : Tracked B) (s : State B) : Type 0 where
  pub nothing_hidden : (x : Str) → s.overriden x ≡ none
  pub no_loops : (n : ℕ) → t.looping s.bindings n ≡ false

-- The new blocks are in the function, each with one terminator, at its end, and jump to new blocks
-- only; the first is the entry; those of other functions are as they were; and the visitor is idle
-- again.
pub record IsCompiled {B : Type 0} (t : Tracked B) (s s' : State B) : Type 0 where
  pub entry : s.next_block < s'.next_block
  pub blocks : (l : ℕ) → s.next_block ≤ l → l < s'.next_block → closed_block (s'.block l) ≡ true
  pub jumps :
      (l : ℕ)
      → s.next_block ≤ l
      → l < s'.next_block
      → all_between s.next_block s'.next_block (s'.block l).instructions ≡ true
  pub others : (l : ℕ) → l < s.next_block → s'.block l ≡ s.block l
  pub idle : IsIdle t s'

module _ {B : Type 0} {b : Bindings B} {t : Tracked B} (laws : Lawful b t) where
  pub setup-Ready : {s : State B} → IsIdle t s → Ready b t (function_setup s)
  unfolding function_setup new_block set_insert_point
  setup-Ready i = record {
    inside = omega arith;
    opened = ground arith;
    bounded = λ n h. cc (i.no_loops n);
    scope = λ x v h. cc (i.nothing_hidden x);
    scope_below = λ x v h. cc (i.nothing_hidden x);
  }

  pub setup-Matches : {s : State B} → IsIdle t s → Matches b t no_variables (function_setup s)
  unfolding function_setup new_block set_insert_point
  setup-Matches i = record { absent = λ x h. i.nothing_hidden x; free = λ x v h k. cc }

  setup-JumpsWithin : (s : State B) → JumpsWithin s.next_block (function_setup s)
  unfolding function_setup new_block set_insert_point
  setup-JumpsWithin s l le lt = ground arith

  returned-IsCompiled :
      {s s' s'' : State B}
      → IsIdle t s
      → Step b t (function_setup s) s'
      → TornDown b t s' s''
      → IsCompiled t s s''
  unfolding function_setup new_block set_insert_point insert
  returned-IsCompiled {s} {s'} {s''} i p e =
      let f = finish {b = b} {t = t} ret_void refl (setup-Ready i) p.build in
      let same : (l : ℕ) → s''.block l ≡ (insert ret_void s').block l =
        λ l. ap (λ m. m l) e.blocks in
      record {
        entry = omega (arith, p.build.blocks_grow, e.same_next);
        blocks = λ l le lt. ap closed_block (same l) ∙ elim (ℕ_discrete l s.next_block) [
          | yes first ↦ ap (λ k. closed_block ((insert ret_void s').block k)) first ∙ f.left
          | no other ↦ f.fresh l (omega (arith, other)) (omega (arith, e.same_next))
        ];
        jumps = λ l le lt.
            ap₂ (λ n is. all_between s.next_block n is) e.same_next
              (ap (λ k. k.instructions) (same l))
            ∙ insert-JumpsWithin s.next_block ret_void s'
                (p.build.jumps s.next_block (omega arith) (setup-JumpsWithin s)) refl l le
                (omega (arith, e.same_next));
        others = λ l lt.
            same l ∙ f.frame l (omega arith) (λ q. absurd (omega (arith, q))) ∙ ground arith;
        idle = record {
          nothing_hidden = λ x.
              ap (λ m. m x) e.same_variables ∙ ap (λ m. m x) p.build.overriden ∙ i.nothing_hidden x;
          no_loops = λ n. e.same_loops n ∙ p.loops n ∙ i.no_loops n;
        };
      }

  -- `LLVMVisitor::visit` returns on every template that it supports, with any bindings that keep to
  -- their interface: every basic block that it made is in the function, has exactly one terminator,
  -- at its end, and jumps to blocks that it made only; the blocks of other functions are as they
  -- were, and no loop variable and no loop is left over. Supported are templates with no includes and
  -- no null arguments, whose operators get operands that LLVM takes, whose conditions are one bit
  -- wide, which loop over variants only, and not over a loop variable that a loop around may be
  -- running over.
  pub visit-IsCompiled :
      (x : Ast) (s : State B)
      → Supported no_variables x
      → IsIdle t s
      → (s' : State B) × (visit b x s ≡ done tt s') × IsCompiled t s s'
  unfolding visit
  visit-IsCompiled x s h i =
      let compiled : Returns (λ _ s'. IsCompiled t s s') (visit b x s) =
        Returns-bind (ast b x) _ (function_setup s)
          (ast-Stepped laws x no_variables (function_setup s) h (setup-Ready i) (setup-Matches i))
          λ _ s₁ p.
            Returns-weaken (laws.teardown s₁ p.build.ready) (λ _ s₂ e. returned-IsCompiled i p e) in
      let (_, s', run, c) = Returns-done compiled in (s', run, c)
