-- ===== src/Llvm/Steps/Emit.antt =====
-- An instruction with a result is a step.
use b.Base.{ℕ, ◌+◌, ◌<◌, ◌≡◌, inl, refl, true, List, arith}
use b.Llvm.{LlvmType, Value, result, compute, State, insert, emit, Opcode}
use b.Llvm.Bindings.{Bindings}
use b.Llvm.Returns.{Returns, returns}
use b.Llvm.Flow.{here}
use b.Llvm.Steps.Jumps.{insert-JumpsWithin}
use b.Llvm.Steps.{Tracked, number, Ready, Build, Step}

module _ {B : Type 0} (b : Bindings B) (t : Tracked B) where
  -- The bindings' state may change with the instruction, if they know no less and no loop ends.
  pub emit-Build :
      (op : Opcode) (operands : List Value) (ty : LlvmType) (s : State B) (bindings : B)
      → Ready b t s
      → ((n : ℕ) → t.known s.bindings n ≡ true → t.known bindings n ≡ true)
      → ((n : ℕ) → t.looping bindings n ≡ true → n < s.next_value + 1)
      → let v = result s.next_value ty in
        Build b t s (record (insert (compute op operands v) s) {
          next_value = s.next_value + 1;
          bindings = bindings;
        })
  unfolding insert
  emit-Build op operands ty s bindings r known bounded = record {
    ready = record {
      inside = r.inside;
      opened = ground (arith, r.opened);
      bounded = bounded;
      scope = λ x v h. ground (arith, r.scope x v h, known (number v));
      scope_below = λ x v h. omega (arith, r.scope_below x v h);
    };
    blocks_grow = omega arith;
    values_grow = omega arith;
    frame = λ l h e. ground arith;
    fresh = λ l h k e. absurd (omega arith);
    left = λ e. absurd (e refl);
    moved = inl refl;
    jumps = λ lo h w. insert-JumpsWithin lo (compute op operands (result s.next_value ty)) s w refl;
    way = here;
    overriden = refl;
    known = known;
  }

  pub emit-Step :
      (op : Opcode) (operands : List Value) (ty : LlvmType) (s : State B)
      → Ready b t s
      → Returns
          (λ v s'.
            Step b t s s' × (v ≡ result s.next_value ty) × (s'.next_value ≡ s.next_value + 1))
          (emit op operands ty s)
  unfolding emit
  emit-Step op operands ty s r = returns (
    record {
      build =
          emit-Build op operands ty s s.bindings r (λ n h. h) (λ n h. omega (arith, r.bounded n h));
      loops = λ n. refl;
    },
    refl,
    refl,
  )
