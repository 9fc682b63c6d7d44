-- ===== src/Php/Bindings/References.antt =====
-- The counts of references: a variant that has a count may go out of scope.
use b.Base.{
  ◌+◌, ◌≤◌, ℕ, ◌<◌, ◌≡◌, inl, inr, refl, ap, ◌∙◌, Bool, true, false, Option, some, List, [], ◌∷◌,
  codes, if◌then◌else◌, str_eq_refl, Bool-cases, Option-cases, arith,
}
use b.Base.Int.{ℤ, pos, ◌+ℤ◌, ◌-ℤ◌, is_zero}
use b.Llvm.{
  cond_br, ret_void, Value, result, type_of, Opcode, State, ◌>>=◌, pure, emit, insert, new_block,
  set_insert_point, void_type, call,
}
use b.Llvm.Returns.{Returns, returns, Returns-bind, Returns-weaken}
use b.Llvm.Flow.{here, via}
use b.Llvm.Steps.Jumps.{insert-JumpsWithin, new_block-JumpsWithin}
use b.Llvm.Steps.{
  JumpsWithin, Tracked, number, is_result, Ready, Build, Step, IsKnown, Step-refl, Step-trans,
}
use b.Llvm.Steps.Emit.{emit-Step}
use b.Llvm.Steps.Lawful.{NewVariant}
use b.Llvm.Visitor.{is_some}
use b.Php.Bindings.{
  PhpState, find_at, put_at, variant_name, variant_type, is_variant_type, is_uncounted,
  set_ref_count, emit_counted, count_down, variable_goes_out_of_scope,
  get_new_reference_for_variable, create_ret_void_if_call_fails, php_bindings,
}

abbrev pub php_tracked : Tracked PhpState
php_tracked = record {
  known = λ s n. is_some (s.ref_count n);
  looping = λ s n. is_some (s.metadata n);
}

abbrev pub PhpReady : State PhpState → Type 0
PhpReady s = Ready php_bindings php_tracked s

abbrev pub PhpStep : State PhpState → State PhpState → Type 0
PhpStep s s' = Step php_bindings php_tracked s s'

abbrev pub Stepped : {A : Type 0} → State PhpState → A → State PhpState → Type 0
Stepped s a s' = PhpStep s s'

-- Only the state of the bindings changes.
pub bindings-Build :
    (s : State PhpState) (d : PhpState)
    → PhpReady s
    → ((n : ℕ) → is_some (s.bindings.ref_count n) ≡ true → is_some (d.ref_count n) ≡ true)
    → ((n : ℕ) → is_some (d.metadata n) ≡ true → n < s.next_value)
    → Build php_bindings php_tracked s (record s { bindings = d })
bindings-Build s d r known bounded = record {
  ready = record {
    inside = r.inside;
    opened = r.opened;
    bounded = bounded;
    scope = λ x v h. let (a, c, k) = r.scope x v h in (a, c, known (number v) k);
    scope_below = r.scope_below;
  };
  blocks_grow = omega arith;
  values_grow = omega arith;
  frame = λ l h e. refl;
  fresh = λ l h k e. absurd (omega arith);
  left = λ e. absurd (e refl);
  moved = inl refl;
  jumps = λ lo h w. w;
  way = here;
  overriden = refl;
  known = known;
}

pub set_ref_count-Step :
    (v : Value) (c : ℤ) (s : State PhpState)
    → is_result v ≡ true
    → PhpReady s
    → Returns
        (λ _ s'.
          PhpStep s s'
          × (is_some (s'.bindings.ref_count (number v)) ≡ true)
          × (s'.next_value ≡ s.next_value))
        (set_ref_count v c s)
unfolding set_ref_count
set_ref_count-Step (result k ty) c s h r = returns (
  record {
    build =
        bindings-Build s
          (record s.bindings { ref_count = put_at (result k ty) (some c) s.bindings.ref_count }) r
          (λ n e. ground (arith, e)) r.bounded;
    loops = λ n. refl;
  },
  ground arith,
  refl,
)
set_ref_count-Step _ c s h r = cc

pub emit_counted-New :
    (op : Opcode) (operands : List Value) (c : ℤ) (s : State PhpState)
    → PhpReady s
    → Returns (NewVariant php_bindings php_tracked s) (emit_counted op operands c s)
unfolding emit_counted
emit_counted-New op operands c s r =
    Returns-bind (emit op operands variant_type) _ s
      (emit-Step php_bindings php_tracked op operands variant_type s r)
      λ v s₁ (p, is, next).
        Returns-bind (set_ref_count v c) _ s₁
          (set_ref_count-Step v c s₁ (ap is_result is) p.build.ready)
          λ _ s₂ (q, counted, same). returns (
            Step-trans php_bindings php_tracked r p q,
            (
              ap (λ u. is_variant_type (type_of u)) is ∙ str_eq_refl variant_name,
              ap is_result is,
              counted,
            ),
            (omega (arith, ap number is), omega (arith, ap number is, next, same)),
          )

-- The count of a value that the bindings know.
count_of :
    (v : Value) (m : ℕ → Option ℤ)
    → is_result v ≡ true
    → is_some (m (number v)) ≡ true
    → (c : ℤ) × (find_at v m ≡ some c)
count_of (result n ty) m h k = elim (Option-cases (m n)) [
  | inl e ↦ absurd (cc)
  | inr (c, e) ↦ (c, e)
]
count_of _ m h k = cc

pub leave-Step :
    (v : Value) (s : State PhpState)
    → PhpReady s
    → IsKnown php_bindings php_tracked s.bindings v
    → Returns (Stepped s) (variable_goes_out_of_scope v s)
unfolding variable_goes_out_of_scope
leave-Step v s r (a, h, k) =
    let (c, e) = count_of v s.bindings.ref_count h k in
    elim (Bool-cases (is_uncounted c)) [
      | inl skip ↦ rw (e, skip) (returns (Step-refl php_bindings php_tracked r))
      | inr counted ↦ rw (e, counted) (count_down-Step v c s r h)
    ]
  where
    destroy-Step :
        (z : Bool) (v : Value) (s : State PhpState)
        → PhpReady s
        → Returns (Stepped s) (
            (if z
                then (do _ ← emit (call (codes "destruct_zval")) (v ∷ []) void_type; pure tt)
                else pure tt)
              s)
    destroy-Step true v s r =
        Returns-bind (emit (call (codes "destruct_zval")) (v ∷ []) void_type) _ s
          (emit-Step php_bindings php_tracked (call (codes "destruct_zval")) (v ∷ []) void_type s r)
          λ u s' (p, _, _). returns p
    destroy-Step false v s r = returns (Step-refl php_bindings php_tracked r)

    count_down-Step :
        (v : Value) (c : ℤ) (s : State PhpState)
        → PhpReady s
        → is_result v ≡ true
        → Returns (Stepped s) (count_down v c s)
    count_down-Step v c s r h =
        Returns-bind (set_ref_count v (c -ℤ pos 1)) _ s (set_ref_count-Step v (c -ℤ pos 1) s h r)
          λ _ s₁ (p, _, _).
            Returns-weaken (destroy-Step (is_zero (c -ℤ pos 1)) v s₁ p.build.ready)
              (λ _ s' q. Step-trans php_bindings php_tracked r p q)

pub reference-Step :
    (v : Value) (s : State PhpState)
    → PhpReady s
    → IsKnown php_bindings php_tracked s.bindings v
    → Returns (λ v' s'. PhpStep s s' × (v' ≡ v)) (get_new_reference_for_variable v s)
unfolding get_new_reference_for_variable
reference-Step v s r (a, h, k) =
    let (c, e) = count_of v s.bindings.ref_count h k in
    elim (Bool-cases (is_uncounted c)) [
      | inl skip ↦ rw (e, skip) (returns (Step-refl php_bindings php_tracked r, refl))
      | inr counted ↦
          rw (e, counted)
            (Returns-bind (set_ref_count v (c +ℤ pos 1)) _ s
              (set_ref_count-Step v (c +ℤ pos 1) s h r) λ _ s₁ (p, _, _). returns (p, refl))
    ]

fails-JumpsWithin :
    (lo : ℕ) (c : Value) (s : State PhpState)
    → lo ≤ s.next_block
    → JumpsWithin lo s
    → JumpsWithin lo (
        set_insert_point
          (s.next_block + 1)
          (insert (cond_br c s.next_block (s.next_block + 1)) (new_block true (new_block true s))))
unfolding new_block set_insert_point
fails-JumpsWithin lo c s h w =
    insert-JumpsWithin lo (cond_br c s.next_block (s.next_block + 1))
      (new_block true (new_block true s))
      (new_block-JumpsWithin lo true (new_block true s) (new_block-JumpsWithin lo true s w))
      (ground arith)

-- The block of the failure returns; the insertion point is that of the success.
pub fails-Step :
    (c : Value) (s : State PhpState)
    → PhpReady s
    → Returns (Stepped s) (create_ret_void_if_call_fails c s)
unfolding create_ret_void_if_call_fails insert new_block set_insert_point
fails-Step c s r = returns (record {
  build = record {
    ready = record {
      inside = omega arith;
      opened = ground (arith, r.inside);
      bounded = r.bounded;
      scope = r.scope;
      scope_below = r.scope_below;
    };
    blocks_grow = omega arith;
    values_grow = omega arith;
    frame = λ l h e. ground (arith, r.inside);
    fresh = λ l h k e. ground (arith, r.inside);
    left = λ e. ground (arith, r.inside, r.opened);
    moved = inr (omega arith);
    jumps = λ lo h w.
        insert-JumpsWithin {B = PhpState} lo ret_void
          (set_insert_point (s.next_block + 1) (
            insert (cond_br c s.next_block (s.next_block + 1)) (new_block true (new_block true s))))
          (fails-JumpsWithin lo c s h w) refl;
    way = via s.next_block (omega (arith, r.inside)) (ground (arith, r.inside)) here;
    overriden = refl;
    known = λ n h. h;
  };
  loops = λ n. refl;
})
