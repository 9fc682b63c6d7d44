-- ===== src/Llvm/Visitor/LoopBody.antt =====
-- The block "loop": the variables of the loop are there for its body only.
use b.Base.{
  ℕ, ◌≤◌, ◌≡◌, refl, sym, ◌∙◌, subst, true, false, Option, none, some, Str, arith, inl, inr,
  Bool-cases,
}
use b.Llvm.{Value, State, M, ◌>>◌}
use b.Llvm.Bindings.{Bindings}
use b.Llvm.Returns.{Returns, returns, Returns-bind, Returns-weaken}
use b.Llvm.Steps.{Tracked, number, Ready, Step, IsKnown, IsKnown-mono, Step-refl, Step-trans}
use b.Llvm.Steps.Lawful.{Lawful, Asked, Condition}
use b.Llvm.Expressions.Numbers.{some_injective}
use b.Llvm.Visitor.{
  is_some, bound, restored, old_variable, set_overriden, set_variable, restore_variable, change,
  leave_variable, loop_body,
}
use b.Llvm.Visitor.Supported.{Status, with_variable}
use b.Llvm.Visitor.Scopes.{
  Matches, Matches-Step, Step-scoped, Bound, Ready-bound, Matches-bound, restored-bound,
}

module _ {B : Type 0} {b : Bindings B} {t : Tracked B} (laws : Lawful b t) where
  pub not_looping :
      {s s₁ : State B} (n : ℕ)
      → Ready b t s
      → Step b t s s₁
      → s.next_value ≤ n
      → t.looping s₁.bindings n ≡ false
  not_looping {s} n r p h = elim (Bool-cases (t.looping s.bindings n)) [
    | inl yes_ ↦ absurd (omega (arith, r.bounded n yes_))
    | inr no_ ↦ p.loops n ∙ no_
  ]

  Asked-Bound :
      (x : Option Str) (v : Option Value) {s s₁ : State B}
      → Ready b t s
      → Step b t s s₁
      → Asked b t s s₁ (is_some x) v
      → Bound b t x v s₁
  Asked-Bound none v r p a = record {
    bound_known = λ w e. cc;
    bound_below = λ w e. cc;
    bound_free = λ w e. cc;
    has_value = λ y e. cc;
  }
  Asked-Bound (some x) none r p a = elim a [ ]
  Asked-Bound (some x) (some v) {s} {s₁} r p (k, (above, below)) = record {
    bound_known = λ w e. subst (IsKnown b t s₁.bindings) (some_injective e) k;
    bound_below = λ w e. ground (arith, below);
    bound_free = λ w e.
        subst (λ u. t.looping s₁.bindings (number u) ≡ false) (some_injective e)
          (not_looping (number v) r p above);
    has_value = λ y e. (v, refl);
  }

  Bound-scoped :
      {x : Option Str} {v : Option Value} {s : State B} (m : Str → Option Value)
      → Bound b t x v s
      → Bound b t x v (set_overriden m s)
  Bound-scoped m h = record {
    bound_known = h.bound_known;
    bound_below = h.bound_below;
    bound_free = h.bound_free;
    has_value = h.has_value;
  }

  -- A variable goes out of scope.
  leave-Step :
      (x : Option Str) (v : Option Value) {s₁ s : State B}
      → Bound b t x v s₁
      → ((n : ℕ) → t.known s₁.bindings n ≡ true → t.known s.bindings n ≡ true)
      → Ready b t s
      → Returns (λ _ s'. Step b t s s') (leave_variable b x v s)
  leave-Step none v h k r = returns (Step-refl b t r)
  leave-Step (some x) none h k r = let (w, e) = h.has_value x refl in cc
  leave-Step (some x) (some v) {s = s} h k r =
      let (a, c, d) = h.bound_known v refl in laws.goes_out v s r (a, c, k (number v) d)

  -- The variables of before are back.
  restored-Step :
      (key value : Option Str) (k v : Option Value) (s s₁ s₂ : State B)
      → Ready b t s₁
      → s₁.overriden ≡ s.overriden
      → Step b t (set_variable value v (set_variable key k s₁)) s₂
      → Step b t s₁ (
          restore_variable value
            (old_variable value s.overriden)
            (restore_variable key (old_variable key s.overriden) s₂))
  restored-Step key value k v s s₁ s₂ r same p =
      let back : restored value (old_variable value s.overriden)
            (restored key (old_variable key s.overriden) s₂.overriden)
          ≡ s₁.overriden =
        rw (p.build.overriden, sym same) (restored-bound key value k v s₁.overriden) in
      subst (λ o. Step b t s₁ (set_overriden o s₂)) (sym back)
        (Step-scoped b t (bound value v (bound key k s₁.overriden)) r p)

  module _ (key value : Option Str) (iterable : Value) (visit : M B (Unit {0})) (st : Status)
      (visits : (s : State B)
        → Ready b t s
        → Matches b t (with_variable value (with_variable key st)) s
        → Returns (λ _ s'. Step b t s s') (visit s)) where
    -- from the variables of the loop to those of before
    scoped-Step :
        (k v : Option Value) (s s₁ : State B)
        → Ready b t s₁
        → Matches b t st s₁
        → s₁.overriden ≡ s.overriden
        → Bound b t key k s₁
        → Bound b t value v s₁
        → (R : Value → State B → Type 0) (next : M B Value)
        → ((s' : State B) → Step b t s₁ s' → Returns R (next s'))
        → Returns R (
            (do
              change (set_variable key k)
              change (set_variable value v)
              visit
              leave_variable b key k
              leave_variable b value v
              change (restore_variable key (old_variable key s.overriden))
              change (restore_variable value (old_variable value s.overriden))
              next)
              s₁)
    scoped-Step k v s s₁ r m same hk hv R next then_ =
        let s₂ = set_variable key k s₁ in
        let s₃ = set_variable value v s₂ in
        let hv' = Bound-scoped (bound key k s₁.overriden) hv in
        let r₃ = Ready-bound b t value v s₂ (Ready-bound b t key k s₁ r hk) hv' in
        let m₃ = Matches-bound b t value v _ s₂ (Matches-bound b t key k st s₁ m hk) hv' in
        Returns-bind visit _ s₃ (visits s₃ r₃ m₃) λ _ s₄ p.
          Returns-bind (leave_variable b key k) _ s₄
            (leave-Step key k hk p.build.known p.build.ready)
            λ _ s₅ q.
              Returns-bind (leave_variable b value v) _ s₅
                (leave-Step value v hv (λ n h. q.build.known n (p.build.known n h)) q.build.ready)
                λ _ s₆ u. then_ _ (
                  restored-Step key value k v s s₁ s₆ r same
                    (Step-trans b t r₃ p (Step-trans b t p.build.ready q u)))

    pub loop_body-Condition :
        (s : State B)
        → Ready b t s
        → Matches b t st s
        → IsKnown b t s.bindings iterable
        → t.looping s.bindings (number iterable) ≡ true
        → Returns (Condition b t s) (loop_body b key value iterable visit s)
    loop_body-Condition s r m h l =
        Returns-bind (b.create_for_loop_get_variables iterable (is_some key) (is_some value)) _ s
          (laws.loop_variables iterable (is_some key) (is_some value) s r h l)
          λ kv s₁ (p, ak, av).
            scoped-Step kv.0 kv.1 s s₁ p.build.ready (Matches-Step b t m p) p.build.overriden
              (Asked-Bound key kv.0 r p ak) (Asked-Bound value kv.1 r p av) (Condition b t s)
              (b.create_for_loop_next_iteration iterable)
              (λ s' q.
                let u = Step-trans b t r p q in
                Returns-weaken
                  (laws.loop_next iterable s' u.build.ready (IsKnown-mono b t iterable u.build h)
                    (u.loops (number iterable) ∙ l))
                  (λ c s'' (v, ty). (Step-trans b t r u v, ty)))
