-- ===== src/Llvm/Visitor/Scopes.antt =====
-- The variables of a loop hide others inside it only.
use mathlib.Core.Path.{fun_ext}
use b.Base.{
  ◌<◌, ◌≡◌, refl, sym, ap, ◌∙◌, true, false, Option, none, some, Str, str_eq, str_eq→eq, arith,
}
use b.Llvm.{Value, State}
use b.Llvm.Bindings.{Bindings}
use b.Llvm.Steps.{Tracked, number, Ready, Step, IsKnown}
use b.Llvm.Visitor.{bound, restored, old_variable, set_overriden}
use b.Llvm.Visitor.Supported.{Status, with_variable}

abbrev Variables : Type 0
Variables = Str → Option Value

same_variable : (m : Variables) (x y : Str) → str_eq x y ≡ true → m x ≡ m y
same_variable m x y h = ap m (str_eq→eq x y h)

-- Restoring the values of before undoes the binding of both variables, also where they have the same
-- name.
pub restored-bound :
    (key value : Option Str) (k v : Option Value) (m : Variables)
    → restored value
        (old_variable value m)
        (restored key (old_variable key m) (bound value v (bound key k m)))
      ≡ m
restored-bound none none k v m = refl
restored-bound (some x) none none v m = fun_ext λ y. ground (arith, same_variable m x y)
restored-bound (some x) none (some k) v m = fun_ext λ y. ground (arith, same_variable m x y)
restored-bound none (some z) k none m = fun_ext λ y. ground (arith, same_variable m z y)
restored-bound none (some z) k (some v) m = fun_ext λ y. ground (arith, same_variable m z y)
restored-bound (some x) (some z) none none m =
    fun_ext λ y. ground (arith, same_variable m x y, same_variable m z y)
restored-bound (some x) (some z) (some k) none m =
    fun_ext λ y. ground (arith, same_variable m x y, same_variable m z y)
restored-bound (some x) (some z) none (some v) m =
    fun_ext λ y. ground (arith, same_variable m x y, same_variable m z y)
restored-bound (some x) (some z) (some k) (some v) m =
    fun_ext λ y. ground (arith, same_variable m x y, same_variable m z y)

module _ {B : Type 0} (b : Bindings B) (t : Tracked B) where
  -- What is known of the variables of the loops around.
  pub record Matches (st : Status) (s : State B) : Type 0 where
    pub absent : (x : Str) → st x ≡ none → s.overriden x ≡ none
    pub free :
        (x : Str) (v : Value)
        → st x ≡ some true
        → s.overriden x ≡ some v
        → t.looping s.bindings (number v) ≡ false

  pub Matches-Step : {st : Status} {s s' : State B} → Matches st s → Step b t s s' → Matches st s'
  Matches-Step {st} {s} {s'} m p = record {
    absent = λ x h. ap (λ f. f x) p.build.overriden ∙ m.absent x h;
    free = λ x v h o. p.loops (number v) ∙ m.free x v h (sym (ap (λ f. f x) p.build.overriden) ∙ o);
  }

  -- A piece that ran with other variables is a step once those of before are back.
  pub Step-scoped :
      {s s' : State B} (m : Variables)
      → Ready b t s
      → Step b t (set_overriden m s) s'
      → Step b t s (set_overriden s.overriden s')
  Step-scoped {s} {s'} m r p = record {
    build = record {
      ready = record {
        inside = p.build.ready.inside;
        opened = p.build.ready.opened;
        bounded = p.build.ready.bounded;
        scope = λ x v h. let (a, c, d) = r.scope x v h in (a, c, p.build.known (number v) d);
        scope_below = λ x v h. omega (arith, r.scope_below x v h, p.build.values_grow);
      };
      blocks_grow = p.build.blocks_grow;
      values_grow = p.build.values_grow;
      frame = p.build.frame;
      fresh = p.build.fresh;
      left = p.build.left;
      moved = p.build.moved;
      jumps = p.build.jumps;
      way = p.build.way;
      overriden = refl;
      known = p.build.known;
    };
    loops = p.loops;
  }

  -- a variable of the loop, with its value
  pub record Bound (x : Option Str) (v : Option Value) (s : State B) : Type 0 where
    pub bound_known : (w : Value) → v ≡ some w → IsKnown b t s.bindings w
    pub bound_below : (w : Value) → v ≡ some w → number w < s.next_value
    pub bound_free : (w : Value) → v ≡ some w → t.looping s.bindings (number w) ≡ false
    pub has_value : (y : Str) → x ≡ some y → (w : Value) × (v ≡ some w)

  pub Ready-bound :
      (x : Option Str) (v : Option Value) (s : State B)
      → Ready b t s
      → Bound x v s
      → Ready b t (set_overriden (bound x v s.overriden) s)
  Ready-bound none v s r h = r
  Ready-bound (some x) none s r h = r
  Ready-bound (some x) (some v) s r h = record {
    inside = r.inside;
    opened = r.opened;
    bounded = r.bounded;
    scope = λ y w e. ground (arith, r.scope y w, h.bound_known w);
    scope_below = λ y w e. ground (arith, r.scope_below y w, h.bound_below w);
  }

  pub Matches-bound :
      (x : Option Str) (v : Option Value) (st : Status) (s : State B)
      → Matches st s
      → Bound x v s
      → Matches (with_variable x st) (set_overriden (bound x v s.overriden) s)
  Matches-bound none v st s m h = m
  Matches-bound (some x) none st s m h = let (w, e) = h.has_value x refl in cc
  Matches-bound (some x) (some v) st s m h = record {
    absent = λ y e. ground (arith, m.absent y);
    free = λ y w e o. ground (arith, m.free y w, h.bound_free w);
  }
