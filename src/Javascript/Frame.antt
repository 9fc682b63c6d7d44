-- ===== src/Javascript/Frame.antt =====
-- What every piece of the JavaScript visitor leaves as it was.
use b.Base.{
  ◌≡◌, refl, sym, ◌∙◌, ap, Bool, true, false, [], ◌++◌, append_assoc, append-nil, Str, arith, find,
  ◌≤◌, ok,
}
use b.Base.Int.{ℤ, pos, ◌+ℤ◌, ◌-ℤ◌}
use b.Base.Post.{Partial, Post-bind, Post-weaken, returns}
use b.Javascript.Emitter.{
  State, Step, ◌>>◌, write, indent, outdent, start_line, end_line, line, blankline, tabs,
}
use b.Javascript.Visitor.{when, count_for}
use b.Javascript.Scope.{NonEmpty}

abbrev Extends : Str → Str → Type 0
Extends s t = (u : Str) × (t ≡ s ++ u)

-- The indentation changes by `i`, the loop variables stand for what they stood for, the counter of
-- the loops does not fall, and text is added behind what was written.
pub record Effect (i : ℤ → ℤ) (s s' : State) : Type 0 where
  pub indented : s'.indentation_count ≡ i s.indentation_count
  pub same_check : s'.undefined_check ≡ s.undefined_check
  pub scoped : (x : Str) → find x s'.shadow_values ≡ find x s.shadow_values
  pub counted : s.for_counter ≤ s'.for_counter
  pub extended : Extends s.output s'.output

abbrev pub Does : (ℤ → ℤ) → Step → Type 0
Does i p = (s : State) → NonEmpty s.shadow_values → Partial (Effect i s) (p s)

abbrev pub stay : ℤ → ℤ
stay n = n

abbrev pub up : ℤ → ℤ
up n = n +ℤ pos 1

abbrev pub down : ℤ → ℤ
down n = n -ℤ pos 1

Extends-refl : (s : Str) → Extends s s
Extends-refl s = ([], sym (append-nil s))

Extends-trans : (s t u : Str) → Extends s t → Extends t u → Extends s u
Extends-trans s t u (v, p) (w, q) = (v ++ w, q ∙ ap (λ x. x ++ w) p ∙ append_assoc s v w)

Effect-trans :
    (i j : ℤ → ℤ) (s t u : State) → Effect i s t → Effect j t u → Effect (λ n. j (i n)) s u
Effect-trans i j s t u p q = record {
  indented = q.indented ∙ ap j p.indented;
  same_check = q.same_check ∙ p.same_check;
  scoped = λ x. q.scoped x ∙ p.scoped x;
  counted = omega (arith, p.counted, q.counted);
  extended = Extends-trans s.output t.output u.output p.extended q.extended;
}

-- the loop variables still stand for no empty string
Effect-NonEmpty :
    {i : ℤ → ℤ} (s t : State) → Effect i s t → NonEmpty s.shadow_values → NonEmpty t.shadow_values
Effect-NonEmpty s t p ne x e = ne x (sym (p.scoped x) ∙ e)

pub Does-then : (i j : ℤ → ℤ) (p q : Step) → Does i p → Does j q → Does (λ n. j (i n)) (p >> q)
Does-then i j p q hp hq s ne =
    Post-bind (hp s ne)
      λ t e. Post-weaken (hq t (Effect-NonEmpty s t e ne)) λ u e'. Effect-trans i j s t u e e'

pub Does-ok : Does stay ok
Does-ok s ne = returns (record {
  indented = refl;
  same_check = refl;
  scoped = λ x. refl;
  counted = omega arith;
  extended = Extends-refl s.output;
})

pub Does-write : (text : Str) → Does stay (write text)
unfolding write
Does-write text s ne = returns (record {
  indented = refl;
  same_check = refl;
  scoped = λ x. refl;
  counted = omega arith;
  extended = (text, refl);
})

pub Does-indent : Does up indent
unfolding indent
Does-indent s ne = returns (record {
  indented = refl;
  same_check = refl;
  scoped = λ x. refl;
  counted = omega arith;
  extended = Extends-refl s.output;
})

pub Does-outdent : Does down outdent
unfolding outdent
Does-outdent s ne = returns (record {
  indented = refl;
  same_check = refl;
  scoped = λ x. refl;
  counted = omega arith;
  extended = Extends-refl s.output;
})

pub Does-count_for : Does stay count_for
unfolding count_for
Does-count_for s ne = returns (record {
  indented = refl;
  same_check = refl;
  scoped = λ x. refl;
  counted = omega arith;
  extended = Extends-refl s.output;
})

pub Does-start_line : Does stay start_line
unfolding start_line
Does-start_line s ne = Does-write (tabs _) s ne

pub Does-end_line : Does stay end_line
unfolding end_line
Does-end_line s ne = Does-write _ s ne

pub Does-blankline : Does stay blankline
unfolding blankline
Does-blankline = Does-write _

-- Pieces that keep the indentation, one behind the other.
infixl 10 ◌⨾◌
pub ◌⨾◌ : {p q : Step} → Does stay p → Does stay q → Does stay (p >> q)
◌⨾◌ {p} {q} hp hq = Does-then stay stay p q hp hq

down-up : (n : ℤ) → down (up n) ≡ n
unfolding ◌+ℤ◌ ◌-ℤ◌
down-up n = ground arith

-- A piece between `indent` and `outdent` keeps the indentation.
Does-level : (p : Step) → Does (λ n. down (up n)) p → Does stay p
Does-level p h s ne = Post-weaken (h s ne) λ t e. record {
  indented = e.indented ∙ down-up s.indentation_count;
  same_check = e.same_check;
  scoped = e.scoped;
  counted = e.counted;
  extended = e.extended;
}

-- And behind a piece that indents.
infixl 10 ◌⨾↑◌
pub ◌⨾↑◌ : {p q : Step} → Does up p → Does stay q → Does up (p >> q)
◌⨾↑◌ {p} {q} hp hq = Does-then up stay p q hp hq

-- A piece that outdents closes the level.
infixl 10 ◌⨾↓◌
pub ◌⨾↓◌ : {p q : Step} → Does up p → Does down q → Does stay (p >> q)
◌⨾↓◌ {p} {q} hp hq = Does-level (p >> q) (Does-then up down p q hp hq)

pub Does-line : (text : Str) → Does stay (line text)
unfolding line
Does-line text = Does-start_line ⨾ Does-write text ⨾ Does-end_line

pub Does-when : (test : Bool) (p : Step) → Does stay p → Does stay (when test p)
Does-when true p h = h
Does-when false p h = Does-ok

-- And behind a piece that outdents.
infixl 10 ◌⨾-◌
pub ◌⨾-◌ : {p q : Step} → Does down p → Does stay q → Does down (p >> q)
◌⨾-◌ {p} {q} hp hq = Does-then down stay p q hp hq
