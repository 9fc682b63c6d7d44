-- ===== src/Llvm/Visitor/Statements.antt =====
-- The visitor returns on every template that it supports, and what it leaves is a step.
use b.Base.{◌+◌, ◌≡◌, refl, Option, Str, arith}
use b.Ast.Expression.{Expression}
use b.Ast.Template
use b.Ast.Template.{
  Ast, AstList, Body, statements, raw_block, print_block, if_block, for_block, include_block, cons,
  no_body, body,
}
use b.Llvm.{
  Value, global_string, State, M, done, ◌>>=◌, ◌>>◌, br, insert, new_block, place, set_insert_point,
}
use b.Llvm.Bindings.{Bindings}
use b.Llvm.Returns.{Returns, returns, Returns-bind, Returns-weaken, Returns-same}
use b.Llvm.Steps.{
  variant, flag, text, Tracked, number, Ready, Step, IsKnown-mono, HasKind-mono, Step-refl,
  Step-trans,
}
use b.Llvm.Flow.{Route-trans}
use b.Llvm.Steps.Ways.{Settled-trans, Way, Way-Settled, Build-Settled}
use b.Llvm.Steps.Lawful.{Lawful}
use b.Llvm.Expressions.{expression}
use b.Llvm.Expressions.Total.{Valued, expression-Valued}
use b.Llvm.Visitor.{
  ast, list, visit_body, change, if_blocks, start_block, for_blocks, branch, loop_body,
}
use b.Llvm.Visitor.Supported.{
  Status, inside_loop, with_variable, Iterable, Supported, AllSupported, BodySupported,
}
use b.Llvm.Visitor.Scopes.{Matches, Matches-Step}
use b.Llvm.Visitor.Conditional.{if_first-Ready, if_second-Ready, if-Step, if-IfFlow, IfFlow}
use b.Llvm.Visitor.Loops.{
  for_blocks-Ready, loop_start, loop_start-Ready, else_start, else_start-Ready, loop_end,
  loop-Build, loop-LoopSet, loop-LoopFlow, LoopFlow, LoopFlow-Settled,
}
use b.Llvm.Visitor.LoopBody.{loop_body-Condition}
use b.Llvm.Visitor.Iterables.{
  Matches-same, Iterable-free, inside-Matches, leave_printed-Step, cleaned-Step,
}

module _ {B : Type 0} {b : Bindings B} {t : Tracked B} (laws : Lawful b t) where
  abbrev Stepped : State B → Unit {0} → State B → Type 0
  Stepped s u s' = Step b t s s'

  -- A visit of a body from any ready state.
  abbrev Visits : M B (Unit {0}) → Status → Type 0
  Visits visit st = (s : State B) → Ready b t s → Matches b t st s → Returns (Stepped s) (visit s)

  -- A conditional: the bodies are visited at the starts of "then" and "else", the control goes
  -- through them as IfFlow has it, and the insertion point is "ifcont".
  pub record Branched (c : Value) (visit other : M B (Unit {0})) (s s' : State B) : Type 0 where
    pub step : Step b t s s'
    pub at_then_end : State B
    pub at_else_end : State B
    pub then_visit : visit (if_blocks c s) ≡ done tt at_then_end
    pub else_visit :
        other (start_block (s.next_block + 2) (s.next_block + 1) at_then_end) ≡ done tt at_else_end
    pub flow : IfFlow s.next_block s.insert_block c s'
    pub behind : s'.insert_block ≡ s.next_block + 2

  pub conditional-Step :
      (c : Value) (st : Status) (visit other : M B (Unit {0})) (s : State B)
      → Visits visit st
      → Visits other st
      → Ready b t s
      → Matches b t st s
      → Returns
          (λ _ s'. Branched c visit other s s')
          ((do
            visit
            change (start_block (s.next_block + 2) (s.next_block + 1))
            other
            change (start_block (s.next_block + 2) (s.next_block + 2)))
            (if_blocks c s))
  unfolding insert new_block place set_insert_point
  conditional-Step c st visit other s v o r m =
      Returns-bind visit _ (if_blocks c s)
        (Returns-same (v (if_blocks c s) (if_first-Ready b t c r) (Matches-same laws m refl refl)))
        λ _ s₁ (p, ran).
          Returns-bind other _ (start_block (s.next_block + 2) (s.next_block + 1) s₁)
            (Returns-same (
              o _ (if_second-Ready b t c r p)
                (Matches-same laws (Matches-Step b t (Matches-same laws m refl refl) p) refl refl)))
            λ _ s₂ (q, ran'). returns (record {
              step = if-Step b t c r p q;
              at_then_end = s₁;
              at_else_end = s₂;
              then_visit = ran;
              else_visit = ran';
              flow = if-IfFlow b t c r p q;
              behind = refl;
            })

  -- A loop: the test of its start, the block "loop" from its variables to the test of the next round,
  -- and the other branch are visited at the starts of their blocks, the control goes through them
  -- as LoopFlow has it, and comes to the insertion point behind the loop.
  pub record Looped (key value : Option Str) (iterable : Value) (visit other : M B (Unit {0}))
      (s s' : State B) : Type 0 where
    pub step : Step b t s s'
    pub first : Value
    pub again : Value
    pub at_test : State B
    pub at_next : State B
    pub at_end : State B
    pub init : b.create_for_loop_init iterable (for_blocks s) ≡ done first at_test
    pub rounds :
        loop_body b key value iterable visit
          (branch first s.next_block (s.next_block + 1) s.next_block at_test)
        ≡ done again at_next
    pub otherwise :
        other (branch again s.next_block (s.next_block + 2) (s.next_block + 1) at_next)
        ≡ done tt at_end
    pub flow : LoopFlow s.next_block s.insert_block first again s'
    pub behind : Way s' (s.next_block + 2) s'.insert_block

  pub loop-Step :
      (key value : Option Str) (e : Expression) (iterable : Value) (st : Status)
      (visit other : M B (Unit {0})) (s s₁ : State B)
      → Visits visit (with_variable value (with_variable key (inside_loop e st)))
      → Visits other (inside_loop e st)
      → Iterable st e
      → Ready b t s
      → Matches b t st s
      → Valued laws variant e s iterable s₁
      → Returns
          (λ _ s'. Looped key value iterable visit other s₁ s')
          ((do
            change for_blocks
            first ← b.create_for_loop_init iterable
            change (branch first s₁.next_block (s₁.next_block + 1) s₁.next_block)
            again ← loop_body b key value iterable visit
            change (branch again s₁.next_block (s₁.next_block + 2) (s₁.next_block + 1))
            other
            change (λ u. set_insert_point (s₁.next_block + 2) (insert (br (s₁.next_block + 2)) u))
            b.create_for_loop_cleanup iterable
            b.variable_goes_out_of_scope iterable)
            s₁)
  unfolding insert new_block set_insert_point
  loop-Step key value e iterable st visit other s s₁ v o i r m p =
      let r₁ = p.step.build.ready in
      let free = Iterable-free laws st e iterable r m i p in
      Returns-bind (b.create_for_loop_init iterable) _ (for_blocks s₁)
        (Returns-same
          (laws.loop_init iterable (for_blocks s₁) (for_blocks-Ready b t r₁) p.has_kind p.origin.0))
        λ first u ((init, _, on), ran).
          let m' =
            inside-Matches laws st e iterable {s₂ = loop_start b t r₁ init first} r m p
              init.overriden on in
          Returns-bind (loop_body b key value iterable visit) _ (loop_start b t r₁ init first)
            (Returns-same (
              loop_body-Condition laws key value iterable visit (inside_loop e st) v
                (loop_start b t r₁ init first) (loop_start-Ready b t r₁ init first) m'
                (IsKnown-mono b t iterable init p.has_kind) (ground (arith, on (number iterable)))))
            λ again w ((q, _), ran').
              Returns-bind other _ (else_start b t r₁ init first q again)
                (Returns-same (
                  o (else_start b t r₁ init first q again)
                    (else_start-Ready b t r₁ init first q again)
                    (Matches-same laws (Matches-Step b t m' q) refl refl)))
                λ _ x (z, ran'').
                  let whole = loop-Build b t r₁ init first q again z in
                  let on' = loop-LoopSet b t r₁ init first q again z (number iterable) on in
                  let known = IsKnown-mono b t iterable whole p.has_kind in
                  Returns-bind (b.create_for_loop_cleanup iterable) _
                    (loop_end b t r₁ init first q again z)
                    (laws.loop_cleanup iterable _ whole.ready known)
                    λ _ y (c, off).
                      let cleaned = cleaned-Step laws (number iterable) r₁ free whole on' c off in
                      Returns-weaken
                        (laws.goes_out iterable y c.ready (IsKnown-mono b t iterable c known))
                        (λ _ y' g.
                          let kept =
                            Settled-trans (Build-Settled whole.ready c)
                              (Build-Settled c.ready g.build) in
                          record {
                            step = Step-trans b t r₁ cleaned g;
                            first = first;
                            again = again;
                            at_test = u;
                            at_next = w;
                            at_end = x;
                            init = ran;
                            rounds = ran';
                            otherwise = ran'';
                            flow =
                                LoopFlow-Settled s₁.next_block s₁.insert_block first again _ y' kept
                                  (loop-LoopFlow b t r₁ init first q again z);
                            behind =
                                Route-trans (Way-Settled (Build-Settled c.ready g.build) c.way)
                                  g.build.way;
                          })

  mutual
    unfolding ast list visit_body

    pub ast-Stepped :
        (x : Ast) (st : Status) (s : State B)
        → Supported st x
        → Ready b t s
        → Matches b t st s
        → Returns (Stepped s) (ast b x s)
    ast-Stepped (statements xs) st s h r m = list-Stepped xs st s h r m
    ast-Stepped (raw_block u) st s h r m =
        Returns-bind (b.create_print_call (global_string u)) _ s
          (laws.print text (global_string u) s r refl) λ _ s' p. returns p
    ast-Stepped (print_block e) st s (k, h) r m =
        Returns-bind (expression b e) _ s (expression-Valued laws e k s h r) λ v s₁ p.
          Returns-bind (b.create_print_call v) _ s₁
            (laws.print k v s₁ p.step.build.ready p.has_kind)
            λ _ s₂ q.
              Returns-weaken
                (leave_printed-Step laws k v s₂ q.build.ready
                  (HasKind-mono b t k v q.build p.has_kind))
                (λ _ s' u. Step-trans b t r p.step (Step-trans b t p.step.build.ready q u))
    ast-Stepped (if_block e x y) st s (h, hx, hy) r m =
        Returns-bind (expression b e) _ s (expression-Valued laws e flag s h r) λ c s₁ p.
          rw p.has_kind (
            Returns-weaken
              (conditional-Step c st (visit_body b x) (visit_body b y) s₁
                (λ s' r' m'. visit_body-Stepped x st s' hx r' m')
                (λ s' r' m'. visit_body-Stepped y st s' hy r' m') p.step.build.ready
                (Matches-Step b t m p.step))
              (λ _ s' q. Step-trans b t r p.step q.step))
    ast-Stepped (for_block key value e x y) st s (h, i, hx, hy) r m =
        Returns-bind (expression b e) _ s (expression-Valued laws e variant s h r) λ v s₁ p.
          Returns-weaken
            (loop-Step key value e v st (visit_body b x) (visit_body b y) s s₁
              (λ s' r' m'. visit_body-Stepped x _ s' hx r' m')
              (λ s' r' m'. visit_body-Stepped y (inside_loop e st) s' hy r' m') i r m p)
            (λ _ s' q. Step-trans b t r p.step q.step)
    ast-Stepped (include_block u sc mp) st s h r m = elim h [ ]

    list-Stepped :
        (xs : AstList) (st : Status) (s : State B)
        → AllSupported st xs
        → Ready b t s
        → Matches b t st s
        → Returns (Stepped s) (list b xs s)
    list-Stepped Template.nil st s h r m = returns (Step-refl b t r)
    list-Stepped (cons x xs) st s (h, hs) r m =
        Returns-bind (ast b x) _ s (ast-Stepped x st s h r m) λ _ s₁ p.
          Returns-weaken (list-Stepped xs st s₁ hs p.build.ready (Matches-Step b t m p))
            (λ _ s' q. Step-trans b t r p q)

    pub visit_body-Stepped :
        (x : Body) (st : Status) (s : State B)
        → BodySupported st x
        → Ready b t s
        → Matches b t st s
        → Returns (Stepped s) (visit_body b x s)
    visit_body-Stepped no_body st s h r m = returns (Step-refl b t r)
    visit_body-Stepped (body x) st s h r m = ast-Stepped x st s h r m
