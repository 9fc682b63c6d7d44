-- ===== src/Llvm/Visitor/Loops.antt =====
-- A loop: its blocks are filled from ready states, and the whole is a step.
use b.Base.{ℕ, ◌+◌, ◌≡◌, ◌<◌, refl, ap, ◌∙◌, true, [], arith}
use b.Llvm.{Value, cond_br, br, State, insert, new_block, set_insert_point}
use b.Llvm.Bindings.{Bindings}
use b.Llvm.Steps.Jumps.{insert-JumpsWithin}
use b.Llvm.Steps.{open_block, Tracked, Ready, Build, Step}
use b.Llvm.Steps.Lawful.{LoopSet}
use b.Llvm.Steps.Fork.{Finish, Moved, Opened, Blocks, finish, fork, waiting}
use b.Llvm.Flow.{Route-trans, here}
use b.Llvm.Steps.Ways.{
  Settled, Settled-trans, Way, EndsWith, Way-Settled, insert-Settled, move-Settled, insert-EndsWith,
  via-Way, Build-Settled,
}
use b.Llvm.Visitor.{for_blocks, branch}
use b.Llvm.Visitor.Branches.{
  three_blocks-JumpsWithin, branch-JumpsWithin, three_blocks, Opened-of, waiting_second,
  waiting_third, move-Moved, Ready-moved, Build-of,
}
use b.Llvm.Visitor.Conditional.{three_blocks-Ready}

-- How the control goes through a loop whose blocks "loop", "loopElse" and "afterLoop" are `n`, `n + 1`
-- and `n + 2`: the first test goes to the loop or to the other branch, the loop comes to a test that
-- goes back to it or on behind it, and the other branch comes there too.
pub record LoopFlow {B : Type 0} (n start : ℕ) (first again : Value) (s : State B) : Type 0 where
  pub enter : ℕ
  pub back : ℕ
  pub enter_inside : enter < s.next_block
  pub back_inside : back < s.next_block
  pub enter_way : Way s start enter
  pub enter_end : EndsWith s enter (cond_br first n (n + 1))
  pub body_way : Way s n back
  pub back_end : EndsWith s back (cond_br again n (n + 2))
  pub else_way : Way s (n + 1) (n + 2)

pub LoopFlow-Settled :
    {B : Type 0} (n start : ℕ) (first again : Value) (s s' : State B)
    → Settled s s'
    → LoopFlow n start first again s
    → LoopFlow n start first again s'
LoopFlow-Settled n start first again s s' p f = record {
  enter = f.enter;
  back = f.back;
  enter_inside = omega (arith, f.enter_inside, p.grow);
  back_inside = omega (arith, f.back_inside, p.grow);
  enter_way = Way-Settled p f.enter_way;
  enter_end = p.ends f.enter _ f.enter_inside refl f.enter_end;
  body_way = Way-Settled p f.body_way;
  back_end = p.ends f.back _ f.back_inside refl f.back_end;
  else_way = Way-Settled p f.else_way;
}

module _ {B : Type 0} (b : Bindings B) (t : Tracked B) where
  pub for_blocks-Ready : {s : State B} → Ready b t s → Ready b t (for_blocks s)
  for_blocks-Ready r = three_blocks-Ready b t true r

  -- `u` is the state behind `createForLoopInit`
  module _ {s u : State B} (r : Ready b t s) (i : Build b t (for_blocks s) u) (first : Value) where
    abbrev pub loop_start : State B
    loop_start = branch first s.next_block (s.next_block + 1) s.next_block u

    init-Finish :
        Finish (three_blocks true s) (insert (cond_br first s.next_block (s.next_block + 1)) u)
    init-Finish =
        finish {b = b} {t = t} (cond_br first s.next_block (s.next_block + 1)) refl
          (for_blocks-Ready r) i

    loop-Opened : Opened s.next_block s loop_start
    loop-Opened =
        Opened-of true s (insert (cond_br first s.next_block (s.next_block + 1)) u) r.inside
          init-Finish

    pub loop_start-Ready : Ready b t loop_start
    unfolding insert set_insert_point
    loop_start-Ready =
        Ready-moved b t i.ready (omega (arith, loop-Opened.room)) loop-Opened.opened refl refl refl

    start-Settled : Settled u loop_start
    start-Settled =
        let end = cond_br first s.next_block (s.next_block + 1) in
        Settled-trans (insert-Settled end u i.ready.opened)
          (move-Settled s.next_block (insert end u))

    start-EndsWith :
        EndsWith loop_start u.insert_block (cond_br first s.next_block (s.next_block + 1))
    unfolding set_insert_point
    start-EndsWith = insert-EndsWith (cond_br first s.next_block (s.next_block + 1)) u

    start-Way : Way loop_start s.insert_block u.insert_block
    unfolding new_block
    start-Way = Way-Settled start-Settled i.way

    module _ {v : State B} (p : Step b t loop_start v) (again : Value) where
      abbrev pub else_start : State B
      else_start = branch again s.next_block (s.next_block + 2) (s.next_block + 1) v

      body-Finish : Finish loop_start (insert (cond_br again s.next_block (s.next_block + 2)) v)
      body-Finish =
          finish {b = b} {t = t} (cond_br again s.next_block (s.next_block + 2)) refl
            loop_start-Ready p.build

      else-Moved :
          Moved
            (s.next_block + 1)
            (insert (cond_br again s.next_block (s.next_block + 2)) v)
            else_start
      else-Moved =
          move-Moved (s.next_block + 1) (insert (cond_br again s.next_block (s.next_block + 2)) v)

      else-waits :
          (insert (cond_br again s.next_block (s.next_block + 2)) v).block (s.next_block + 1)
          ≡ record { instructions = []; placed = true }
      else-waits =
          waiting (s.next_block + 1) body-Finish (omega (arith, loop-Opened.room))
            (omega (arith, loop-Opened.point))
          ∙ waiting_second true s (insert (cond_br first s.next_block (s.next_block + 1)) u)
              r.inside init-Finish

      pub else_start-Ready : Ready b t else_start
      unfolding insert set_insert_point
      else_start-Ready =
          Ready-moved b t p.build.ready (omega (arith, loop-Opened.room, p.build.blocks_grow))
            (ap open_block else-waits) refl refl refl

      back-Settled : Settled v else_start
      back-Settled =
          let end = cond_br again s.next_block (s.next_block + 2) in
          Settled-trans (insert-Settled end v p.build.ready.opened)
            (move-Settled (s.next_block + 1) (insert end v))

      body-Settled : Settled loop_start else_start
      body-Settled = Settled-trans (Build-Settled loop_start-Ready p.build) back-Settled

      back-EndsWith :
          EndsWith else_start v.insert_block (cond_br again s.next_block (s.next_block + 2))
      unfolding set_insert_point
      back-EndsWith = insert-EndsWith (cond_br again s.next_block (s.next_block + 2)) v

      body-Way : Way else_start s.next_block v.insert_block
      unfolding set_insert_point
      body-Way = Way-Settled back-Settled p.build.way

      module _ {w : State B} (q : Step b t else_start w) where
        abbrev pub loop_end : State B
        loop_end = set_insert_point (s.next_block + 2) (insert (br (s.next_block + 2)) w)

        else-Finish : Finish else_start (insert (br (s.next_block + 2)) w)
        else-Finish = finish {b = b} {t = t} (br (s.next_block + 2)) refl else_start-Ready q.build

        end-waits :
            (insert (br (s.next_block + 2)) w).block (s.next_block + 2)
            ≡ record { instructions = []; placed = true }
        end-waits =
            waiting (s.next_block + 2) else-Finish
              (omega (arith, else-Moved.same_next, body-Finish.blocks_grow, loop-Opened.room))
              (omega (arith, else-Moved.point))
            ∙ else-Moved.others (s.next_block + 2) (λ e. absurd (omega (arith, e)))
            ∙ waiting (s.next_block + 2) body-Finish (omega (arith, loop-Opened.room))
                (omega (arith, loop-Opened.point))
            ∙ waiting_third true s (insert (cond_br first s.next_block (s.next_block + 1)) u)
                r.inside init-Finish

        loop-Blocks : Blocks s loop_end
        loop-Blocks =
            fork loop-Opened body-Finish else-Moved else-Finish
              (move-Moved (s.next_block + 2) (insert (br (s.next_block + 2)) w)) r.inside

        loop_end-Ready : Ready b t loop_end
        unfolding insert set_insert_point
        loop_end-Ready =
            Ready-moved b t q.build.ready loop-Blocks.inside (ap open_block end-waits) refl refl
              refl

        last-Settled : Settled w loop_end
        last-Settled =
            Settled-trans (insert-Settled (br (s.next_block + 2)) w q.build.ready.opened)
              (move-Settled (s.next_block + 2) (insert (br (s.next_block + 2)) w))

        else-Settled : Settled else_start loop_end
        else-Settled = Settled-trans (Build-Settled else_start-Ready q.build) last-Settled

        else-Way : Way loop_end (s.next_block + 1) (s.next_block + 2)
        unfolding set_insert_point insert
        else-Way = Route-trans (Way-Settled last-Settled q.build.way) (
            via-Way loop_end (br (s.next_block + 2)) (s.next_block + 2) q.build.ready.inside
              (insert-EndsWith (br (s.next_block + 2)) w) (ground arith) here)

        pub loop-LoopFlow : LoopFlow s.next_block s.insert_block first again loop_end
        loop-LoopFlow =
            let kept = Settled-trans body-Settled else-Settled in
            let enter_ : u.insert_block < loop_start.next_block =
              omega (arith, i.ready.inside, start-Settled.grow) in
            let back_ : v.insert_block < else_start.next_block =
              omega (arith, p.build.ready.inside, back-Settled.grow) in
            record {
              enter = u.insert_block;
              back = v.insert_block;
              enter_inside = omega (arith, i.ready.inside, start-Settled.grow, kept.grow);
              back_inside =
                  omega (arith, p.build.ready.inside, back-Settled.grow, else-Settled.grow);
              enter_way = Way-Settled kept start-Way;
              enter_end = kept.ends u.insert_block _ enter_ refl start-EndsWith;
              body_way = Way-Settled else-Settled body-Way;
              back_end = else-Settled.ends v.insert_block _ back_ refl back-EndsWith;
              else_way = else-Way;
            }

        -- past the other branch
        loop-Way : Way loop_end s.insert_block (s.next_block + 2)
        unfolding loop-LoopFlow
        loop-Way =
            let f = loop-LoopFlow in
            Route-trans f.enter_way (
              via-Way loop_end (cond_br first s.next_block (s.next_block + 1)) (s.next_block + 1)
                f.enter_inside f.enter_end (ground arith) else-Way)

        pub loop-Build : Build b t s loop_end
        unfolding insert set_insert_point new_block
        loop-Build = Build-of b t loop-Blocks loop_end-Ready (record {
          values_grow = omega (arith, i.values_grow, p.build.values_grow, q.build.values_grow);
          jumps = λ lo h js.
              insert-JumpsWithin lo (br (s.next_block + 2)) w
                (q.build.jumps lo (omega (arith, loop-Opened.room, p.build.blocks_grow)) (
                  branch-JumpsWithin lo again s.next_block (s.next_block + 2) (s.next_block + 1) v h
                    (omega (arith, loop-Opened.room, p.build.blocks_grow)) (omega arith)
                    (omega (arith, loop-Opened.room, p.build.blocks_grow))
                    (p.build.jumps lo (omega (arith, loop-Opened.room)) (
                      branch-JumpsWithin lo first s.next_block (s.next_block + 1) s.next_block u h
                        (omega (arith, i.blocks_grow)) (omega arith) (omega (arith, i.blocks_grow))
                        (i.jumps lo (omega arith) (three_blocks-JumpsWithin lo true s js))))))
                (ground (arith, loop-Opened.room, p.build.blocks_grow, q.build.blocks_grow));
          way = loop-Way;
          overriden = q.build.overriden ∙ p.build.overriden ∙ i.overriden;
          known = λ n h. q.build.known n (p.build.known n (i.known n h));
        })

        -- the number of the iterable is the only one that the loop runs over on top
        pub loop-LoopSet :
            (n : ℕ) → LoopSet b t n true (for_blocks s) u → LoopSet b t n true s loop_end
        unfolding insert set_insert_point new_block
        loop-LoopSet n l m = q.loops m ∙ p.loops m ∙ l m
