-- ===== src/Llvm/Visitor/Conditional.antt =====
-- A conditional: both bodies are filled from a ready state, and the whole is a step.
use b.Base.{ℕ, ◌+◌, ◌≡◌, refl, ◌∙◌, Bool, false, [], arith}
use b.Llvm.{Value, cond_br, br, State, insert, new_block, place, set_insert_point}
use b.Llvm.Bindings.{Bindings}
use b.Llvm.Steps.{Tracked, Ready, Step, Build-refl}
use b.Llvm.Steps.Fork.{Finish, Moved, Opened, Blocks, finish, fork, waiting}
use b.Llvm.Flow.{Route-trans, here}
use b.Llvm.Steps.Ways.{
  Settled, Settled-trans, Way, EndsWith, Way-Settled, insert-Settled, place-Settled,
  insert-EndsWith, move-Settled, via-Way, Build-Settled,
}
use b.Llvm.Visitor.{if_blocks, start_block}
use b.Llvm.Visitor.Branches.{
  if_blocks-JumpsWithin, start_block-JumpsWithin, three_blocks, three_blocks-Settled,
  start_block-Settled, Opened-of, waiting_second, waiting_third, place-Moved, place_open,
  Ready-moved, Build-of,
}

-- How the control goes through a conditional whose blocks "then", "else" and "ifcont" are `n`, `n + 1`
-- and `n + 2`.
pub record IfFlow {B : Type 0} (n start : ℕ) (c : Value) (s : State B) : Type 0 where
  pub test : EndsWith s start (cond_br c n (n + 1))
  pub then_way : Way s n (n + 2)
  pub else_way : Way s (n + 1) (n + 2)

module _ {B : Type 0} (b : Bindings B) (t : Tracked B) where
  pub three_blocks-Ready :
      (placed : Bool) {s : State B} → Ready b t s → Ready b t (three_blocks placed s)
  unfolding new_block
  three_blocks-Ready placed {s} r = record {
    inside = omega (arith, r.inside);
    opened = ground (arith, r.opened, r.inside);
    bounded = r.bounded;
    scope = r.scope;
    scope_below = r.scope_below;
  }

  module _ (c : Value) {s : State B} (r : Ready b t s) where
    abbrev branched : State B
    branched = insert (cond_br c s.next_block (s.next_block + 1)) (three_blocks false s)

    branched-Finish : Finish (three_blocks false s) branched
    branched-Finish =
        let r' = three_blocks-Ready false r in
        finish {b = b} {t = t} (cond_br c s.next_block (s.next_block + 1)) refl r'
          (Build-refl b t r')

    if-Opened : Opened s.next_block s (if_blocks c s)
    if-Opened = Opened-of false s branched r.inside branched-Finish

    pub if_first-Ready : Ready b t (if_blocks c s)
    unfolding insert new_block set_insert_point
    if_first-Ready =
        Ready-moved b t r (omega (arith, if-Opened.room)) (if-Opened.opened) refl refl refl

    if-Settled : Settled s (if_blocks c s)
    if-Settled =
        let waits = three_blocks-Ready false r in
        Settled-trans (three_blocks-Settled false s) (
          Settled-trans
            (insert-Settled (cond_br c s.next_block (s.next_block + 1)) (three_blocks false s)
              waits.opened)
            (move-Settled s.next_block branched))

    -- The block before goes on to both bodies.
    if-EndsWith :
        EndsWith (if_blocks c s) s.insert_block (cond_br c s.next_block (s.next_block + 1))
    unfolding set_insert_point new_block
    if-EndsWith = insert-EndsWith (cond_br c s.next_block (s.next_block + 1)) (three_blocks false s)

    module _ {s' : State B} (p : Step b t (if_blocks c s) s') where
      abbrev second : State B
      second = start_block (s.next_block + 2) (s.next_block + 1) s'

      first-Finish : Finish (if_blocks c s) (insert (br (s.next_block + 2)) s')
      first-Finish = finish {b = b} {t = t} (br (s.next_block + 2)) refl if_first-Ready p.build

      second-Moved : Moved (s.next_block + 1) (insert (br (s.next_block + 2)) s') second
      second-Moved = place-Moved (s.next_block + 1) (insert (br (s.next_block + 2)) s')

      second-waits :
          (insert (br (s.next_block + 2)) s').block (s.next_block + 1)
          ≡ record { instructions = []; placed = false }
      second-waits =
          waiting (s.next_block + 1) first-Finish (omega (arith, if-Opened.room))
            (omega (arith, if-Opened.point))
          ∙ waiting_second false s branched r.inside branched-Finish

      pub if_second-Ready : Ready b t second
      unfolding insert place set_insert_point
      if_second-Ready =
          Ready-moved b t p.build.ready (omega (arith, if-Opened.room, p.build.blocks_grow))
            (place_open (s.next_block + 1) (insert (br (s.next_block + 2)) s') false second-waits)
            refl refl refl

      first-Settled : Settled (if_blocks c s) second
      first-Settled =
          Settled-trans (Build-Settled if_first-Ready p.build)
            (start_block-Settled (s.next_block + 2) (s.next_block + 1) s' p.build.ready.opened)

      -- The end of the first body goes on to the third block.
      first-Way : Way second s.next_block (s.next_block + 2)
      unfolding set_insert_point place insert
      first-Way =
          Route-trans
            (Way-Settled
              (start_block-Settled (s.next_block + 2) (s.next_block + 1) s' p.build.ready.opened)
              p.build.way)
            (via-Way second (br (s.next_block + 2)) (s.next_block + 2) p.build.ready.inside
              ((place-Settled (s.next_block + 1) (insert (br (s.next_block + 2)) s')).ends
                s'.insert_block _ p.build.ready.inside refl
                (insert-EndsWith (br (s.next_block + 2)) s'))
              (ground arith) here)

      module _ {s'' : State B} (q : Step b t second s'') where
        abbrev third : State B
        third = start_block (s.next_block + 2) (s.next_block + 2) s''

        second-Finish : Finish second (insert (br (s.next_block + 2)) s'')
        second-Finish = finish {b = b} {t = t} (br (s.next_block + 2)) refl if_second-Ready q.build

        third-waits :
            (insert (br (s.next_block + 2)) s'').block (s.next_block + 2)
            ≡ record { instructions = []; placed = false }
        third-waits =
            waiting (s.next_block + 2) second-Finish
              (omega (arith, second-Moved.same_next, first-Finish.blocks_grow, if-Opened.room))
              (omega (arith, second-Moved.point))
            ∙ second-Moved.others (s.next_block + 2) (λ e. absurd (omega (arith, e)))
            ∙ waiting (s.next_block + 2) first-Finish (omega (arith, if-Opened.room))
                (omega (arith, if-Opened.point))
            ∙ waiting_third false s branched r.inside branched-Finish

        if-Blocks : Blocks s third
        if-Blocks =
            fork if-Opened first-Finish second-Moved second-Finish
              (place-Moved (s.next_block + 2) (insert (br (s.next_block + 2)) s'')) r.inside

        third-Ready : Ready b t third
        unfolding insert place set_insert_point
        third-Ready =
            Ready-moved b t q.build.ready if-Blocks.inside
              (place_open (s.next_block + 2) (insert (br (s.next_block + 2)) s'') false third-waits)
              refl refl refl

        second-Settled : Settled second third
        second-Settled =
            Settled-trans (Build-Settled if_second-Ready q.build)
              (start_block-Settled (s.next_block + 2) (s.next_block + 2) s'' q.build.ready.opened)

        entered : Way third s.insert_block s.next_block
        entered =
            let end = cond_br c s.next_block (s.next_block + 1) in
            via-Way third end s.next_block
              (omega (arith, r.inside, if-Settled.grow, first-Settled.grow, second-Settled.grow))
              ((Settled-trans first-Settled second-Settled).ends s.insert_block end
                (omega (arith, r.inside, if-Settled.grow)) refl if-EndsWith)
              (ground arith) here

        second-Way : Way third (s.next_block + 1) (s.next_block + 2)
        unfolding set_insert_point place insert
        second-Way =
            Route-trans
              (Way-Settled
                (start_block-Settled (s.next_block + 2) (s.next_block + 2) s'' q.build.ready.opened)
                q.build.way)
              (via-Way third (br (s.next_block + 2)) (s.next_block + 2) q.build.ready.inside
                ((place-Settled (s.next_block + 2) (insert (br (s.next_block + 2)) s'')).ends
                  s''.insert_block _ q.build.ready.inside refl
                  (insert-EndsWith (br (s.next_block + 2)) s''))
                (ground arith) here)

        pub if-IfFlow : IfFlow s.next_block s.insert_block c third
        if-IfFlow = record {
          test =
              (Settled-trans first-Settled second-Settled).ends s.insert_block _
                (omega (arith, r.inside, if-Settled.grow)) refl if-EndsWith;
          then_way = Way-Settled second-Settled first-Way;
          else_way = second-Way;
        }

        pub if-Step : Step b t s third
        unfolding insert place set_insert_point new_block
        if-Step = record {
          build = Build-of b t if-Blocks third-Ready (record {
            values_grow = omega (arith, p.build.values_grow, q.build.values_grow);
            jumps = λ lo h w.
                start_block-JumpsWithin lo (s.next_block + 2) (s.next_block + 2) s'' (omega arith)
                  (omega (arith, if-Opened.room, p.build.blocks_grow, q.build.blocks_grow))
                  (q.build.jumps lo (omega (arith, if-Opened.room, p.build.blocks_grow)) (
                    start_block-JumpsWithin lo (s.next_block + 2) (s.next_block + 1) s'
                      (omega arith) (omega (arith, if-Opened.room, p.build.blocks_grow))
                      (p.build.jumps lo (omega (arith, if-Opened.room))
                        (if_blocks-JumpsWithin lo c s h w))));
            overriden = q.build.overriden ∙ p.build.overriden;
            way = Route-trans entered (Way-Settled second-Settled first-Way);
            known = λ n h. q.build.known n (p.build.known n h);
          });
          loops = λ n. q.loops n ∙ p.loops n;
        }
