-- ===== src/Javascript/Emitter.antt =====
-- lib/backends/javascript/code_emitter.hpp, and the state of the visitor that writes through it.
use b.Base.{ℕ, zero, suc, Bool, Str, List, [], ◌∷◌, ◌++◌, Outcome, ok, ◌>>=◌}
use b.Base.Int.{ℤ, pos, ◌+ℤ◌, ◌-ℤ◌, pos_part}

-- `output` is what the stream has got so far; `shadow_values` gives a loop variable the name of
-- the JavaScript variable that holds it.
pub record State : Type 0 where
  pub output : Str
  pub indentation_count : ℤ
  pub for_counter : ℕ
  pub undefined_check : Bool
  pub shadow_values : List (Str × Str)

-- A piece of the visitor: it takes the state and leaves a new one.
abbrev pub Step : Type 0
Step = State → Outcome State

infixl 10 ◌>>◌
abbrev pub ◌>>◌ : Step → Step → Step
◌>>◌ p q s = p s >>= q

-- `m_output << text`
unfoldable pub write : Str → Step
write text s = ok (record s { output = s.output ++ text })

unfoldable pub indent : Step
indent s = ok (record s { indentation_count = s.indentation_count +ℤ pos 1 })

unfoldable pub outdent : Step
outdent s = ok (record s { indentation_count = s.indentation_count -ℤ pos 1 })

abbrev pub tabs : ℕ → Str
tabs zero = []
tabs (suc n) = b'\t' ∷ tabs n

-- one tab, the default indentation, for each level; none where the count is negative
unfoldable pub start_line : Step
unfolding write
start_line s = write (tabs (pos_part s.indentation_count)) s

unfoldable pub end_line : Step
unfolding write
end_line s = write (b'\n' ∷ []) s

unfoldable pub line : Str → Step
unfolding start_line write end_line
line text = start_line >> write text >> end_line

unfoldable pub blankline : Step
unfolding write
blankline = write (b'\n' ∷ [])
