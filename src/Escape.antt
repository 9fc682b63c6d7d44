-- ===== src/Escape.antt =====
-- The escape loops of lib/backends/javascript/javascript_visitor.cpp and lib/utils/print_visitor.hpp:
-- both walk over a string that they change under way.
pub mod Loop
pub mod Text
use b.Base.{
  ℕ, zero, suc, ◌+◌, ◌/◌, ◌%◌, Bool, true, false, ◌&&◌, ◌||◌, Option, none, some, List, [], ◌∷◌,
  ◌++◌, Str, codes, ltb, ◌==◌, if◌then◌else◌, Outcome, ok, out_of_fuel,
}

-- `for (i = 0; i < text.size(); i++)`. The string is `before ++ rest`, with `i` between the two.
-- A byte is replaced by `escaped c` where that is a text, and `i` then steps over the first byte of
-- it. The fuel bounds the rounds.
unfoldable pub escape_loop : (ℕ → Option Str) → ℕ → Str → Str → Outcome Str
escape_loop escaped zero before rest = out_of_fuel
escape_loop escaped (suc f) before [] = ok before
escape_loop escaped (suc f) before (c ∷ rest) = elim (escaped c) [
  | none ↦ escape_loop escaped f (before ++ c ∷ []) rest
  | some [] ↦ escape_loop escaped f before rest
  | some (e ∷ es) ↦ escape_loop escaped f (before ++ e ∷ []) (es ++ rest)
]

-- `snprintf(buf, 5, "\\x%02d", c)` and a copy of as many bytes of `buf` as it returns. The code
-- 127 has three digits: the buffer holds two of them and the NUL, and five bytes are copied.
abbrev decimal_escape : ℕ → Str
decimal_escape c =
    if c == 127
    then b'\\' ∷ b'x' ∷ b'1' ∷ b'2' ∷ 0 ∷ []
    else b'\\' ∷ b'x' ∷ (b'0' + c / 10) ∷ (b'0' + c % 10) ∷ []

-- `(c > 0x00 && c < 0x20) || c == 0x7F`; a byte from 128 on is a negative `char`
abbrev is_control : ℕ → Bool
is_control c = (ltb 0 c && ltb c 32) || c == 127

-- the `switch` of `PrintVisitor::escape`
unfoldable pub print_escaped : ℕ → Option Str
print_escaped c =
    if c == 7
    then some (b'\\' ∷ b'a' ∷ [])
    else if c == 8
    then some (b'\\' ∷ b'b' ∷ [])
    else if c == 12
    then some (b'\\' ∷ b'f' ∷ [])
    else if c == 10
    then some (b'\\' ∷ b'n' ∷ [])
    else if c == 13
    then some (b'\\' ∷ b'r' ∷ [])
    else if c == 9
    then some (b'\\' ∷ b't' ∷ [])
    else if c == 11
    then some (b'\\' ∷ b'v' ∷ [])
    else if is_control c
    then some (decimal_escape c)
    else none

-- the `switch` of the JavaScript `escape`
unfoldable pub javascript_escaped : ℕ → Option Str
javascript_escaped c =
    if c == 7
    then some (b'\\' ∷ b'a' ∷ [])
    else if c == 8
    then some (b'\\' ∷ b'b' ∷ [])
    else if c == 12
    then some (b'\\' ∷ b'f' ∷ [])
    else if c == 10
    then some (b'\\' ∷ b'n' ∷ [])
    else if c == 13
    then some (b'\\' ∷ b'r' ∷ [])
    else if c == 9
    then some (b'\\' ∷ b't' ∷ [])
    else if c == 11
    then some (b'\\' ∷ b'x' ∷ b'0' ∷ b'B' ∷ [])
    else if c == 39
    then some (b'\\' ∷ 39 ∷ [])
    else if is_control c
    then some (decimal_escape c)
    else none

unfoldable pub print_escape : ℕ → Str → Outcome Str
unfolding escape_loop print_escaped
print_escape f text = escape_loop print_escaped f [] text

unfoldable pub javascript_escape : ℕ → Str → Outcome Str
unfolding escape_loop javascript_escaped
javascript_escape f text = escape_loop javascript_escaped f [] text
