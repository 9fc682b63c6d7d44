-- ===== src/Llvm/Visitor/Supported.antt =====
-- The templates that the LLVM visitor supports: no includes and no null arguments, operands that
-- LLVM takes, conditions of one bit, loops over variants; and no loop over a loop variable that a
-- loop around it may be running over.
use b.Base.{◌≡◌, Bool, true, false, Option, none, some, Str, str_eq, if◌then◌else◌}
use b.Ast.Expression.{Expression, variable_reference}
use b.Ast.Template
use b.Ast.Template.{
  Ast, AstList, Body, statements, raw_block, print_block, if_block, for_block, include_block, cons,
  no_body, body,
}
use b.Llvm.Steps.{Kind, variant, flag}
use b.Llvm.Expressions.Kinds.{kind}

-- For each name: no loop variable, or one, and whether a loop may run over it.
abbrev pub Status : Type 0
Status = Str → Option Bool

abbrev pub no_variables : Status
no_variables x = none

abbrev pub is_free : Option Bool → Bool
is_free none = true
is_free (some free) = free

abbrev pub busy : Option Bool → Option Bool
busy none = none
busy (some free) = some false

-- Inside a loop over a loop variable, no variable of before may be looped over.
abbrev pub after_variable : Option Bool → Status → Status
after_variable none st = st
after_variable (some free) st = λ y. busy (st y)

abbrev pub inside_loop : Expression → Status → Status
inside_loop (variable_reference x) st = after_variable (st x) st
inside_loop _ st = st

abbrev pub with_variable : Option Str → Status → Status
with_variable none st = st
with_variable (some x) st = λ y. if str_eq x y then some true else st y

abbrev pub Iterable : Status → Expression → Type 0
Iterable st (variable_reference x) = is_free (st x) ≡ true
Iterable st _ = Unit

abbrev mutual
  pub Supported : Status → Ast → Type 0
  Supported st (statements xs) = AllSupported st xs
  Supported st (raw_block t) = Unit
  Supported st (print_block e) = (k : Kind) × (kind e ≡ some k)
  Supported st (if_block e t f) = (kind e ≡ some flag) × BodySupported st t × BodySupported st f
  Supported st (for_block key value e t f) =
      (kind e ≡ some variant)
      × Iterable st e
      × BodySupported (with_variable value (with_variable key (inside_loop e st))) t
      × BodySupported (inside_loop e st) f
  Supported st (include_block p sc mp) = ⊥

  pub AllSupported : Status → AstList → Type 0
  AllSupported st Template.nil = Unit
  AllSupported st (cons x xs) = Supported st x × AllSupported st xs

  pub BodySupported : Status → Body → Type 0
  BodySupported st no_body = Unit
  BodySupported st (body x) = Supported st x
