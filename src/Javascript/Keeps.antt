-- ===== src/Javascript/Keeps.antt =====
-- Visiting a template keeps the indentation and the loop variables.
use b.Base.{ℕ, ◌≡◌, refl, Bool, true, false, Option, none, some, Str, find, ◌+◌, ok, not}
use b.Base.Int.{pos}
use b.Base.Double.{DoubleOps}
use b.Base.Post.{Post-bind, Post-ok, Partial-any, throws, breaks}
use b.Ast.Expression.{
  Expression, ExpressionList, nil, null_argument, argument, variable_reference, get_attribute,
  method_call, double_literal, integer_literal, boolean_literal, string_literal, binary_operation,
  unary_operation, comparison,
}
use b.Ast.Template
use b.Ast.Template.{
  Ast, AstList, Body, statements, raw_block, print_block, if_block, for_block, include_block, cons,
  no_body, body,
}
use b.Escape.{javascript_escape}
use b.Javascript.Emitter.{State, Step, ◌>>◌, indent, outdent, blankline}
use b.Javascript.Expressions.{write_escaped, reference, expression, arguments, around}
use b.Javascript.Visitor.{
  if_head, for_names, for_end, for_step, has_body, close_if, for_else, count_for, is_some, ast,
  ast_list, ast_body, else_body, visit, print_header, print_footer, initial,
}
use b.Javascript.Scope.{NonEmpty}
use b.Javascript.Loop.{Does-for_scope}
use b.Javascript.Frame.{
  Effect, Does, stay, up, down, Does-then, Does-ok, Does-write, Does-indent, Does-outdent,
  Does-count_for, Does-start_line, Does-end_line, Does-blankline, ◌⨾◌, ◌⨾↑◌, ◌⨾↓◌, ◌⨾-◌, Does-line,
  Does-when,
}

module _ (d : DoubleOps) (f : ℕ) where
  Does-write_escaped : (text : Str) → Does stay (write_escaped d f text)
  unfolding write_escaped
  Does-write_escaped text s ne =
      Post-bind (Partial-any (javascript_escape f text)) λ t _. Does-write t s ne

  Does-reference : (o : Option Str) (x : Str) → Does stay (reference d f o x)
  Does-reference (some shadow) x = Does-write shadow
  Does-reference none x = Does-write _ ⨾ Does-write_escaped x ⨾ Does-write _

  mutual
    unfolding expression

    Does-expression : (e : Expression) → Does stay (expression d f e)
    Does-expression (variable_reference x) = λ s ne. Does-reference (find x s.shadow_values) x s ne
    Does-expression (get_attribute e a) =
        Does-expression e ⨾ Does-write _ ⨾ Does-write_escaped a ⨾ Does-write _
    Does-expression (method_call m xs) =
        Does-write _ ⨾ Does-write m ⨾ Does-write _ ⨾ Does-arguments true xs ⨾ Does-write _
    Does-expression (double_literal v) = Does-write _
    Does-expression (integer_literal n) = Does-write _
    Does-expression (boolean_literal v) = Does-write _
    Does-expression (string_literal t) = Does-write _ ⨾ Does-write_escaped t ⨾ Does-write _
    Does-expression (binary_operation l r op) =
        Does-expression l ⨾ Does-write _ ⨾ Does-write _ ⨾ Does-write _ ⨾ Does-expression r
    Does-expression (unary_operation e op) = Does-write _ ⨾ Does-expression e
    Does-expression (comparison l r op) =
        Does-expression l ⨾ Does-write _ ⨾ Does-write _ ⨾ Does-write _ ⨾ Does-expression r

    Does-arguments : (first : Bool) (xs : ExpressionList) → Does stay (arguments d f first xs)
    Does-arguments first nil = Does-ok
    Does-arguments first (null_argument xs) = λ s ne. breaks
    Does-arguments true (argument x xs) = Does-ok ⨾ Does-expression x ⨾ Does-arguments false xs
    Does-arguments false (argument x xs) =
        Does-write _ ⨾ Does-expression x ⨾ Does-arguments false xs

  Does-around : (before after : Str) (e : Expression) → Does stay (around d f before e after)
  Does-around before after e = Does-write before ⨾ Does-expression e ⨾ Does-write after

  Does-if_head : (is_elseif : Bool) (c : Expression) → Does up (if_head d f is_elseif c)
  Does-if_head is_elseif c =
      Does-then stay up _ indent
        (Does-when (not is_elseif) blankline Does-blankline
          ⨾ Does-start_line
          ⨾ Does-write _
          ⨾ Does-around _ _ c
          ⨾ Does-end_line)
        Does-indent

  Does-for_names :
      (n : ℕ) (key value : Option Str) (iterable : Expression) (has_else : Bool)
      → Does up (for_names d f n key value iterable has_else)
  Does-for_names n key value iterable has_else =
      Does-then stay up _ indent
        (Does-blankline
          ⨾ Does-start_line
          ⨾ Does-around _ _ iterable
          ⨾ Does-end_line
          ⨾ Does-when has_else _ (Does-start_line ⨾ Does-write _ ⨾ Does-end_line)
          ⨾ Does-start_line
          ⨾ Does-write _
          ⨾ Does-end_line)
        Does-indent
      ⨾↑ Does-start_line
      ⨾↑ Does-write _
      ⨾↑ Does-end_line
      ⨾↑ Does-when (is_some value) _ (Does-start_line ⨾ Does-write _ ⨾ Does-end_line)
      ⨾↑ Does-blankline

  Does-for_else :
      (n : ℕ) (walk_else : Step) → Does stay walk_else → Does stay (for_else d f n walk_else)
  Does-for_else n walk_else h =
      Does-then stay up _ indent (Does-start_line ⨾ Does-write _ ⨾ Does-end_line) Does-indent
      ⨾↑ h
      ⨾↓ Does-outdent
      ⨾ Does-line _
      ⨾ Does-blankline

  Does-for_end :
      (n : ℕ) (has_else : Bool) (walk_else : Step)
      → (has_else ≡ true → Does stay walk_else)
      → Does down (for_end d f n has_else walk_else)
  Does-for_end n true walk_else h =
      Does-then stay down _ outdent (Does-start_line ⨾ Does-write _ ⨾ Does-end_line) Does-outdent
      ⨾- Does-line _
      ⨾- Does-blankline
      ⨾- Does-for_else n walk_else (h refl)
  Does-for_end n false walk_else h =
      Does-then stay down _ outdent Does-ok Does-outdent ⨾- Does-line _ ⨾- Does-blankline ⨾- Does-ok

  -- `for_end` closes the level that `for_names` opens.
  Does-for_step :
      (key value : Option Str) (iterable : Expression) (has_else : Bool) (walk walk_else : Step)
      → Does stay walk
      → (has_else ≡ true → Does stay walk_else)
      → Does stay (for_step d f key value iterable has_else walk walk_else)
  unfolding for_step
  Does-for_step key value iterable has_else walk walk_else h h_else s ne =
      let n = s.for_counter + 1 in
      (Does-then stay up count_for _ Does-count_for (Does-for_names n key value iterable has_else)
          ⨾↑ Does-for_scope d f n key value walk h
          ⨾↓ Does-for_end n has_else walk_else h_else)
        s ne

  Does-close_if : Does stay (close_if d f)
  Does-close_if = Does-line _ ⨾ Does-blankline

  mutual
    unfolding ast

    Does-ast : (a : Ast) → Does stay (ast d f a)
    Does-ast (statements xs) = Does-ast_list xs
    Does-ast (raw_block t) =
        Does-start_line ⨾ Does-write _ ⨾ Does-write_escaped t ⨾ Does-write _ ⨾ Does-end_line
    Does-ast (print_block e) = λ s ne.
        (Does-start_line
            ⨾ Does-write _
            ⨾ Does-expression e
            ⨾ Does-when s.undefined_check _ (Does-write _)
            ⨾ Does-write _
            ⨾ Does-end_line)
          s ne
    Does-ast (if_block c t e) =
        Does-if_head false c ⨾↑ Does-ast_body t ⨾↓ Does-outdent ⨾ Does-else_body e
    Does-ast (for_block k v i t e) =
        Does-for_step k v i (has_body d f e) _ _ (Does-ast_body t) (λ _. Does-ast_body e)
    Does-ast (include_block n s m) = λ _ _. throws

    Does-ast_list : (xs : AstList) → Does stay (ast_list d f xs)
    Does-ast_list Template.nil = Does-ok
    Does-ast_list (cons s rest) = Does-ast s ⨾ Does-ast_list rest

    Does-ast_body : (a : Body) → Does stay (ast_body d f a)
    Does-ast_body no_body = λ _ _. breaks
    Does-ast_body (body a) = Does-ast a

    Does-else_body : (a : Body) → Does stay (else_body d f a)
    Does-else_body no_body = Does-close_if
    Does-else_body (body (if_block c t e)) =
        Does-if_head true c ⨾↑ Does-ast_body t ⨾↓ Does-outdent ⨾ Does-else_body e
    Does-else_body (body a) =
        Does-then stay up _ indent (Does-line _) Does-indent
        ⨾↑ Does-ast a
        ⨾↓ Does-outdent
        ⨾ Does-close_if

-- Where the visit of a template returns, the indentation, the undefined check and the meaning of
-- every loop variable are what they were before it, the counter of the loops has not fallen, and
-- what was written before is still there, with text added behind it; if no variable stands for the
-- empty string.
pub ast-Effect :
    (d : DoubleOps) (f : ℕ) (a : Ast) (s s' : State)
    → NonEmpty s.shadow_values
    → ast d f a s ≡ ok s'
    → Effect (λ n. n) s s'
ast-Effect d f a s s' ne p = Post-ok (Does-ast d f a s ne) p

-- The code that the visitor returns for a template, from its initial state, leaves it without
-- indentation and without a loop variable.
pub visit-balanced :
    (d : DoubleOps) (f : ℕ) (a : Ast) (check : Bool) (s' : State)
    → visit d f a (initial check) ≡ ok s'
    → (s'.indentation_count ≡ pos 0) × ((x : Str) → find x s'.shadow_values ≡ none)
unfolding visit print_header print_footer find
visit-balanced d f a check s' p =
    let effect = Post-ok {P = Effect stay (initial check)} (does (initial check) (λ x e. cc)) p in
    (effect.indented, effect.scoped)
  where
    does : Does stay (print_header d f >> ast d f a >> print_footer d f)
    does =
        (Does-then stay up _ indent (Does-line _) Does-indent
          ⨾↑ Does-line _
          ⨾↑ Does-line _
          ⨾↑ Does-blankline)
        ⨾↑ Does-ast d f a
        ⨾↓ (Does-then stay down _ outdent (Does-blankline ⨾ Does-line _) Does-outdent
            ⨾- Does-line _)
