-- ===== src/Javascript/Visitor.antt =====
-- lib/backends/javascript/javascript_visitor.cpp: the code that is written for a template.
use b.Base.{
  ℕ, ◌+◌, Bool, true, false, Str, [], ◌++◌, codes, Option, none, some, ok, throw, undefined, find,
  if◌then◌else◌, not, unsupported,
}
use b.Base.Int.{pos}
use b.Base.Double.{DoubleOps}
use b.Ast.Expression.{Expression}
use b.Ast.Template
use b.Ast.Template.{
  Ast, AstList, Body, statements, raw_block, print_block, if_block, for_block, include_block, cons,
  no_body, body,
}
use b.Passes.Convert.{print_long}
use b.Javascript.Emitter.{
  State, Step, ◌>>◌, write, indent, outdent, start_line, end_line, line, blankline,
}
use b.Javascript.Shadow.{value_or_empty, set_shadow, restore_shadow, variable_name}
use b.Javascript.Expressions.{write_escaped, expression, around}

-- `std::to_string(m_forCounter)` behind a prefix
abbrev pub numbered : Str → ℕ → Str
numbered prefix n = prefix ++ print_long (pos n)

unfoldable pub count_for : Step
count_for s = ok (record s { for_counter = s.for_counter + 1 })

abbrev pub is_some : Option Str → Bool
is_some none = false
is_some (some x) = true

abbrev pub when : Bool → Step → Step
when true p = p
when false p = ok

-- `d` writes doubles, and `f` is the fuel of the escape loop.
module _ (d : DoubleOps) (f : ℕ) where
  -- the head of an `if`
  abbrev pub if_head : Bool → Expression → Step
  if_head is_elseif c =
      when (not is_elseif) blankline
      >> start_line
      >> write (if is_elseif then codes "} else " else [])
      >> around d f (codes "if (") c (codes ") {")
      >> end_line
      >> indent

  -- `for_block` over the walk of its two bodies; the state has the counter that names its
  -- variables, and the shadow values as they were
  abbrev pub for_names : ℕ → Option Str → Option Str → Expression → Bool → Step
  for_names n key value iterable has_else_body =
      blankline
      >> start_line
      >> around d f (codes "var " ++ numbered (codes "iterable_") n ++ codes " = ") iterable
          (codes ";")
      >> end_line
      >> when has_else_body (
          start_line
          >> write (codes "var " ++ numbered (codes "is_empty_") n ++ codes " = true;")
          >> end_line)
      >> start_line
      >> write (
          codes "for (var "
          ++ numbered (codes "key_") n
          ++ codes " in "
          ++ numbered (codes "iterable_") n
          ++ codes ") {")
      >> end_line
      >> indent
      >> start_line
      >> write (
          codes "if (!"
          ++ numbered (codes "iterable_") n
          ++ codes ".hasOwnProperty("
          ++ numbered (codes "key_") n
          ++ codes ")) continue;")
      >> end_line
      >> when (is_some value) (
          start_line
          >> write (
              codes "var "
              ++ numbered (codes "value_") n
              ++ codes " = "
              ++ numbered (codes "iterable_") n
              ++ codes "["
              ++ numbered (codes "key_") n
              ++ codes "];")
          >> end_line)
      >> blankline

  -- the body, with the loop's variables in force
  abbrev pub for_scope : ℕ → Option Str → Option Str → Step → Step
  for_scope n key value walk_body s =
      let old_key = value_or_empty (find (variable_name key) s.shadow_values) in
      let old_value = value_or_empty (find (variable_name value) s.shadow_values) in
      (set_shadow key (numbered (codes "key_") n)
          >> set_shadow value (numbered (codes "value_") n)
          >> walk_body
          >> restore_shadow key old_key
          >> restore_shadow value old_value)
        s

  abbrev pub for_else : ℕ → Step → Step
  for_else n walk_else =
      start_line
      >> write (codes "if (" ++ numbered (codes "is_empty_") n ++ codes ") {")
      >> end_line
      >> indent
      >> walk_else
      >> outdent
      >> line (codes "}")
      >> blankline

  abbrev pub for_end : ℕ → Bool → Step → Step
  for_end n has_else_body walk_else =
      when has_else_body
        (start_line >> write (numbered (codes "is_empty_") n ++ codes " = false;") >> end_line)
      >> outdent
      >> line (codes "}")
      >> blankline
      >> when has_else_body (for_else n walk_else)

  unfoldable pub for_step : Option Str → Option Str → Expression → Bool → Step → Step → Step
  unfolding expression count_for set_shadow restore_shadow
  for_step key value iterable has_else_body walk_body walk_else s =
      let n = s.for_counter + 1 in
      (count_for
          >> for_names n key value iterable has_else_body
          >> for_scope n key value walk_body
          >> for_end n has_else_body walk_else)
        s

  abbrev pub has_body : Body → Bool
  has_body no_body = false
  has_body (body _) = true

  abbrev pub close_if : Step
  close_if = line (codes "}") >> blankline

  unfoldable mutual
    pub ast : Ast → Step
    ast (statements xs) = ast_list xs
    ast (raw_block t) =
        start_line
        >> write (codes "buffer += '")
        >> write_escaped d f t
        >> write (codes "';")
        >> end_line
    ast (print_block e) = λ s.
        (start_line
            >> write (codes "buffer += ")
            >> expression d f e
            >> when s.undefined_check (write (codes " || ''"))
            >> write (codes ";")
            >> end_line)
          s
    ast (if_block c t e) = if_head false c >> ast_body t >> outdent >> else_body e
    ast (for_block k v i t e) = for_step k v i (has_body e) (ast_body t) (ast_body e)
    ast (include_block n s m) = λ _. throw unsupported

    pub ast_list : AstList → Step
    ast_list Template.nil = ok
    ast_list (cons s rest) = ast s >> ast_list rest

    -- a body that is null is followed
    pub ast_body : Body → Step
    ast_body no_body = λ _. undefined
    ast_body (body a) = ast a

    -- the branch of an `if` that has failed: an `if` there goes on the same line
    pub else_body : Body → Step
    else_body no_body = close_if
    else_body (body (if_block c t e)) = if_head true c >> ast_body t >> outdent >> else_body e
    else_body (body a) = line (codes "} else {") >> indent >> ast a >> outdent >> close_if

  unfoldable pub print_header : Step
  print_header =
      line (codes "function(helpers, data) {")
      >> indent
      >> line (codes "data = data || {};")
      >> line (codes "var buffer = '';")
      >> blankline

  unfoldable pub print_footer : Step
  print_footer = blankline >> line (codes "return buffer;") >> outdent >> line (codes "}")

  unfoldable pub visit : Ast → Step
  unfolding print_header ast print_footer
  visit a = print_header >> ast a >> print_footer

-- A visitor before its first visit, with `m_undefinedCheck` set or not.
abbrev pub initial : Bool → State
initial check = record {
  output = [];
  indentation_count = pos 0;
  for_counter = 0;
  undefined_check = check;
  shadow_values = [];
}
