-- ===== src/Examples/Writing.antt =====
-- The JavaScript visitor and the print visitor on small templates.
use b.Base.{
  ℕ, ◌+◌, ◌≡◌, ◌≢◌, refl, true, false, Str, [], ◌∷◌, ◌++◌, none, some, codes, ok, undefined,
  out_of_fuel, find, count_byte, arith,
}
use b.Base.Int.{pos, negsuc}
use b.Ast.Expression.{variable_reference, integer_literal, binary_operation, addition, subtraction}
use b.Ast.Template
use b.Ast.Template.{
  Ast, statements, raw_block, print_block, if_block, for_block, include_block, cons, no_body, body,
}
use b.Javascript.Emitter.{State, Step}
use b.Javascript.Expressions.{expression}
use b.Javascript.Visitor.{ast, visit, initial}
use b.Javascript.Frame.{Effect}
use b.Javascript.Keeps.{ast-Effect, visit-balanced}
use b.Javascript.Precedence.{expression-binary_operation-reassociated}
use b.Javascript.Returns.{Returns}
use b.Javascript.Total.{visit-Returns}
use b.Print.{print_visit}
use b.Print.Inline.{breaks_in}
use b.Print.Lines.{line_count, IsCleanTree, print_visit-lines}
use b.Examples.{toy}

-- `{% for v in xs %}{{ v }}{% else %}no{% endfor %}`
abbrev loop : Ast
loop =
    for_block none (some (codes "v")) (variable_reference (codes "xs"))
      (body (print_block (variable_reference (codes "v")))) (body (raw_block (codes "no")))

abbrev start : State
start = initial false

abbrev loop_output : Str
loop_output =
    codes
      "\nvar iterable_1 = data['xs'];\nvar is_empty_1 = true;\nfor (var key_1 in iterable_1) {\n\tif (!iterable_1.hasOwnProperty(key_1)) continue;\n\tvar value_1 = iterable_1[key_1];\n\n\tbuffer += value_1;\n\tis_empty_1 = false;\n}\n\nif (is_empty_1) {\n\tbuffer += 'no';\n}\n\n"

abbrev after_loop : State
after_loop = record start { output = loop_output; for_counter = 1 }

loop_written : ast toy 50 loop start ≡ ok after_loop
unfolding ast b.Javascript.Visitor.for_step b.Javascript.Emitter.blankline
    b.Javascript.Emitter.start_line find b.Javascript.Expressions.write_escaped
    b.Escape.javascript_escape b.Javascript.Emitter.end_line b.Javascript.Emitter.indent
    b.Javascript.Shadow.assign b.Base.str_eq b.Javascript.Emitter.outdent b.Javascript.Emitter.line
    b.Passes.Convert.print_long b.Base.Int.◌-ℤ◌ b.Javascript.Shadow.erase b.Base.Int.◌+ℤ◌
loop_written = refl

abbrev if_template : Ast
if_template = if_block (variable_reference (codes "a")) (body (raw_block (codes "1"))) (
    body (
      if_block (variable_reference (codes "b")) (body (raw_block (codes "2")))
        (body (raw_block (codes "3")))))

abbrev if_output : Str
if_output =
    codes
      "function(helpers, data) {\n\tdata = data || {};\n\tvar buffer = '';\n\n\n\tif (data['a']) {\n\t\tbuffer += '1';\n\t} else if (data['b']) {\n\t\tbuffer += '2';\n\t} else {\n\t\tbuffer += '3';\n\t}\n\n\n\treturn buffer;\n}\n"

if_written : visit toy 50 if_template start ≡ ok (record start { output = if_output })
unfolding visit b.Javascript.Emitter.line b.Javascript.Emitter.indent b.Javascript.Emitter.blankline
    expression find b.Javascript.Expressions.write_escaped b.Escape.javascript_escape
    b.Javascript.Emitter.outdent b.Base.Int.◌+ℤ◌ b.Base.Int.◌-ℤ◌
if_written = refl

-- A binary operator comes with a NUL byte.
sum_written :
    expression toy 50
      (binary_operation (integer_literal (pos 1)) (integer_literal (pos 2)) addition)
      start
    ≡ ok (record start { output = codes "1 " ++ 0 ∷ codes "+ 2" })
unfolding expression b.Javascript.Emitter.write b.Passes.Convert.print_long
sum_written = refl

ast-Effect_example : Effect (λ n. n) start after_loop
unfolding find
ast-Effect_example = ast-Effect toy 50 loop start after_loop (λ x e. cc) loop_written

visit-balanced_example :
    ((record start { output = if_output }).indentation_count ≡ pos 0)
    × ((x : Str) → find x (record start { output = if_output }).shadow_values ≡ none)
visit-balanced_example =
    visit-balanced toy 50 if_template false (record start { output = if_output }) if_written

visit-Returns_example : Returns (visit toy 50 if_template)
visit-Returns_example = visit-Returns toy 50 if_template (
  (((omega arith, omega arith), tt), omega arith),
  (((omega arith, omega arith), tt), omega arith),
  (
    (((omega arith, omega arith), tt), omega arith),
    (((omega arith, omega arith), tt), omega arith),
    (((omega arith, omega arith), tt), omega arith),
  ),
)

expression-binary_operation-reassociated_example :
    expression toy 50
      (binary_operation
        (integer_literal (pos 1))
        (binary_operation (integer_literal (pos 2)) (integer_literal (pos 3)) subtraction)
        subtraction)
      start
    ≡ expression toy 50
        (binary_operation
          (binary_operation (integer_literal (pos 1)) (integer_literal (pos 2)) subtraction)
          (integer_literal (pos 3))
          subtraction)
        start
expression-binary_operation-reassociated_example =
    expression-binary_operation-reassociated toy 50 (integer_literal (pos 1))
      (integer_literal (pos 2)) (integer_literal (pos 3)) subtraction subtraction start

abbrev printed_page : Ast
printed_page = statements (
    cons (raw_block (codes "a\nb")) (
      cons loop (
        cons (include_block (codes "f") none ((codes "k", integer_literal (negsuc 4)) ∷ []))
          Template.nil)))

abbrev printed_text : Str
printed_text =
    codes
      "[SOF]\n\t[STATEMENTS]\n\t\t[RAW] \"a\\nb\"\n\t\t[FOR_BLOCK valueVariable={VARIABLE name=\"v\"} iterable={VARIABLE name=\"xs\"}]\n\t\t\t[PRINT_BLOCK {VARIABLE name=\"v\"}]\n\t\t[ELSEFOR_BLOCK]\n\t\t\t[RAW] \"no\"\n\t\t[ENDFOR_BLOCK]\n\t\t[INCLUDE_BLOCK includeName=\"f\" variableMapping={\"k => {INT value=-5}}]\n\t[END_STATEMENTS]\n[EOF]\n"

page_printed : print_visit toy 50 printed_page ≡ ok printed_text
unfolding print_visit b.Escape.print_escape b.Print.print_expression b.Print.print_entries
    b.Print.sorted_mapping b.Passes.Convert.print_long
page_printed = refl

page_clean : IsCleanTree toy 50 printed_page
unfolding count_byte
page_clean = (
  ((omega arith, (omega arith, (omega arith, tt))), omega arith),
  (
    (tt, refl, refl, refl, ((omega arith, (omega arith, tt)), omega arith)),
    ((refl, tt, (refl, tt, tt)), tt),
  ),
)

print_visit-lines_example : breaks_in printed_text ≡ line_count printed_page + 2
print_visit-lines_example =
    print_visit-lines toy 50 printed_page printed_text page_clean page_printed
