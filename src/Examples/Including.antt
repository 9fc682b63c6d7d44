-- ===== src/Examples/Including.antt =====
-- The include pass on small sets of files.
use b.Base.{
  missing_variable_reference, ◌≡◌, refl, true, false, Str, [], ◌∷◌, none, some, codes, str_eq,
  Outcome, ok, throw, unreadable, undefined, out_of_fuel, if◌then◌else◌,
}
use b.Ast.Expression.{variable_reference, get_attribute}
use b.Ast.Template
use b.Ast.Template.{
  Ast, statements, raw_block, print_block, if_block, include_block, cons, body, no_body,
}
use b.Passes.Tree.{process_ast}
use b.Passes.Includes.{resolve_includes_pass, substitute}
use b.Passes.Includes.Missing.{resolve-missing_variable-undefined}
use b.Passes.Includes.Resolved.{resolve-HasNoIncludes, HasNoIncludes}
use b.Base.Int.{pos}
use b.Ast.Expression.{Expression, nil, method_call, integer_literal, binary_operation, addition}
use b.Ast.Template.{Mapping}
use b.Base.{find, subst, Bool}
use b.Ast.Clone.{HasNoArguments}
use b.Meaning.{eval}
use b.Passes.Walk.{process}
use b.Passes.Includes.{prepend_scope_pass, replace_variable_references_pass}
use b.Passes.Includes.Meaning.{
  with_variables, scope_variables, mapped_variables, PlainMapping, eval-prepend_scope,
  eval-replace_variable_references,
}
use b.Passes.Pipeline.{all_enabled, optimize_ast}
use b.Passes.Pipeline.Resolved.{optimize_ast-HasNoIncludes}
use b.Examples.{toy, host}

abbrev file_y : Ast
file_y = print_block (variable_reference (codes "y"))

-- a file that includes itself behind a text, on a condition
abbrev self_include : Ast
self_include = statements (
    cons (raw_block (codes "a")) (
      cons
        (if_block (variable_reference (codes "y")) (body (include_block (codes "self") none []))
          no_body)
        Template.nil))

-- two files under `t`: one prints a variable, one includes itself
abbrev files : Str → Outcome Ast
files file =
    if str_eq file (codes "t/y")
    then ok file_y
    else (if str_eq file (codes "t/self") then ok self_include else throw (unreadable file))

abbrev base : Str
base = codes "t"

abbrev page : Ast
page = statements (
    cons (raw_block (codes "a")) (
      cons (include_block (codes "y") (some (variable_reference (codes "z"))) []) (
        cons (include_block (codes "y") none ((codes "y", variable_reference (codes "w")) ∷ []))
          Template.nil)))

abbrev resolved_page : Ast
resolved_page = statements (
    cons (raw_block (codes "a")) (
      cons (print_block (get_attribute (variable_reference (codes "z")) (codes "y")))
        (cons (print_block (variable_reference (codes "w"))) Template.nil)))

resolved : process_ast (resolve_includes_pass files base 3) 3 page ≡ ok resolved_page
unfolding process_ast b.Passes.Includes.resolve_node str_eq b.Passes.Manager.wrap_node
    b.Passes.Walk.process b.Passes.Includes.prepend_node b.Ast.Expression.clone
    b.Passes.Includes.replace_node b.Base.find
resolved = refl

self_read : files (codes "t/self") ≡ ok self_include
unfolding str_eq
self_read = refl

resolve-HasNoIncludes_example : HasNoIncludes resolved_page
resolve-HasNoIncludes_example = resolve-HasNoIncludes files base 3 3 page resolved_page resolved

abbrev other_variable : Mapping
other_variable = (codes "w", variable_reference (codes "v")) ∷ []

file_processed : process_ast (resolve_includes_pass files base 3) 3 file_y ≡ ok file_y
unfolding process_ast b.Passes.Includes.resolve_node
file_processed = refl

no_replacement :
    substitute 3 (codes "t/y") none other_variable file_y
    ≡ throw (missing_variable_reference (codes "t/y") (codes "y"))
unfolding substitute process_ast b.Passes.Manager.wrap_node b.Passes.Walk.process
    b.Passes.Includes.replace_node str_eq b.Base.find
no_replacement = refl

resolve-missing_variable-undefined_example :
    process_ast
      (resolve_includes_pass files base 3)
      4
      (include_block (codes "y") none other_variable)
    ≡ undefined
unfolding str_eq b.Passes.Includes.resolve_path b.Base.find
resolve-missing_variable-undefined_example =
    resolve-missing_variable-undefined files base (codes "y") (codes "y") 3 3 other_variable file_y
      file_y refl file_processed refl refl (λ e. cc (no_replacement))

-- `y + f()` of an included file
abbrev sum : Expression
sum = binary_operation (variable_reference (codes "y")) (method_call (codes "f") nil) addition

abbrev scope : Expression
scope = variable_reference (codes "z")

abbrev scoped_sum : Expression
scoped_sum =
    binary_operation (get_attribute scope (codes "y")) (method_call (codes "f") nil) addition

scoped : process (prepend_scope_pass scope) 2 sum ≡ ok scoped_sum
unfolding process b.Passes.Includes.prepend_node b.Ast.Expression.clone
scoped = refl

abbrev mapping : Mapping
mapping = (codes "y", integer_literal (pos 4)) ∷ []

abbrev mapped_sum : Expression
mapped_sum = binary_operation (integer_literal (pos 4)) (method_call (codes "f") nil) addition

mapped : process (replace_variable_references_pass (codes "t/y") mapping) 2 sum ≡ ok mapped_sum
unfolding process b.Passes.Includes.replace_node find str_eq b.Ast.Expression.clone
mapped = refl

mapping-PlainMapping : PlainMapping mapping
unfolding find
mapping-PlainMapping x g p = plain (str_eq (codes "y") x) p
  where
    plain :
        (test : Bool)
        → (if test then some (integer_literal (pos 4)) else none) ≡ some g
        → HasNoArguments g
    plain true q =
        subst {A = Expression} HasNoArguments {x = integer_literal (pos 4)} {y = g} (cc) tt
    plain false q = cc

eval-prepend_scope_example :
    eval toy host scoped_sum ≡ eval toy (with_variables host (scope_variables toy host scope)) sum
eval-prepend_scope_example = eval-prepend_scope toy host scope 2 sum scoped_sum tt scoped

eval-replace_variable_references_example :
    eval toy host mapped_sum
    ≡ eval toy (with_variables host (mapped_variables toy host mapping)) sum
eval-replace_variable_references_example =
    eval-replace_variable_references toy host (codes "t/y") mapping 2 sum mapped_sum
      mapping-PlainMapping mapped

optimised_page : optimize_ast toy files all_enabled 3 page base ≡ ok resolved_page
unfolding optimize_ast process_ast b.Passes.Includes.resolve_node str_eq b.Passes.Manager.wrap_node
    process b.Passes.Includes.prepend_node b.Ast.Expression.clone b.Passes.Includes.replace_node
    find b.Passes.Fold.fold_node b.Passes.Convert.convert_node b.Passes.Coalesce.coalesce_node
optimised_page = refl

optimize_ast-HasNoIncludes_example : HasNoIncludes resolved_page
optimize_ast-HasNoIncludes_example =
    optimize_ast-HasNoIncludes toy files all_enabled 3 page resolved_page base refl optimised_page
