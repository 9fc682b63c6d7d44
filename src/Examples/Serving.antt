-- ===== src/Examples/Serving.antt =====
-- `parseTemplate` and `createFunction` on concrete templates.
use b.Base.{if◌then◌else◌, ℕ, true, Option, none, List, [], Str, codes, Outcome, ok, str_eq, Bool}
use b.Base.Int.{pos}
use b.Ast.Expression.{variable_reference, integer_literal, binary_operation, addition}
use b.Ast.Template
use b.Ast.Template.{Ast, statements, raw_block, print_block, include_block, cons}
use b.Llvm.{Block, State}
use b.Llvm.Backend.{Backend}
use b.Llvm.Visitor.Supported.{Supported}
use b.Php.Bindings.{PhpState}
use b.Php.Engine.{Engine, Template}
use b.Examples.Compiling.{initial}

abbrev page : Ast
page = statements (
    cons
      (print_block (binary_operation (integer_literal (pos 1)) (integer_literal (pos 2)) addition))
      (cons (print_block (variable_reference (codes "x")))
        (cons (include_block (codes "foot") none []) Template.nil)))

abbrev foot : Ast
foot = raw_block (codes "b")

abbrev optimised_page : Ast
optimised_page = statements (
    cons (raw_block (codes "3"))
      (cons (print_block (variable_reference (codes "x"))) (cons foot Template.nil)))

-- the files before, and behind a change of the template
abbrev files : Str → Outcome Ast
files file = if str_eq file (codes "t/page") then ok page else ok foot

abbrev changed_files : Str → Outcome Ast
changed_files file = ok foot

abbrev backend : Backend PhpState
backend = record { visitor = initial; functions = λ x. none }

abbrev engine : Engine (Unit {0})
engine = record { registered_functions = tt; base_path = codes "t"; backend = backend }

abbrev accepts : ℕ → State PhpState → Bool
accepts f s = true

abbrev same_blocks : ℕ → (ℕ → Block) → ℕ → Block
same_blocks f blocks = blocks

abbrev address : ℕ → ℕ
address f = f
