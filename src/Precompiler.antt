-- ===== src/Precompiler.antt =====
-- src/js_precompiler/compiler.cpp: the program that compiles a template to JavaScript. The reading of
-- the command line (`getopt_long`) is outside: the model takes the options as it yields them, and the
-- arguments behind them; so are `dirname` and the parser.
pub mod Options
pub mod Runs
use b.Base.{
  ℕ, Bool, true, false, Str, List, [], ◌∷◌, codes, str_eq, Outcome, ok, throw, undefined,
  out_of_fuel, ◌>>=◌, parse_failed, if◌then◌else◌,
}
use b.Base.Double.{DoubleOps}
use b.Ast.Template.{Ast}
use b.Passes.Pipeline.{Enabled, all_enabled, optimize_ast}
use b.Javascript.Emitter.{State}
use b.Javascript.Visitor.{visit, initial}

-- `help` stands for an option that getopt does not know, too.
pub data CommandOption : Type 0 where
  disable_pass enable_pass : Str → CommandOption
  list_passes : CommandOption
  template_basepath : Str → CommandOption
  enable_undefined_check help : CommandOption

-- What the loop over the options sets: the `enable_…` variables, `basepath` and `js_visitor`, whose
-- output is that of the program.
pub record Settings : Type 0 where
  pub enabled : Enabled
  pub basepath : Str
  pub visitor : State

abbrev pub default_settings : Settings
default_settings = record { enabled = all_enabled; basepath = []; visitor = initial false }

-- the loop over `passes`: the variable of the first pass of that name is set
unfoldable pub set_pass : Bool → Str → Enabled → Enabled
set_pass value name on =
    if str_eq (codes "resolve-includes-pass") name
    then record on { resolve_includes = value }
    else if str_eq (codes "constant-folding-pass") name
    then record on { constant_folding = value }
    else if str_eq (codes "literal-print-to-raw-conversion-pass") name
    then record on { literal_conversion = value }
    else if str_eq (codes "raw-block-coalescing-pass") name
    then record on { raw_block_coalescing = value }
    else on

-- The loop over the options goes on with new settings, or ends the program.
pub data Reading : Type 0 where
  continues : Settings → Reading
  exits : ℕ → Settings → Reading

unfoldable pub read_options : List CommandOption → Settings → Reading
unfolding set_pass
read_options [] s = continues s
read_options (disable_pass name ∷ options) s =
    read_options options (record s { enabled = set_pass false name s.enabled })
read_options (enable_pass name ∷ options) s =
    read_options options (record s { enabled = set_pass true name s.enabled })
read_options (list_passes ∷ options) s = exits 0 s
read_options (template_basepath path ∷ options) s =
    read_options options (record s { basepath = path })
read_options (enable_undefined_check ∷ options) s =
    read_options options (record s { visitor = record s.visitor { undefined_check = true } })
read_options (help ∷ options) s = exits 0 s

-- the status of the program, and what it has written to its output
pub record Exit : Type 0 where
  pub status : ℕ
  pub written : Str

-- `return` in `main`, with what is written by then
abbrev pub quits : Str → ℕ → Outcome Exit
quits output status = ok (record { status = status; written = output })

module _ (d : DoubleOps) (parse : Str → Outcome Ast) (dirname : Str → Str) (f : ℕ) where
  abbrev pub base_of : Str → Str → Str
  base_of [] path = dirname path
  base_of (c ∷ base) path = c ∷ base

  -- `optimizeAST` and the visit; `f` is the fuel of both
  unfoldable pub compile : Settings → Str → Ast → Outcome Exit
  unfolding optimize_ast visit
  compile s path ast = do
    optimised ← optimize_ast d parse s.enabled f ast (base_of s.basepath path)
    after ← visit d f optimised s.visitor
    ok (record { status = 0; written = after.output })

  -- `parseAST` reports a syntax error and returns a null pointer; another exception ends the program
  unfoldable pub compile_file : Settings → Str → Outcome Ast → Outcome Exit
  unfolding compile
  compile_file s path (ok ast) = compile s path ast
  compile_file s path (throw (parse_failed file)) = quits s.visitor.output 1
  compile_file s path (throw e) = throw e
  compile_file s path undefined = undefined
  compile_file s path out_of_fuel = out_of_fuel

  unfoldable pub compile_arguments : Settings → List Str → Outcome Exit
  unfolding compile_file
  compile_arguments s (path ∷ []) = compile_file s path (parse path)
  compile_arguments s _ = quits s.visitor.output 1

  abbrev pub after_options : Reading → List Str → Outcome Exit
  after_options (exits status s) arguments = quits s.visitor.output status
  after_options (continues s) arguments = compile_arguments s arguments

  unfoldable pub main : List CommandOption → List Str → Outcome Exit
  unfolding compile_arguments read_options
  main options arguments = after_options (read_options options default_settings) arguments
