-- ===== src/TreePrinter.antt =====
-- src/ast_print/print.cpp: the program that prints the optimised tree of a template. The options are
-- taken as `getopt_long` yields them, with the arguments behind them; `dirname` and the parser are
-- parameters, and `f` is the fuel of the passes and of the print visitor.
use b.Base.{
  ℕ, Bool, false, Str, List, [], ◌∷◌, Outcome, ok, throw, undefined, out_of_fuel, ◌>>=◌,
  parse_failed,
}
use b.Base.Double.{DoubleOps}
use b.Ast.Template.{Ast}
use b.Passes.Pipeline.{Enabled, all_enabled, optimize_ast}
use b.Print.{print_visit}
use b.Precompiler.{Exit, quits}

-- The `flag` of an option of `long_options`.
pub data Flag : Type 0 where
  resolve_includes_flag constant_folding_flag literal_conversion_flag coalescing_flag : Flag

-- `help` stands for an option that getopt does not know, too.
pub data PrinterOption : Type 0 where
  switch : Flag → Bool → PrinterOption
  disable_all_passes enable_all_passes help : PrinterOption
  template_basepath : Str → PrinterOption

pub record Settings : Type 0 where
  pub enabled : Enabled
  pub basepath : Str

abbrev pub default_settings : Settings
default_settings = record { enabled = all_enabled; basepath = [] }

abbrev no_passes : Enabled
no_passes = record {
  resolve_includes = false;
  constant_folding = false;
  literal_conversion = false;
  raw_block_coalescing = false;
}

abbrev set_flag : Flag → Bool → Enabled → Enabled
set_flag resolve_includes_flag v on = record on { resolve_includes = v }
set_flag constant_folding_flag v on = record on { constant_folding = v }
set_flag literal_conversion_flag v on = record on { literal_conversion = v }
set_flag coalescing_flag v on = record on { raw_block_coalescing = v }

-- The loop over the options goes on with new settings, or ends the program.
pub data Reading : Type 0 where
  continues : Settings → Reading
  exits : ℕ → Reading

unfoldable pub read_options : List PrinterOption → Settings → Reading
read_options [] s = continues s
read_options (switch flag v ∷ options) s =
    read_options options (record s { enabled = set_flag flag v s.enabled })
read_options (disable_all_passes ∷ options) s =
    read_options options (record s { enabled = no_passes })
read_options (enable_all_passes ∷ options) s =
    read_options options (record s { enabled = all_enabled })
read_options (template_basepath path ∷ options) s =
    read_options options (record s { basepath = path })
read_options (help ∷ options) s = exits 0

module _ (d : DoubleOps) (parse : Str → Outcome Ast) (dirname : Str → Str) (f : ℕ) where
  abbrev base_of : Str → Str → Str
  base_of [] path = dirname path
  base_of (c ∷ base) path = c ∷ base

  -- `printAST`
  abbrev print_ast : Ast → Outcome Exit
  print_ast ast = do text ← print_visit d f ast; ok (record { status = 0; written = text })

  -- a runtime error of the passes is reported; the SyntaxError of an included file is none
  abbrev print_optimised : Outcome Ast → Outcome Exit
  print_optimised (ok ast) = print_ast ast
  print_optimised (throw (parse_failed file)) = throw (parse_failed file)
  print_optimised (throw e) = quits [] 1
  print_optimised undefined = undefined
  print_optimised out_of_fuel = out_of_fuel

  -- `parseAST` reports a syntax error and returns a null pointer
  abbrev print_parsed : Settings → Str → Outcome Ast → Outcome Exit
  print_parsed s path (ok ast) =
      print_optimised (optimize_ast d parse s.enabled f ast (base_of s.basepath path))
  print_parsed s path (throw (parse_failed file)) = quits [] 1
  print_parsed s path (throw e) = throw e
  print_parsed s path undefined = undefined
  print_parsed s path out_of_fuel = out_of_fuel

  abbrev print_arguments : Settings → List Str → Outcome Exit
  print_arguments s (path ∷ []) = print_parsed s path (parse path)
  print_arguments s _ = quits [] 1

  abbrev after_reading : Reading → List Str → Outcome Exit
  after_reading (exits status) arguments = quits [] status
  after_reading (continues s) arguments = print_arguments s arguments

  unfoldable pub main : List PrinterOption → List Str → Outcome Exit
  main options arguments = after_reading (read_options options default_settings) arguments
