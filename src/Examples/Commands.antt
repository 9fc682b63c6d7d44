-- ===== src/Examples/Commands.antt =====
-- Runs of the precompiler.
use b.Base.{
  ◌≡◌, ◌↔◌, refl, Bool, true, false, Str, [], ◌∷◌, codes, str_eq, Outcome, ok, throw, unreadable,
  if◌then◌else◌,
}
use b.Ast.Template.{Ast, raw_block}
use b.Passes.Pipeline.{all_enabled}
use b.Precompiler.{
  Settings, disable_pass, enable_pass, enable_undefined_check, continues, default_settings,
  read_options, main,
}
use b.Precompiler.Options.{
  folding, name_of, is_enabled, last_word, value_or, is_enabled-read_options,
}
use b.Precompiler.Runs.{Runs, main-Runs_iff}
use b.Javascript.Visitor.{initial}
use b.Examples.{toy}

-- one file, and the directory of every path is `t`
abbrev one_file : Str → Outcome Ast
one_file path =
    if str_eq path (codes "t/a") then ok (raw_block (codes "hi")) else throw (unreadable path)

abbrev directory : Str → Str
directory path = codes "t"

abbrev switched : Settings
switched = record default_settings {
  enabled = record all_enabled { literal_conversion = false };
  visitor = initial true;
}

read :
    read_options
      (disable_pass (codes "constant-folding-pass")
        ∷ disable_pass (codes "literal-print-to-raw-conversion-pass")
        ∷ enable_undefined_check
        ∷ enable_pass (codes "constant-folding-pass")
        ∷ [])
      default_settings
    ≡ continues switched
unfolding read_options str_eq
read = refl

-- the exception of a file that cannot be opened ends the program
missing_file :
    main toy one_file directory 50 [] (codes "t/b" ∷ []) ≡ throw (unreadable (codes "t/b"))
unfolding main str_eq
missing_file = refl

written_hi :
    main toy one_file directory 50 [] (codes "t/a" ∷ [])
    ≡ ok (record {
      status = 0;
      written =
          codes
            "function(helpers, data) {\n\tdata = data || {};\n\tvar buffer = '';\n\n\tbuffer += 'hi';\n\n\treturn buffer;\n}\n";
    })
unfolding main str_eq b.Passes.Tree.process_ast b.Passes.Includes.resolve_node
    b.Passes.Manager.wrap_node b.Passes.Convert.convert_node b.Passes.Coalesce.coalesce_node
    b.Javascript.Emitter.line b.Javascript.Emitter.indent b.Javascript.Emitter.blankline
    b.Javascript.Expressions.write_escaped b.Escape.javascript_escape b.Javascript.Emitter.outdent
    b.Base.Int.◌+ℤ◌ b.Base.Int.◌-ℤ◌
written_hi = refl

is_enabled-read_options_example :
    is_enabled folding switched.enabled
    ≡ value_or (is_enabled folding default_settings.enabled) (
        last_word (name_of folding) (
          disable_pass (codes "constant-folding-pass")
          ∷ disable_pass (codes "literal-print-to-raw-conversion-pass")
          ∷ enable_undefined_check
          ∷ enable_pass (codes "constant-folding-pass")
          ∷ []))
is_enabled-read_options_example =
    is_enabled-read_options folding
      (disable_pass (codes "constant-folding-pass")
        ∷ disable_pass (codes "literal-print-to-raw-conversion-pass")
        ∷ enable_undefined_check
        ∷ enable_pass (codes "constant-folding-pass")
        ∷ [])
      default_settings switched read

main-Runs_iff_example :
    (main toy one_file directory 50 [] (codes "t/a" ∷ codes "t/b" ∷ [])
      ≡ ok (record { status = 1; written = [] }))
    ↔ Runs toy one_file directory 50 []
        (codes "t/a" ∷ codes "t/b" ∷ [])
        (record { status = 1; written = [] })
main-Runs_iff_example =
    main-Runs_iff toy one_file directory 50 [] (codes "t/a" ∷ codes "t/b" ∷ [])
      (record { status = 1; written = [] })
