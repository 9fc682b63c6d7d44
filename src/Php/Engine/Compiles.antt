-- ===== src/Php/Engine/Compiles.antt =====
-- What `parseTemplate` does with a template that the program handles.
use b.Base.{ℕ, ◌≡◌, Bool, Str, Outcome, ok, ◌>>=◌}
use b.Base.Double.{DoubleOps}
use b.Ast.Template.{Ast}
use b.Passes.Pipeline.{all_enabled, optimize_ast}
use b.Llvm.{Block, State}
use b.Llvm.Backend.{Backend}
use b.Llvm.Visitor.Supported.{Supported}
use b.Php.Bindings.{PhpState}
use b.Php.Engine.{Engine, Template, Parsed, template_path, parse_template}

-- The parser and the passes give this tree for the template.
abbrev pub Optimises : DoubleOps → ℕ → (Str → Outcome Ast) → Str → Str → Ast → Type 0
Optimises d f parse base name x =
    (parse (template_path base name) >>= λ y. optimize_ast d parse all_enabled f y base) ≡ ok x

module _ {H F : Type 0} (d : DoubleOps) (verifies : ℕ → State PhpState → Bool)
    (run_passes : ℕ → (ℕ → Block) → ℕ → Block) (pointer_to_function : ℕ → F) (f : ℕ) where
  abbrev parses : (Str → Outcome Ast) → Str → Engine H → Outcome (Parsed F × Engine H)
  parses parse = parse_template d parse verifies run_passes pointer_to_function f
