-- ===== src/Php/Engine.antt =====
-- `Engine::parseTemplate` of src/php/php_b2.cpp: from the name of a template to its compiled
-- function, through the parser, the passes and the LLVM backend. A SyntaxError is the exception
-- `parse_failed`; `f` is the fuel of the passes.
pub mod Compiles
use b.Base.{
  ℕ, Bool, Option, List, [], ◌∷◌, ◌++◌, Str, codes, Outcome, ok, throw, undefined, out_of_fuel,
  ◌>>=◌, Exception, parse_failed, ◌==◌, if◌then◌else◌,
}
use b.Base.Double.{DoubleOps}
use b.Ast.Template.{Ast}
use b.Passes.Pipeline.{all_enabled, optimize_ast}
use b.Llvm.{Block, State, Reply, done, thrown, broken, LlvmException}
use b.Llvm.Backend.{Backend, create_function}
use b.Php.Bindings.{PhpState, php_bindings}
use b.Php.Printing.{estimated_buffer_size}

-- `Engine_object`: `registered_functions` is a table of the engine
pub record Engine (H : Type 0) : Type 0 where
  pub registered_functions : H
  pub base_path : Str
  pub backend : Backend PhpState

-- `Template_object`
pub record Template (F : Type 0) : Type 0 where
  pub buffer_size : ℕ
  pub render_func : F

-- The template object, or the exception that PHP gets.
pub data Parsed (F : Type 0) : Type 0 where
  template : Template F → Parsed F
  syntax_error : Str → Parsed F
  pass_exception : Exception → Parsed F
  backend_exception : LlvmException → Parsed F

-- a path that is not absolute is one below the base path
unfoldable pub template_path : Str → Str → Str
template_path base [] = base ++ codes "/"
template_path base (c ∷ path) = if c == b'/' then c ∷ path else base ++ codes "/" ++ c ∷ path

module _ {H F : Type 0} (d : DoubleOps) (parse : Str → Outcome Ast)
    (verifies : ℕ → State PhpState → Bool) (run_passes : ℕ → (ℕ → Block) → ℕ → Block)
    (pointer_to_function : ℕ → F) (f : ℕ) where
  abbrev answer_with : Parsed F → Engine H → Outcome (Parsed F × Engine H)
  answer_with a engine = ok (a, engine)

  abbrev compiled_template : Engine H → Reply (Backend PhpState) F → Outcome (Parsed F × Engine H)
  compiled_template engine (done func s) =
      answer_with (template (record { buffer_size = estimated_buffer_size; render_func = func }))
        (record engine { backend = s })
  compiled_template engine (thrown e s) =
      answer_with (backend_exception e) (record engine { backend = s })
  compiled_template engine broken = undefined

  abbrev optimised_template : Str → Engine H → Outcome Ast → Outcome (Parsed F × Engine H)
  optimised_template name engine (ok ast) =
      compiled_template engine (
        create_function php_bindings verifies run_passes pointer_to_function name ast
          engine.backend)
  optimised_template name engine (throw e) = answer_with (pass_exception e) engine
  optimised_template name engine undefined = undefined
  optimised_template name engine out_of_fuel = out_of_fuel

  abbrev parsed_template : Str → Engine H → Outcome Ast → Outcome (Parsed F × Engine H)
  parsed_template name engine (ok ast) =
      optimised_template name engine (optimize_ast d parse all_enabled f ast engine.base_path)
  parsed_template name engine (throw (parse_failed file)) = answer_with (syntax_error file) engine
  parsed_template name engine (throw e) = answer_with (pass_exception e) engine
  parsed_template name engine undefined = undefined
  parsed_template name engine out_of_fuel = out_of_fuel

  -- behind the parsing of the parameters
  unfoldable pub parse_template : Str → Engine H → Outcome (Parsed F × Engine H)
  parse_template name engine =
      parsed_template name engine (parse (template_path engine.base_path name))
