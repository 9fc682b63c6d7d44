-- ===== src/Llvm/Backend.antt =====
-- lib/backends/llvm/llvm_backend.cpp: the functions of templates, each compiled once. A function is
-- known by the number of its entry block. LLVM's verifier, its optimisation passes and its execution
-- engine are parameters.
pub mod Cached
use b.Base.{ℕ, Bool, Option, none, some, Str, str_eq, if◌then◌else◌}
use b.Ast.Template.{Ast}
use b.Llvm.{Block, State, Reply, done, thrown, broken, invalid_function}
use b.Llvm.Bindings.{Bindings}
use b.Llvm.Visitor.{visit}

-- The visitor, and `m_functions`: `operator[]` makes no difference between an absent entry and a
-- null one.
pub record Backend (B : Type 0) : Type 0 where
  pub visitor : State B
  pub functions : Str → Option ℕ

-- `m_functions[name] = llvmFunc`
abbrev pub set_function : Str → ℕ → (Str → Option ℕ) → Str → Option ℕ
set_function name f functions x = if str_eq name x then some f else functions x

module _ {B F : Type 0} (b : Bindings B) (verifies : ℕ → State B → Bool)
    (run_passes : ℕ → (ℕ → Block) → ℕ → Block) (pointer_to_function : ℕ → F) where
  -- the function that a visit made is verified, optimised and kept
  abbrev pub finish_function : Str → (Str → Option ℕ) → ℕ → State B → Reply (Backend B) F
  finish_function name functions f s =
      if verifies f s
      then done (pointer_to_function f) (record {
        visitor = record s { block = run_passes f s.block };
        functions = set_function name f functions;
      })
      else thrown invalid_function (record { visitor = s; functions = functions })

  abbrev pub visited_function : Str → Backend B → Reply (State B) (Unit {0}) → Reply (Backend B) F
  visited_function name s (done _ v) = finish_function name s.functions s.visitor.next_block v
  visited_function name s (thrown e v) = thrown e (record s { visitor = v })
  visited_function name s broken = broken

  abbrev pub found_function : Str → Ast → Option ℕ → Backend B → Reply (Backend B) F
  found_function name x (some f) s = done (pointer_to_function f) s
  found_function name x none s = visited_function name s (visit b x s.visitor)

  unfoldable pub create_function : Str → Ast → Backend B → Reply (Backend B) F
  create_function name x s = found_function name x (s.functions name) s
