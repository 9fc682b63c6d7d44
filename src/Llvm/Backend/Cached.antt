-- ===== src/Llvm/Backend/Cached.antt =====
-- A template is compiled once, and its function stays the one of its name.
use b.Base.{ℕ, ◌≡◌, refl, Bool, true, Option, none, some, List, [], ◌∷◌, Str, str_eq_refl}
use b.Ast.Template.{Ast}
use b.Llvm.{Block, State, Reply, done, thrown, broken}
use b.Llvm.Bindings.{Bindings}
use b.Llvm.Steps.{Tracked}
use b.Llvm.Steps.Lawful.{Lawful}
use b.Llvm.Visitor.{visit}
use b.Llvm.Visitor.Supported.{Supported, no_variables}
use b.Llvm.Visitor.Function.{IsIdle, visit-IsCompiled}
use b.Llvm.Backend.{Backend, set_function, create_function}

module _ {B F : Type 0} (b : Bindings B) (verifies : ℕ → State B → Bool)
    (run_passes : ℕ → (ℕ → Block) → ℕ → Block) (pointer_to_function : ℕ → F) where
  abbrev create : Str → Ast → Backend B → Reply (Backend B) F
  create = create_function b verifies run_passes pointer_to_function

  -- the backend that a call leaves, if it returns or throws
  abbrev left_by : Reply (Backend B) F → Option (Backend B)
  left_by (done p s) = some s
  left_by (thrown e s) = some s
  left_by broken = none

  abbrev go_on : Option (Backend B) → (Backend B → Option (Backend B)) → Option (Backend B)
  go_on none k = none
  go_on (some s) k = k s

  -- calls one after the other, each with its name and its tree
  unfoldable pub calls : List (Str × Ast) → Backend B → Option (Backend B)
  calls [] s = some s
  calls ((name, x) ∷ rest) s = go_on (left_by (create name x s)) (calls rest)

  -- No entry of `functions` is lost or changed.
  abbrev Keeps : (Str → Option ℕ) → (Str → Option ℕ) → Type 0
  Keeps functions later = (x : Str) (f : ℕ) → functions x ≡ some f → later x ≡ some f

  abbrev KeptBy : (Str → Option ℕ) → Reply (Backend B) F → Type 0
  KeptBy functions (done p s) = Keeps functions s.functions
  KeptBy functions (thrown e s) = Keeps functions s.functions
  KeptBy functions broken = Unit

  pub known-served :
      (name : Str) (x : Ast) (f : ℕ) (s : Backend B)
      → s.functions name ≡ some f
      → create name x s ≡ done (pointer_to_function f) s
  unfolding create_function
  known-served name x f s h = rw h refl

  compiled :
      (name : Str) (x : Ast) (s : Backend B) (v : State B)
      → s.functions name ≡ none
      → visit b x s.visitor ≡ done tt v
      → verifies s.visitor.next_block v ≡ true
      → create name x s
        ≡ done (pointer_to_function s.visitor.next_block) (record {
          visitor = record v { block = run_passes s.visitor.next_block v.block };
          functions = set_function name s.visitor.next_block s.functions;
        })
  unfolding create_function
  compiled name x s v free run good = rw (free, run, good)

  module _ {t : Tracked B} (laws : Lawful b t) where
    pub create-IsIdle :
        (name : Str) (x : Ast) (s : Backend B)
        → Supported no_variables x
        → IsIdle t s.visitor
        → s.functions name ≡ none
        → ((v : State B) → visit b x s.visitor ≡ done tt v → verifies s.visitor.next_block v ≡ true)
        → (s' : Backend B) × (create name x s ≡ done (pointer_to_function s.visitor.next_block) s')
          × IsIdle t s'.visitor
          × (s'.functions name ≡ some s.visitor.next_block)
    create-IsIdle name x s h i free good =
        let (v, run, c) = visit-IsCompiled laws x s.visitor h i in
        (
          _,
          compiled name x s v free run (good v run),
          record { nothing_hidden = c.idle.nothing_hidden; no_loops = c.idle.no_loops },
          rw (str_eq_refl name),
        )
