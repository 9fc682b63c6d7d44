-- ===== src/Llvm/Visitor.antt =====
-- lib/backends/llvm/llvm_visitor.cpp: the code of statements, and the function of a template.
pub mod Supported
pub mod Scopes
pub mod Branches
pub mod Conditional
pub mod Loops
pub mod LoopBody
pub mod Iterables
pub mod Statements
pub mod Function
pub mod Conditions
pub mod Rounds
use b.Base.{
  ℕ, ◌+◌, Bool, true, false, ◌&&◌, not, Option, none, some, List, [], ◌∷◌, Str, str_eq, ◌==◌,
  if◌then◌else◌,
}
use b.Ast.Expression.{Expression}
use b.Ast.Template
use b.Ast.Template.{
  Ast, AstList, Body, statements, raw_block, print_block, if_block, for_block, include_block, cons,
  no_body, body,
}
use b.Llvm.{
  LlvmType, int_type, Value, global_string, type_of, cond_br, br, State, M, ◌>>=◌, ◌>>◌, pure,
  raise, break, insert, new_block, place, set_insert_point, unimplemented, no_include_blocks,
}
use b.Llvm.Bindings.{Bindings, function_setup}
use b.Llvm.Expressions.{is_variant, expression}

abbrev pub is_some : {A : Type 0} → Option A → Bool
is_some none = false
is_some (some _) = true

-- `isIntegerTy(1)`
abbrev pub is_condition : LlvmType → Bool
is_condition (int_type w) = w == 1
is_condition _ = false

-- `m_overriden_variables[name] = value`, and `erase(name)` for none
abbrev pub override : Str → Option Value → (Str → Option Value) → Str → Option Value
override x v variables y = if str_eq x y then v else variables y

-- where the variable of the loop has a name and a value, it hides what has that name
abbrev bound : Option Str → Option Value → (Str → Option Value) → Str → Option Value
bound (some x) (some v) variables = override x (some v) variables
bound _ _ variables = variables

-- the value that the name of a variable had
abbrev old_variable : Option Str → (Str → Option Value) → Option Value
old_variable none variables = variables []
old_variable (some x) variables = variables x

-- the value of before is set again, or the entry erased
abbrev restored : Option Str → Option Value → (Str → Option Value) → Str → Option Value
restored none old variables = variables
restored (some x) old variables = override x old variables

module _ {B : Type 0} where
  abbrev change : (State B → State B) → M B (Unit {0})
  change f s = pure tt (f s)

  abbrev pub set_overriden : (Str → Option Value) → State B → State B
  set_overriden variables s = record s { overriden = variables }

  abbrev set_variable : Option Str → Option Value → State B → State B
  set_variable x v s = set_overriden (bound x v s.overriden) s

  abbrev restore_variable : Option Str → Option Value → State B → State B
  restore_variable x old s = set_overriden (restored x old s.overriden) s

  -- then, else and merge: the first is in the function
  abbrev if_blocks : Value → State B → State B
  if_blocks condition s = set_insert_point s.next_block (
      insert (cond_br condition s.next_block (s.next_block + 1))
        (new_block false (new_block false (new_block true s))))

  -- a branch to a block, and the next block put into the function
  abbrev start_block : ℕ → ℕ → State B → State B
  start_block target next s = set_insert_point next (place next (insert (br target) s))

  -- loop, loopElse and afterLoop
  abbrev for_blocks : State B → State B
  for_blocks s = new_block true (new_block true (new_block true s))

  abbrev branch : Value → ℕ → ℕ → ℕ → State B → State B
  branch condition target other next s =
      set_insert_point next (insert (cond_br condition target other) s)

module _ {B : Type 0} (b : Bindings B) where
  -- a variable that was asked for goes out of scope; its value may be the null pointer
  abbrev leave_variable : Option Str → Option Value → M B (Unit {0})
  leave_variable none v = pure tt
  leave_variable (some x) none = break
  leave_variable (some x) (some v) = b.variable_goes_out_of_scope v

  abbrev leave_printed : Value → M B (Unit {0})
  leave_printed v = if is_variant b v then b.variable_goes_out_of_scope v else pure tt

  -- the block "loop" from its start to the test of the next round; `visit` is the visit of the body
  abbrev loop_body : Option Str → Option Str → Value → M B (Unit {0}) → M B Value
  loop_body key value iterable visit s =
      let old_key = old_variable key s.overriden in
      let old_value = old_variable value s.overriden in
      (do
        (k, v) ← b.create_for_loop_get_variables iterable (is_some key) (is_some value)
        change (set_variable key k)
        change (set_variable value v)
        visit
        leave_variable key k
        leave_variable value v
        change (restore_variable key old_key)
        change (restore_variable value old_value)
        b.create_for_loop_next_iteration iterable)
        s

  -- the blocks of a conditional; the arguments visit the two bodies
  abbrev conditional : Value → M B (Unit {0}) → M B (Unit {0}) → M B (Unit {0})
  conditional condition visit other s =
      let n = s.next_block in
      (do
        change (if_blocks condition)
        visit
        change (start_block (n + 2) (n + 1))
        other
        change (start_block (n + 2) (n + 2)))
        s

  unfoldable mutual
    pub ast : Ast → M B (Unit {0})
    ast (statements xs) = list xs
    ast (raw_block t) = do _ ← b.create_print_call (global_string t); pure tt
    ast (print_block e) = do v ← expression b e; _ ← b.create_print_call v; leave_printed v
    ast (if_block e t f) = do
      condition ← expression b e
      if is_condition (type_of condition)
          then conditional condition (visit_body t) (visit_body f)
          else raise unimplemented
    ast (for_block key value e t f) = do
      iterable ← expression b e
      λ s.
          let n = s.next_block in
          (do
            change for_blocks
            first ← b.create_for_loop_init iterable
            change (branch first n (n + 1) n)
            again ← loop_body key value iterable (visit_body t)
            change (branch again n (n + 2) (n + 1))
            visit_body f
            change (λ u. set_insert_point (n + 2) (insert (br (n + 2)) u))
            b.create_for_loop_cleanup iterable
            b.variable_goes_out_of_scope iterable)
            s
    ast (include_block p sc mp) = raise no_include_blocks

    pub list : AstList → M B (Unit {0})
    list Template.nil = pure tt
    list (cons x xs) = do ast x; list xs

    pub visit_body : Body → M B (Unit {0})
    visit_body no_body = pure tt
    visit_body (body x) = ast x

  -- `visit`: the function of a template
  unfoldable pub visit : Ast → M B (Unit {0})
  visit x = do change function_setup; ast x; b.function_teardown
