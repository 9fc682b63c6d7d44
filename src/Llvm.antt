-- ===== src/Llvm.antt =====
-- The LLVM backend: lib/backends/llvm/llvm_visitor.cpp and llvm_bindings.h beside it. The visitor
-- builds the function of a template through LLVM's IRBuilder, whose calls are recorded here: the
-- basic blocks with their instructions, the insertion point, and the values that instructions give.
-- The builder's own folding of constants is left out.
pub mod Bindings
pub mod Flow
pub mod Steps
pub mod Returns
pub mod Expressions
pub mod Visitor
pub mod Backend
use b.Base.{
  ℕ, ◌+◌, Bool, true, false, ◌&&◌, ◌||◌, not, Option, none, some, List, [], ◌∷◌, Str, str_eq, ◌==◌,
  if◌then◌else◌,
}
use b.Base.Int.{ℤ}
use b.Ast.Expression.{ComparisonOperation}

-- The types of values that the code tells apart; an `int_type` has its width in bits.
pub data LlvmType : Type 0 where
  void_type double_type byte_pointer pointer_pointer : LlvmType
  int_type : ℕ → LlvmType
  struct_pointer : Str → LlvmType

-- Constants, the arguments of the function, and the results of instructions by number.
pub data Value : Type 0 where
  constant_double : ℕ → Value
  constant_int : ℕ → ℤ → Value
  global_string : Str → Value
  null_pointer : LlvmType → Value
  function_argument : ℕ → LlvmType → Value
  result : ℕ → LlvmType → Value

abbrev pub type_of : Value → LlvmType
type_of (constant_double _) = double_type
type_of (constant_int width _) = int_type width
type_of (global_string _) = byte_pointer
type_of (null_pointer t) = t
type_of (function_argument _ t) = t
type_of (result _ t) = t

pub data Opcode : Type 0 where
  add sub mul exact_sdiv srem fadd fsub fmul fdiv frem : Opcode
  si_to_fp neg not_ and_ or_ alloca load store trunc in_bounds_gep : Opcode
  icmp fcmp : ComparisonOperation → Opcode
  call : Str → Opcode

-- A label is the number of a block.
pub data Instruction : Type 0 where
  compute : Opcode → List Value → Value → Instruction
  cond_br : Value → ℕ → ℕ → Instruction
  br : ℕ → Instruction
  ret_void : Instruction

abbrev pub is_terminator : Instruction → Bool
is_terminator (compute _ _ _) = false
is_terminator _ = true

-- A block with its instructions, the last one first, and whether it is in the function.
pub record Block : Type 0 where
  pub instructions : List Instruction
  pub placed : Bool

-- The state of the visitor, with that of the bindings, `B`. The map of overriden variables is a
-- function: `operator[]` makes no difference between an absent entry and a null one.
pub record State (B : Type 0) : Type 0 where
  pub block : ℕ → Block
  pub next_block : ℕ
  pub insert_block : ℕ
  pub next_value : ℕ
  pub overriden : Str → Option Value
  pub bindings : B

pub data LlvmException : Type 0 where
  unimplemented no_include_blocks unknown_type no_refcount invalid_function : LlvmException

-- A call returns, throws with the state that it leaves behind, or does what C++ and LLVM leave
-- undefined: a null pointer followed, or an instruction on operands that it does not take.
pub data Reply (S A : Type 0) : Type 0 where
  done : A → S → Reply S A
  thrown : LlvmException → S → Reply S A
  broken : Reply S A

abbrev pub M : Type 0 → Type 0 → Type 0
M B A = State B → Reply (State B) A

infixl 5 ◌>>=◌ ◌>>◌
abbrev pub ◌>>=◌ : {B A C : Type 0} → M B A → (A → M B C) → M B C
◌>>=◌ m f s = elim (m s) [ done a s' ↦ f a s' | thrown e s' ↦ thrown e s' | broken ↦ broken ]

abbrev pub ◌>>◌ : {B C : Type 0} → M B (Unit {0}) → M B C → M B C
m >> k = m >>= λ _. k

abbrev pub set_block : ℕ → Block → (ℕ → Block) → ℕ → Block
set_block l b blocks k = if k == l then b else blocks k

abbrev pub append : Instruction → Block → Block
append i b = record b { instructions = i ∷ b.instructions }

module _ {B : Type 0} where
  abbrev pub pure : {A : Type 0} → A → M B A
  pure a s = done a s

  abbrev pub raise : {A : Type 0} → LlvmException → M B A
  raise e s = thrown e s

  abbrev pub break : {A : Type 0} → M B A
  break s = broken

  -- an instruction at the insertion point
  unfoldable pub insert : Instruction → State B → State B
  insert i s = record s {
    block = set_block s.insert_block (append i (s.block s.insert_block)) s.block;
  }

  -- an instruction with a result
  unfoldable pub emit : Opcode → List Value → LlvmType → M B Value
  unfolding insert
  emit op operands t s =
      let v = result s.next_value t in
      done v (record (insert (compute op operands v) s) { next_value = s.next_value + 1 })

  -- `BasicBlock::Create`, with the function or without
  unfoldable pub new_block : Bool → State B → State B
  new_block placed s = record s {
    block = set_block s.next_block (record { instructions = []; placed = placed }) s.block;
    next_block = s.next_block + 1;
  }

  -- `getBasicBlockList().push_back(block)`
  unfoldable pub place : ℕ → State B → State B
  place l s = record s { block = set_block l (record (s.block l) { placed = true }) s.block }

  unfoldable pub set_insert_point : ℕ → State B → State B
  set_insert_point l s = record s { insert_block = l }
