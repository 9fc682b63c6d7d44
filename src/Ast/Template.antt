-- ===== src/Ast/Template.antt =====
-- lib/ast/ast.hpp: the statements of a template.
use b.Base.{ℕ, suc, Bool, true, false, List, Str, Option}
use b.Ast.Expression.{Expression}

-- `StringExpressionMap`
abbrev pub Mapping : Type 0
Mapping = List (Str × Expression)

-- A body is a `unique_ptr<AST>`, which may be null; so may be the variables of a loop and the
-- scope of an include.
mutual
  pub data Ast : Type 0 where
    statements : AstList → Ast
    raw_block : Str → Ast
    print_block : Expression → Ast
    if_block : Expression → Body → Body → Ast
    for_block : Option Str → Option Str → Expression → Body → Body → Ast
    include_block : Str → Option Expression → Mapping → Ast

  pub data AstList : Type 0 where
    nil : AstList
    cons : Ast → AstList → AstList

  pub data Body : Type 0 where
    no_body : Body
    body : Ast → Body

pub data AstType : Type 0 where
  statements_type raw_block_type print_block_type : AstType
  if_block_type for_block_type include_block_type : AstType

abbrev pub ast_type : Ast → AstType
ast_type (statements _) = statements_type
ast_type (raw_block _) = raw_block_type
ast_type (print_block _) = print_block_type
ast_type (if_block _ _ _) = if_block_type
ast_type (for_block _ _ _ _ _) = for_block_type
ast_type (include_block _ _ _) = include_block_type

abbrev pub is_same_ast_type : AstType → AstType → Bool
is_same_ast_type statements_type statements_type = true
is_same_ast_type raw_block_type raw_block_type = true
is_same_ast_type print_block_type print_block_type = true
is_same_ast_type if_block_type if_block_type = true
is_same_ast_type for_block_type for_block_type = true
is_same_ast_type include_block_type include_block_type = true
is_same_ast_type _ _ = false

infixr 65 ◌+++◌
abbrev pub ◌+++◌ : AstList → AstList → AstList
nil +++ ys = ys
cons x xs +++ ys = cons x (xs +++ ys)

abbrev pub size : AstList → ℕ
size nil = 0
size (cons x xs) = suc (size xs)
