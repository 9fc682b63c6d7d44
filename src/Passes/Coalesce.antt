-- ===== src/Passes/Coalesce.antt =====
-- lib/ast/passes/coalesce_rawblocks_pass.cpp: runs of raw blocks become one raw block.
pub mod Keeps
pub mod Normal
use b.Base.{Bool, true, false, Str, List, [], ◌∷◌, ◌++◌, Outcome, ok, if◌then◌else◌, length, ltb}
use b.Ast.Template.{Ast, AstList, statements, raw_block, nil, cons}
use b.Passes.Tree.{AstPass}

-- The strings are copied one behind the other into a new one.
abbrev pub concat : List Str → Str
concat [] = []
concat (s ∷ strings) = s ++ concat strings

-- The inner loop that gathers the texts of a raw block and of the raw blocks behind it.
abbrev pub gather : AstList → List Str
gather (cons (raw_block t) rest) = t ∷ gather rest
gather _ = []

-- The outer loop. The flag says that the raw blocks at the front are those that the `while` loop
-- erases, because the block before them has taken up their texts.
unfoldable pub coalesce : Bool → AstList → AstList
coalesce erasing nil = nil
coalesce true (cons (raw_block t) rest) = coalesce true rest
coalesce false (cons (raw_block t) rest) =
    let strings = gather (cons (raw_block t) rest) in
    cons (raw_block (if ltb 1 (length strings) then concat strings else t)) (coalesce true rest)
coalesce erasing (cons s rest) = cons s (coalesce false rest)

unfoldable pub coalesce_node : (Ast → Outcome Ast) → Ast → Outcome Ast
unfolding coalesce
coalesce_node rec (statements xs) = ok (statements (coalesce false xs))
coalesce_node rec a = ok a

abbrev pub coalesce_raw_blocks_pass : AstPass
coalesce_raw_blocks_pass = record { process_node = coalesce_node }
