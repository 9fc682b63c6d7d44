-- ===== src/Passes/Convert.antt =====
-- lib/ast/passes/convert_literal_printblock_to_rawblock_pass.cpp: a literal that is printed becomes
-- a raw block with its text.
use b.Base.{
  ℕ, zero, suc, ◌+◌, ◌/◌, ◌%◌, Bool, true, false, Str, [], ◌∷◌, ◌++◌, Outcome, ok, codes, ltb,
  if◌then◌else◌,
}
use b.Base.Int.{ℤ, pos, negsuc}
use b.Base.Double.{DoubleOps}
use b.Ast.Expression.{Expression, double_literal, integer_literal, boolean_literal, string_literal}
use b.Ast.Template.{Ast, raw_block, print_block}
use b.Passes.Tree.{AstPass}

-- The decimal digits of a number, with fuel; each step divides by ten.
unfoldable pub digits_of : ℕ → ℕ → Str
digits_of zero n = []
digits_of (suc f) n =
    let rest = digits_of f (n / 10) ++ (b'0' + n % 10) ∷ [] in
    if ltb n 10 then (b'0' + n) ∷ [] else rest

-- `stream << value` and `std::to_string(value)` of a `long`
unfoldable pub print_long : ℤ → Str
unfolding digits_of
print_long (pos n) = digits_of (suc n) n
print_long (negsuc n) = b'-' ∷ digits_of (suc (suc n)) (suc n)

abbrev pub print_boolean : Bool → Str
print_boolean true = codes "true"
print_boolean false = codes "false"

module _ (d : DoubleOps) where
  abbrev pub convert_expression : Expression → Ast
  convert_expression (double_literal v) = raw_block (d.print v)
  convert_expression (integer_literal n) = raw_block (print_long n)
  convert_expression (boolean_literal v) = raw_block (print_boolean v)
  convert_expression (string_literal s) = raw_block s
  convert_expression e = print_block e

  unfoldable pub convert_node : (Ast → Outcome Ast) → Ast → Outcome Ast
  convert_node rec (print_block e) = ok (convert_expression e)
  convert_node rec a = ok a

  abbrev pub convert_literal_pass : AstPass
  convert_literal_pass = record { process_node = convert_node }
