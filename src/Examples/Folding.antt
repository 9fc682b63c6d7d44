-- ===== src/Examples/Folding.antt =====
-- Folding and copying small expressions.
use b.Base.{
  ◌≡◌, ◌≢◌, ◌≤◌, ◌*◌, ◌↔◌, refl, true, false, codes, ok, undefined, out_of_fuel, throw,
  division_by_zero, arith,
}
use b.Base.Int.{pos, negsuc}
use b.Ast.Expression.{
  Expression, ExpressionList, nil, argument, null_argument, variable_reference, method_call,
  integer_literal, boolean_literal, binary_operation, unary_operation, comparison, multiplication,
  subtraction, division, less_than, numeric_negative, clone, clone_expression_list,
}
use b.Ast.Clone.{
  clone-same_iff, clone_expression_list-nulls_before, argument_count, nulls_before, AreCopies,
  HasNoArguments,
}
use b.Meaning.{eval}
use b.Passes.Walk.{process}
use b.Passes.Fold.{fold_constant_expressions_pass, fold_comparison}
use b.Passes.Fold.Keeps.{eval-fold}
use b.Passes.Fold.Total.{fold-ne-out_of_fuel}
use b.Passes.Fold.Idempotent.{fold-idempotent}
use b.Passes.Fold.Mixed.{fold_comparison-undefined_iff, is_misread}
use b.Examples.{toy, host, toy-IsExact}

-- `(2 * 3 - y) < -7`
abbrev sum : Expression
sum =
    comparison
      (binary_operation
        (binary_operation (integer_literal (pos 2)) (integer_literal (pos 3)) multiplication)
        (variable_reference (codes "y")) subtraction)
      (unary_operation (integer_literal (pos 7)) numeric_negative) less_than

abbrev folded_sum : Expression
folded_sum =
    comparison
      (binary_operation (integer_literal (pos 6)) (variable_reference (codes "y")) subtraction)
      (integer_literal (negsuc 6)) less_than

folded : process (fold_constant_expressions_pass toy) 4 sum ≡ ok folded_sum
unfolding process b.Passes.Fold.fold_node b.Base.Int.◌*ℤ◌
folded = refl

abbrev quotient : Expression
quotient = binary_operation (integer_literal (pos 7)) (integer_literal (pos 0)) division

divided : process (fold_constant_expressions_pass toy) 2 quotient ≡ throw division_by_zero
unfolding process b.Passes.Fold.fold_node
divided = refl

abbrev mixed : Expression
mixed = comparison (integer_literal (pos 7)) (boolean_literal true) less_than

misread : process (fold_constant_expressions_pass toy) 2 mixed ≡ undefined
unfolding process b.Passes.Fold.fold_node
misread = refl

eval-fold_example : eval toy host folded_sum ≡ eval toy host sum
eval-fold_example = eval-fold toy host 4 sum folded_sum (toy-IsExact sum) folded

fold-idempotent_example : process (fold_constant_expressions_pass toy) 4 folded_sum ≡ ok folded_sum
fold-idempotent_example = fold-idempotent toy 4 sum folded_sum (omega arith) folded

fold-ne-out_of_fuel_example : process (fold_constant_expressions_pass toy) 4 sum ≢ out_of_fuel
fold-ne-out_of_fuel_example = fold-ne-out_of_fuel toy 4 sum (omega arith)

fold_comparison-undefined_iff_example :
    (fold_comparison toy (integer_literal (pos 7)) (boolean_literal true) less_than ≡ undefined)
    ↔ (is_misread (integer_literal (pos 7)) (boolean_literal true) less_than ≡ true)
fold_comparison-undefined_iff_example =
    fold_comparison-undefined_iff toy (integer_literal (pos 7)) (boolean_literal true) less_than
      refl refl

-- the arguments of `f(x, 1)`
abbrev two_arguments : ExpressionList
two_arguments = argument (variable_reference (codes "x")) (argument (integer_literal (pos 1)) nil)

abbrev copied_arguments : ExpressionList
copied_arguments = null_argument (null_argument two_arguments)

abbrev call : Expression
call = method_call (codes "f") two_arguments

copied : clone_expression_list two_arguments ≡ ok copied_arguments
unfolding clone_expression_list
copied = refl

copied_call : clone call ≡ ok (method_call (codes "f") copied_arguments)
unfolding clone
copied_call = refl

-- a copy of the copy follows a null pointer
copied_twice : clone (method_call (codes "f") copied_arguments) ≡ undefined
unfolding clone
copied_twice = refl

clone-same_iff_example : (clone call ≡ ok call) ↔ HasNoArguments call
clone-same_iff_example = clone-same_iff call

clone_expression_list-nulls_before_example :
    (zs : ExpressionList) × (copied_arguments ≡ nulls_before (argument_count two_arguments) zs)
    × AreCopies two_arguments zs
clone_expression_list-nulls_before_example =
    clone_expression_list-nulls_before two_arguments copied_arguments copied
