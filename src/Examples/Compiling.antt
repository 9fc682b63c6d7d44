-- ===== src/Examples/Compiling.antt =====
-- Templates compiled by the LLVM visitor with the bindings for PHP.
use b.Base.{
  ℕ, zero, suc, ◌≡◌, refl, Bool, true, false, Option, none, some, List, [], ◌∷◌, Str, codes,
  if◌then◌else◌, str_eq,
}
use b.Base.Int.{ℤ, pos}
use b.Ast.Expression.{
  Expression, variable_reference, integer_literal, comparison, unary_operation, equal,
  boolean_negation,
}
use b.Ast.Template
use b.Ast.Template.{
  Ast, Body, statements, print_block, raw_block, if_block, for_block, cons, no_body, body,
}
use b.Llvm.{State, Reply, done, thrown, broken, unimplemented}
use b.Llvm.Bindings.{function_setup}
use b.Llvm.Steps.{variant}
use b.Llvm.Visitor.{ast, visit, is_some}
use b.Llvm.Expressions.{expression}
use b.Llvm.Visitor.Supported.{Supported, no_variables}
use b.Llvm.Visitor.Function.{IsIdle, IsCompiled, visit-IsCompiled, setup-Ready}
use b.Llvm.Visitor.Conditions.{ast-if_block-unimplemented}
use b.Php.Bindings.{PhpState, php_bindings}
use b.Php.Bindings.References.{php_tracked}
use b.Php.Bindings.Lawful.{php-Lawful}

abbrev pub initial : State PhpState
initial = record {
  block = λ l. record { instructions = []; placed = false };
  next_block = 0;
  insert_block = 0;
  next_value = 0;
  overriden = λ x. none;
  bindings = record { ref_count = λ n. none; metadata = λ n. none };
}

pub initial-IsIdle : IsIdle php_tracked initial
initial-IsIdle = record { nothing_hidden = λ x. refl; no_loops = λ n. refl }

abbrev named : Str → Expression
named x = variable_reference x

-- a loop over `a` whose body loops over its variable and prints on a condition
abbrev template : Ast
template =
    for_block none (some (codes "x")) (named (codes "a"))
      (body (
        statements (
          cons
            (for_block (some (codes "i")) (some (codes "y")) (named (codes "x"))
              (body (print_block (named (codes "y")))) no_body)
            (cons
              (if_block (comparison (named (codes "x")) (integer_literal (pos 1)) equal)
                (body (raw_block (codes "one"))) no_body)
              Template.nil))))
      no_body

template-Supported : Supported no_variables template
unfolding str_eq
template-Supported = (refl, refl, ((refl, refl, (variant, refl), tt), ((refl, tt, tt), tt)), tt)

visit-IsCompiled_example :
    (s' : State PhpState) × (visit php_bindings template initial ≡ done tt s')
    × IsCompiled php_tracked initial s'
visit-IsCompiled_example =
    visit-IsCompiled php-Lawful template initial template-Supported initial-IsIdle

abbrev loop_body_of : Body
loop_body_of = body (
    if_block (comparison (named (codes "x")) (integer_literal (pos 1)) equal)
      (body (raw_block (codes "one"))) no_body)

abbrev negated : Expression
negated = unary_operation (named (codes "x")) boolean_negation

negated_condition_throws :
    (s' : State PhpState) × (ast php_bindings
        (if_block negated no_body no_body)
        (function_setup initial)
      ≡ thrown unimplemented s')
negated_condition_throws =
    ast-if_block-unimplemented php-Lawful negated no_body no_body variant (function_setup initial)
      refl (cc) (setup-Ready php-Lawful initial-IsIdle)

-- What a visit that throws leaves of the variable `x`.
abbrev left_over : {A : Type 0} → Reply (State PhpState) A → Bool
left_over (done a s) = false
left_over (thrown e s) = is_some (s.overriden (codes "x"))
left_over broken = false

-- A visit that throws inside a loop leaves the variable of the loop to the next visit.
variable_left_over :
    left_over (
      visit php_bindings
        (for_block none
          (some (codes "x"))
          (named (codes "a"))
          (body (if_block negated no_body no_body))
          no_body)
        initial)
    ≡ true
unfolding visit ast b.Llvm.Expressions.expression function_setup
    b.Php.Bindings.create_variable_lookup b.Php.Bindings.emit_counted b.Llvm.emit
    b.Php.Bindings.set_ref_count b.Php.Bindings.create_for_loop_init str_eq
    b.Php.Bindings.set_metadata b.Php.Bindings.create_for_loop_get_variables
    b.Php.Bindings.get_new_reference_for_variable b.Php.Bindings.create_variant_unary_operation
    b.Php.Bindings.wrap_as_variant b.Php.Bindings.operator_call
    b.Php.Bindings.create_ret_void_if_call_fails b.Base.Int.◌+ℤ◌ b.Base.Int.◌-ℤ◌
    b.Php.Bindings.function_teardown b.Llvm.insert b.Llvm.new_block b.Llvm.place
    b.Llvm.set_insert_point b.Php.Bindings.variable_goes_out_of_scope
variable_left_over = refl

-- Two loops over one variable of a loop around, one inside the other: the inner one erases the entry
-- of the outer one, whose next round then follows a null pointer.
inner_loop_erases :
    visit php_bindings
      (for_block none
        (some (codes "x"))
        (named (codes "a"))
        (body (
          for_block none
            (some (codes "y"))
            (named (codes "x"))
            (body (
              for_block none
                (some (codes "z"))
                (named (codes "x"))
                (body (raw_block (codes "t")))
                no_body))
            no_body))
        no_body)
      initial
    ≡ broken
unfolding visit ast b.Llvm.Expressions.expression function_setup
    b.Php.Bindings.create_variable_lookup b.Php.Bindings.emit_counted b.Llvm.emit
    b.Php.Bindings.set_ref_count b.Php.Bindings.create_for_loop_init str_eq
    b.Php.Bindings.set_metadata b.Php.Bindings.create_for_loop_get_variables
    b.Php.Bindings.get_new_reference_for_variable b.Php.Bindings.create_print_call
    b.Php.Bindings.create_for_loop_next_iteration b.Php.Bindings.create_for_loop_cleanup
    b.Php.Bindings.create_ret_void_if_call_fails b.Base.Int.◌+ℤ◌ b.Base.Int.◌-ℤ◌
    b.Php.Bindings.function_teardown b.Llvm.insert b.Llvm.new_block b.Llvm.place
    b.Llvm.set_insert_point b.Php.Bindings.variable_goes_out_of_scope
inner_loop_erases = refl
