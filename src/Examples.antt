-- ===== src/Examples.antt =====
-- Concrete data for the tests and examples: doubles that hold integers, a host that prints them,
-- and small templates.
pub mod Optimise
pub mod Folding
pub mod Including
pub mod Writing
pub mod Texts
pub mod Commands
pub mod Engine
pub mod Runtime
pub mod Compiling
pub mod Serving
use b.Base.{
  ℕ, zero, suc, ◌+◌, ◌*◌, ◌/◌, ◌%◌, ◌≡◌, refl, Bool, true, false, Option, none, some, List, [], ◌∷◌,
  Str, codes, Outcome, ok, throw, unreadable, arith, ◌==◌, if◌then◌else◌, length,
}
use b.Base.Int.{ℤ, pos, negsuc, ◌+ℤ◌, ◌-ℤ◌, ◌*ℤ◌, quot_ℤ, eqb_ℤ, ltb_ℤ, leb_ℤ}
use b.Base.Double.{DoubleOps}
use b.Ast.Expression.{
  Expression, ExpressionList, ComparisonOperation, nil, null_argument, argument, variable_reference,
  get_attribute, method_call, double_literal, integer_literal, boolean_literal, string_literal,
  binary_operation, unary_operation, comparison, addition, multiplication, less_than, equal,
  not_equal, greater_than, greater_or_equal, less_or_equal, or, and,
}
use b.Ast.Template
use b.Ast.Template.{
  Ast, statements, raw_block, print_block, if_block, for_block, cons, no_body, body,
}
use b.Meaning.{Value, Host, Exact, IsExact, AreExact, double, integer, boolean, text, variant}
use b.Rendering.{Renderer}
use b.Passes.Convert.{print_long, print_boolean}

abbrev encode : ℤ → ℕ
encode (pos n) = 2 * n
encode (negsuc n) = 2 * n + 1

abbrev decode : ℕ → ℤ
decode v = if v % 2 == 0 then pos (v / 2) else negsuc (v / 2)

decode-encode : (n : ℤ) → decode (encode n) ≡ n
decode-encode (pos n) = ground arith
decode-encode (negsuc n) = ground arith

abbrev pub toy : DoubleOps
toy = record {
  add = λ a c. encode (decode a +ℤ decode c);
  sub = λ a c. encode (decode a -ℤ decode c);
  mul = λ a c. encode (decode a *ℤ decode c);
  div = λ a c. encode (quot_ℤ (decode a) (decode c));
  eq = λ a c. eqb_ℤ (decode a) (decode c);
  lt = λ a c. ltb_ℤ (decode a) (decode c);
  le = λ a c. leb_ℤ (decode a) (decode c);
  of_long = encode;
  print = λ v. print_long (decode v);
  to_string = λ v. print_long (decode v);
}

-- Every variable is a variant, and no operation on a variant succeeds.
abbrev pub host : Host
host = record {
  variable = λ x. some (variant (length x));
  attribute = λ v a. none;
  call = λ m vs. none;
  binary = λ op v w. none;
  unary = λ op v. none;
  compare = λ op v w. none;
}

pub toy-Exact : (a c : ℤ) → Exact toy host a c
toy-Exact a c equal = rw (decode-encode a, decode-encode c) refl
toy-Exact a c not_equal = rw (decode-encode a, decode-encode c) refl
toy-Exact a c greater_than = rw (decode-encode a, decode-encode c) refl
toy-Exact a c greater_or_equal = rw (decode-encode a, decode-encode c) refl
toy-Exact a c less_than = rw (decode-encode a, decode-encode c) refl
toy-Exact a c less_or_equal = rw (decode-encode a, decode-encode c) refl
toy-Exact a c or = refl
toy-Exact a c and = refl

mutual
  pub toy-IsExact : (e : Expression) → IsExact toy host e
  toy-IsExact (get_attribute e a) = toy-IsExact e
  toy-IsExact (method_call m xs) = toy-AreExact xs
  toy-IsExact (binary_operation l r op) = (toy-IsExact l, toy-IsExact r)
  toy-IsExact (unary_operation e op) = toy-IsExact e
  toy-IsExact (comparison l r op) = (toy-IsExact l, toy-IsExact r, λ a c _ _. toy-Exact a c)
  toy-IsExact (variable_reference x) = tt
  toy-IsExact (double_literal v) = tt
  toy-IsExact (integer_literal n) = tt
  toy-IsExact (boolean_literal v) = tt
  toy-IsExact (string_literal s) = tt

  toy-AreExact : (xs : ExpressionList) → AreExact toy host xs
  toy-AreExact nil = tt
  toy-AreExact (null_argument xs) = toy-AreExact xs
  toy-AreExact (argument x xs) = (toy-IsExact x, toy-AreExact xs)

abbrev show_value : Option Value → Str
show_value none = []
show_value (some (double v)) = print_long (decode v)
show_value (some (integer n)) = print_long n
show_value (some (boolean v)) = print_boolean v
show_value (some (text s)) = s
show_value (some (variant n)) = codes "?"

abbrev is_true : Option Value → Bool
is_true (some (boolean true)) = true
is_true _ = false

-- one round for every loop, and nothing for an include
abbrev pub renderer : Renderer Unit
renderer = record {
  host = λ env. host;
  show = λ env v. show_value v;
  test = λ env v. is_true v;
  rounds = λ env k v i. tt ∷ [];
  included = λ env name scope mapping. [];
}

-- a host that prints Booleans as the runtime of PHP does
abbrev php_show : Option Value → Str
php_show (some (boolean v)) = if v then codes "1" else []
php_show v = show_value v

abbrev pub php_renderer : Renderer Unit
php_renderer = record renderer { show = λ env v. php_show v }

-- no file can be read
abbrev pub no_files : Str → Outcome Ast
no_files file = throw (unreadable file)

-- `x is {{ 1 + 2 }}!{% if 1 < 2 %}{{ y }}{% endif %}`
abbrev pub sum_template : Ast
sum_template = statements (
    cons (raw_block (codes "x is ")) (
      cons
        (print_block
          (binary_operation (integer_literal (pos 1)) (integer_literal (pos 2)) addition))
        (cons (raw_block (codes "!")) (
          cons
            (if_block (comparison (integer_literal (pos 1)) (integer_literal (pos 2)) less_than)
              (body (print_block (variable_reference (codes "y")))) no_body)
            Template.nil))))

-- what the optimiser makes of it
abbrev pub sum_optimised : Ast
sum_optimised = statements (
    cons (raw_block (codes "x is 3!")) (
      cons
        (if_block (boolean_literal true) (body (print_block (variable_reference (codes "y"))))
          no_body)
        Template.nil))
