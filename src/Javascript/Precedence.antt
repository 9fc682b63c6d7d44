-- ===== src/Javascript/Precedence.antt =====
-- Operators are written without parentheses: two trees can have one code.
use b.Base.{ℕ, ◌≡◌, ◌∙◌, ap, bind_assoc, codes}
use b.Base.Double.{DoubleOps}
use b.Ast.Expression.{Expression, BinaryOperation, binary_operation, binary_code}
use b.Javascript.Emitter.{State, Step, ◌>>◌, write}
use b.Javascript.Expressions.{expression, operator_bytes}

then_assoc : (p q r : Step) → (p >> (q >> r)) ≡ ((p >> q) >> r)
then_assoc p q r = λ i s. bind_assoc (p s) q r i

then_assoc_four :
    (p a c e g h : Step) → (p >> (a >> c >> e >> g >> h)) ≡ (p >> a >> c >> e >> g >> h)
then_assoc_four p a c e g h =
    then_assoc p (a >> c >> e >> g) h
    ∙ ap (λ q. q >> h)
        (then_assoc p (a >> c >> e) g
          ∙ ap (λ q. q >> g) (then_assoc p (a >> c) e ∙ ap (λ q. q >> e) (then_assoc p a c)))

-- The code of `l op (m op' r)` is that of `(l op m) op' r`, for any two binary operators, in every
-- state of the visitor.
pub expression-binary_operation-reassociated :
    (d : DoubleOps) (f : ℕ) (l m r : Expression) (op op' : BinaryOperation) (s : State)
    → expression d f (binary_operation l (binary_operation m r op') op) s
      ≡ expression d f (binary_operation (binary_operation l m op) r op') s
unfolding expression
expression-binary_operation-reassociated d f l m r op op' s =
    ap (λ q. q s)
      (then_assoc_four
        (expression d f l
          >> write (codes " ")
          >> write (operator_bytes (binary_code op))
          >> write (codes " "))
        (expression d f m) (write (codes " ")) (write (operator_bytes (binary_code op')))
        (write (codes " ")) (expression d f r))
