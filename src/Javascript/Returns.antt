-- ===== src/Javascript/Returns.antt =====
-- Pieces of the JavaScript visitor that return on every state.
use b.Base.{
  ℕ, ◌*◌, ◌<◌, ◌≡◌, ◌≢◌, refl, ap, Bool, true, false, Option, none, some, Str, length, find, ok,
  ◌>>=◌,
}
use b.Base.Double.{DoubleOps}
use b.Ast.Expression.{
  Expression, ExpressionList, nil, null_argument, argument, variable_reference, get_attribute,
  method_call, double_literal, integer_literal, boolean_literal, string_literal, binary_operation,
  unary_operation, comparison,
}
use b.Escape.Loop.{AllBytes}
use b.Escape.Text.{IsByte, javascript_escape-text}
use b.Javascript.Emitter.{
  State, Step, ◌>>◌, write, indent, outdent, start_line, end_line, line, blankline,
}
use b.Javascript.Visitor.{when, count_for}
use b.Javascript.Expressions.{write_escaped, reference, expression, arguments}
use b.Javascript.Shadow.{set_shadow, restore_shadow}

abbrev pub Returns : Step → Type 0
Returns p = (s : State) → (s' : State) × (p s ≡ ok s')

infixl 10 ◌>>>◌
pub ◌>>>◌ : {p q : Step} → Returns p → Returns q → Returns (p >> q)
hp >>> hq = λ s. let (t, h) = hp s in let (u, k) = hq t in (u, rw h k)

pub ok-Returns : Returns ok
ok-Returns s = (s, refl)

pub write-Returns : (t : Str) → Returns (write t)
unfolding write
write-Returns t s = (_, refl)

pub indent-Returns : Returns indent
unfolding indent
indent-Returns s = (_, refl)

pub outdent-Returns : Returns outdent
unfolding outdent
outdent-Returns s = (_, refl)

pub start_line-Returns : Returns start_line
unfolding start_line
start_line-Returns s = (_, refl)

pub end_line-Returns : Returns end_line
unfolding end_line
end_line-Returns s = (_, refl)

pub blankline-Returns : Returns blankline
unfolding blankline
blankline-Returns s = (_, refl)

pub line-Returns : (t : Str) → Returns (line t)
unfolding line
line-Returns t = start_line-Returns >>> write-Returns t >>> end_line-Returns

pub count_for-Returns : Returns count_for
unfolding count_for
count_for-Returns s = (_, refl)

pub set_shadow-Returns : (x : Option Str) (t : Str) → Returns (set_shadow x t)
unfolding set_shadow
set_shadow-Returns none t s = (_, refl)
set_shadow-Returns (some x) t s = (_, refl)

pub restore_shadow-Returns : (x : Option Str) (t : Str) → Returns (restore_shadow x t)
unfolding restore_shadow
restore_shadow-Returns none t s = (_, refl)
restore_shadow-Returns (some x) t s = (_, refl)

pub when-Returns : (test : Bool) (p : Step) → Returns p → Returns (when test p)
when-Returns true p h = h
when-Returns false p h = ok-Returns

module _ (d : DoubleOps) (f : ℕ) where
  -- A text of bytes without an apostrophe that the fuel is enough to escape.
  abbrev pub Escapable : Str → Type 0
  Escapable s = AllBytes (λ c. IsByte c × (c ≢ 39)) s × (5 * length s < f)

  -- An expression with such names and texts, and no null argument.
  abbrev mutual
    pub IsWritable : Expression → Type 0
    IsWritable (variable_reference x) = Escapable x
    IsWritable (get_attribute e a) = IsWritable e × Escapable a
    IsWritable (method_call m xs) = AreWritable xs
    IsWritable (string_literal t) = Escapable t
    IsWritable (binary_operation l r op) = IsWritable l × IsWritable r
    IsWritable (unary_operation e op) = IsWritable e
    IsWritable (comparison l r op) = IsWritable l × IsWritable r
    IsWritable _ = Unit

    AreWritable : ExpressionList → Type 0
    AreWritable nil = Unit
    AreWritable (null_argument xs) = ⊥
    AreWritable (argument x xs) = IsWritable x × AreWritable xs

  pub write_escaped-Returns : (t : Str) → Escapable t → Returns (write_escaped d f t)
  unfolding write_escaped write
  write_escaped-Returns t h s =
      (_, ap (λ r. r >>= λ u. write u s) (javascript_escape-text f t h.0 h.1))

  reference-Returns : (o : Option Str) (x : Str) → Escapable x → Returns (reference d f o x)
  reference-Returns (some shadow) x h = write-Returns shadow
  reference-Returns none x h = write-Returns _ >>> write_escaped-Returns x h >>> write-Returns _

  mutual
    unfolding expression

    pub expression-Returns : (e : Expression) → IsWritable e → Returns (expression d f e)
    expression-Returns (variable_reference x) h =
        λ s. reference-Returns (find x s.shadow_values) x h s
    expression-Returns (get_attribute e a) h =
        expression-Returns e h.0
        >>> write-Returns _
        >>> write_escaped-Returns a h.1
        >>> write-Returns _
    expression-Returns (method_call m xs) h =
        write-Returns _
        >>> write-Returns m
        >>> write-Returns _
        >>> arguments-Returns true xs h
        >>> write-Returns _
    expression-Returns (double_literal v) h = write-Returns _
    expression-Returns (integer_literal n) h = write-Returns _
    expression-Returns (boolean_literal v) h = write-Returns _
    expression-Returns (string_literal t) h =
        write-Returns _ >>> write_escaped-Returns t h >>> write-Returns _
    expression-Returns (binary_operation l r op) h =
        expression-Returns l h.0
        >>> write-Returns _
        >>> write-Returns _
        >>> write-Returns _
        >>> expression-Returns r h.1
    expression-Returns (unary_operation e op) h = write-Returns _ >>> expression-Returns e h
    expression-Returns (comparison l r op) h =
        expression-Returns l h.0
        >>> write-Returns _
        >>> write-Returns _
        >>> write-Returns _
        >>> expression-Returns r h.1

    arguments-Returns :
        (first : Bool) (xs : ExpressionList) → AreWritable xs → Returns (arguments d f first xs)
    arguments-Returns first nil h = ok-Returns
    arguments-Returns first (null_argument xs) h = absurd h
    arguments-Returns true (argument x xs) h =
        ok-Returns >>> expression-Returns x h.0 >>> arguments-Returns false xs h.1
    arguments-Returns false (argument x xs) h =
        write-Returns _ >>> expression-Returns x h.0 >>> arguments-Returns false xs h.1
