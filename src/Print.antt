-- ===== src/Print.antt =====
-- lib/utils/print_visitor.cpp: the tree as text. Each visit leaves the indentation as it was, so
-- the model gives it as an argument; `f` is the fuel of the escape loop.
pub mod Inline
pub mod Lines
use b.Base.{
  ℕ, zero, suc, Bool, true, false, Str, List, [], ◌∷◌, ◌++◌, codes, Option, none, some, Outcome, ok,
  undefined, ◌>>=◌, if◌then◌else◌, ltb, ◌==◌, ◌/◌, ◌%◌, leb, not,
}
use b.Base.Double.{DoubleOps}
use b.Ast.Expression.{
  Expression, ExpressionList, nil, null_argument, argument, variable_reference, get_attribute,
  method_call, double_literal, integer_literal, boolean_literal, string_literal, binary_operation,
  unary_operation, comparison, binary_code, unary_code, comparison_code,
}
use b.Ast.Template
use b.Ast.Template.{
  Ast, AstList, Body, Mapping, statements, raw_block, print_block, if_block, for_block,
  include_block, cons, no_body, body,
}
use b.Passes.Convert.{print_long, print_boolean}
use b.Escape.{print_escape}

abbrev pub indentation : ℕ → Str
indentation zero = []
indentation (suc n) = b'\t' ∷ indentation n

-- a line of its own
abbrev pub print_line : ℕ → Str → Str
print_line n text = indentation n ++ (text ++ b'\n' ∷ [])

-- `op >> 8` and `op & 0xFF`, each where it is not 0
abbrev pub operator_text : ℕ → Str
operator_text code =
    (if code / 256 == 0 then [] else (code / 256) ∷ [])
    ++ (if code % 256 == 0 then [] else (code % 256) ∷ [])

-- The order of `std::string`.
unfoldable pub str_lt : Str → Str → Bool
str_lt s [] = false
str_lt [] (d ∷ t) = true
str_lt (c ∷ s) (d ∷ t) =
    let rest = str_lt s t in if ltb c d then true else (if c == d then rest else false)

-- `sortedMapping[k] = e`
unfoldable pub insert_sorted : Str → Expression → Mapping → Mapping
unfolding str_lt
insert_sorted k e [] = (k, e) ∷ []
insert_sorted k e ((j, g) ∷ m) =
    let later = (j, g) ∷ insert_sorted k e m in
    if str_lt k j then (k, e) ∷ (j, g) ∷ m else (if str_lt j k then later else (k, e) ∷ m)

unfoldable pub sorted_mapping : Mapping → Mapping → Mapping
unfolding insert_sorted
sorted_mapping [] sorted = sorted
sorted_mapping ((k, e) ∷ m) sorted = sorted_mapping m (insert_sorted k e sorted)

module _ (d : DoubleOps) (f : ℕ) where
  unfoldable mutual
    pub print_expression : Expression → Outcome Str
    print_expression (variable_reference x) = ok (codes "{VARIABLE name=\"" ++ (x ++ codes "\"}"))
    print_expression (get_attribute e a) = do
      t ← print_expression e
      ok (
          codes "{GET_ATTRIBUTE variable="
          ++ (t ++ (codes " attributeName=\"" ++ (a ++ codes "\"}"))))
    print_expression (method_call m xs) = do
      t ← print_arguments true xs
      ok (codes "{METHOD_CALL name=\"" ++ (m ++ (codes "\", args=[" ++ (t ++ codes "]}"))))
    print_expression (double_literal v) = ok (codes "{DOUBLE value=" ++ (d.print v ++ codes "}"))
    print_expression (integer_literal n) = ok (codes "{INT value=" ++ (print_long n ++ codes "}"))
    print_expression (boolean_literal v) =
        ok (codes "{BOOL value=" ++ (print_boolean v ++ codes "}"))
    print_expression (string_literal s) = do
      t ← print_escape f s
      ok (codes "{STRING value=\"" ++ (t ++ codes "\"}"))
    print_expression (binary_operation l r op) = do
      t ← print_expression l
      u ← print_expression r
      ok (
          codes "{BINOP left="
          ++ (t ++ (codes " right=" ++ (u ++ (codes " op='" ++ (binary_code op ∷ codes "'}"))))))
    print_expression (unary_operation e op) = do
      t ← print_expression e
      ok (codes "{UNOP expr=" ++ (t ++ (codes " op='" ++ (unary_code op ∷ codes "'}"))))
    print_expression (comparison l r op) = do
      t ← print_expression l
      u ← print_expression r
      ok (
          codes "{CMP left="
          ++ (t
              ++ (codes " right="
                  ++ (u
                      ++ (codes " op=\"" ++ (operator_text (comparison_code op) ++ codes "\"}"))))))

    pub print_arguments : Bool → ExpressionList → Outcome Str
    print_arguments first nil = ok []
    print_arguments first (null_argument xs) = undefined
    print_arguments first (argument x xs) = do
      t ← print_expression x
      u ← print_arguments false xs
      ok ((if first then [] else codes ", ") ++ (t ++ u))

  -- a part of a line that is there only if the node has it
  abbrev pub print_variable : Str → Option Str → Str
  print_variable label none = []
  print_variable label (some x) = label ++ (codes "{VARIABLE name=\"" ++ (x ++ codes "\"} "))

  abbrev pub print_scope : Option Expression → Outcome Str
  print_scope none = ok []
  print_scope (some e) = do t ← print_expression e; ok (codes " scope=" ++ t)

  unfoldable pub print_entries : Bool → Mapping → Outcome Str
  unfolding print_expression
  print_entries first [] = ok []
  print_entries first ((k, e) ∷ m) = do
    t ← print_expression e
    u ← print_entries false m
    ok ((if first then [] else codes ", ") ++ (codes "\"" ++ (k ++ (codes " => " ++ (t ++ u)))))

  abbrev pub print_mapping : Mapping → Outcome Str
  print_mapping [] = ok []
  print_mapping (entry ∷ m) = do
    t ← print_entries true (sorted_mapping (entry ∷ m) [])
    ok (codes " variableMapping={" ++ (t ++ codes "}"))

  unfoldable mutual
    pub print_ast : Ast → ℕ → Outcome Str
    print_ast (statements xs) n = do
      t ← print_list xs (suc n)
      ok (print_line n (codes "[STATEMENTS]") ++ (t ++ print_line n (codes "[END_STATEMENTS]")))
    print_ast (raw_block s) n = do
      t ← print_escape f s
      ok (print_line n (codes "[RAW] \"" ++ (t ++ codes "\"")))
    print_ast (print_block e) n = do
      t ← print_expression e
      ok (print_line n (codes "[PRINT_BLOCK " ++ (t ++ codes "]")))
    print_ast (if_block c t e) n = do
      head ← print_expression c
      then_text ← print_body t (suc n)
      else_text ← print_else (codes "[ELSE_BLOCK]") e n
      ok (
          print_line n (codes "[IF_BLOCK " ++ (head ++ codes "]"))
          ++ (then_text ++ (else_text ++ print_line n (codes "[ENDIF_BLOCK]"))))
    print_ast (for_block k v i t e) n = do
      iterable ← print_expression i
      body_text ← print_body t (suc n)
      else_text ← print_else (codes "[ELSEFOR_BLOCK]") e n
      ok (
          print_line n (
            codes "[FOR_BLOCK "
            ++ (print_variable (codes "keyVariable=") k
                ++ (print_variable (codes "valueVariable=") v
                    ++ (codes "iterable=" ++ (iterable ++ codes "]")))))
          ++ (body_text ++ (else_text ++ print_line n (codes "[ENDFOR_BLOCK]"))))
    print_ast (include_block name scope mapping) n = do
      scope_text ← print_scope scope
      mapping_text ← print_mapping mapping
      ok (
          print_line n (
            codes "[INCLUDE_BLOCK includeName=\""
            ++ (name ++ (codes "\"" ++ (scope_text ++ (mapping_text ++ codes "]"))))))

    pub print_list : AstList → ℕ → Outcome Str
    print_list Template.nil n = ok []
    print_list (cons s rest) n = do t ← print_ast s n; u ← print_list rest n; ok (t ++ u)

    pub print_body : Body → ℕ → Outcome Str
    print_body no_body n = ok []
    print_body (body a) n = print_ast a n

    -- an `else` body, one level further in, behind its own line
    pub print_else : Str → Body → ℕ → Outcome Str
    print_else label no_body n = ok []
    print_else label (body a) n = do t ← print_ast a (suc n); ok (print_line n label ++ t)

  -- `PrintVisitor::visit`
  unfoldable pub print_visit : Ast → Outcome Str
  unfolding print_ast
  print_visit a = do
    t ← print_ast a 1
    ok (print_line 0 (codes "[SOF]") ++ (t ++ print_line 0 (codes "[EOF]")))
