-- ===== src/Examples/Runtime.antt =====
-- The runtimes of PHP and of the simple bindings on the small engine.
use b.Base.{
  ℕ, zero, suc, ◌≡◌, ◌≢◌, ◌↔◌, refl, ap, ◌∙◌, true, false, none, some, List, [], ◌∷◌, ◌++◌, Str,
  codes, str_eq, find, Outcome, ok, undefined, leb, arith,
}
use b.Base.Int.{pos, quot_ℤ}
use b.Ast.Expression.{binary_code, comparison_code, equal, less_than, division}
use b.Base.Memory.{write_at}
use b.Passes.Convert
use b.Passes.Convert.{digits_of, print_long}
use b.Passes.Fold.{fold_long, fold_comparison, fold_order}
use b.Php.Buffer.{TemplateBuffer, add_to_buffer}
use b.Php.Buffer.Refine.{contents}
use b.Php.Printing.{
  Output, integer, boolean, text, variant, print_boolean, print_string, print_outputs, new_buffer,
  render_template,
}
use b.Php.Printing.Refine.{texts_of, render_template-texts_of, print_boolean-ne-converted}
use b.Php.Operations.{success, compare_variant, binary_variant_operation}
use b.Php.Operations.Agrees.{
  longs, compare_variant-fold, binary_variant_operation-fold, runtime_value,
}
use b.Php.Tables.{returned, no_such_function, do_method_call, add_function}
use b.Php.Tables.Registered.{do_method_call-add_function}
use b.Php.Loop.{run_loop}
use b.Php.Loop.Visits.{get_elem?, IsTable, each_or_else, run_loop-each_or_else}
use b.Simple
use b.Simple.Agrees.{compare_variant-undefined_iff}
use b.Examples.{toy, host, toy-Exact}
use b.Examples.Engine.{
  Zval, null, long, string, array, Table, zend, zend-Documented, zend-Adds, rest, resize,
  length-resize, resize-Reallocates,
}

abbrev outputs : List (Output Zval)
outputs = text (codes "a") ∷ integer (pos 12) ∷ boolean true ∷ variant (string (codes "z")) ∷ []

rendered : render_template (resize []) (print_outputs zend resize outputs) ≡ ok (codes "a121z")
unfolding render_template print_outputs add_to_buffer write_at resize print_long
rendered = refl

render_template-texts_of_example :
    render_template (resize []) (print_outputs zend resize outputs) ≡ ok (texts_of zend outputs)
unfolding print_long digits_of
render_template-texts_of_example =
    render_template-texts_of zend resize (λ s. refl) (resize []) outputs resize-Reallocates
      (length-resize []) (omega arith)

boolean_texts_differ :
    (b₁ : TemplateBuffer) × (b₂ : TemplateBuffer) × (print_boolean zend resize true
        (new_buffer (resize []))
      ≡ ok b₁)
    × (print_string zend resize (Convert.print_boolean true) (new_buffer (resize [])) ≡ ok b₂)
    × (contents b₁ ≢ contents b₂)
boolean_texts_differ =
    print_boolean-ne-converted zend resize (λ s. refl) true (new_buffer (resize []))
      resize-Reallocates (record { allocation = length-resize [] 200; inside = omega arith })
      (omega arith)

compare_variant-fold_example :
    compare_variant zend (comparison_code less_than) (long (pos 2)) (long (pos 3)) ≡ success true
unfolding fold_comparison fold_order
compare_variant-fold_example =
    compare_variant-fold zend toy zend-Documented host (longs (pos 2) (pos 3)) less_than true
      (toy-Exact (pos 2) (pos 3)) refl

binary_variant_operation-fold_example :
    binary_variant_operation zend (binary_code division) (long (pos 7)) (long (pos 2))
    ≡ success (runtime_value zend toy division (pos 7) (pos 2) (pos 3))
unfolding fold_long quot_ℤ
binary_variant_operation-fold_example =
    binary_variant_operation-fold zend toy zend-Documented (pos 7) (pos 2) (pos 3) division refl

abbrev functions : Table
functions = (codes "f", string (codes "F")) ∷ []

abbrev with_g : Table
with_g = (codes "g", string (codes "G")) ∷ functions

do_method_call-add_function_example :
    (do_method_call zend with_g (codes "g") 1 (null ∷ []) ≡ returned (long (pos 1)))
    × (do_method_call zend functions (codes "g") 1 (null ∷ []) ≡ no_such_function (codes "g"))
unfolding add_function find str_eq
do_method_call-add_function_example =
    do_method_call-add_function zend functions with_g (codes "g") (string (codes "G")) zend-Adds
      refl (codes "g") (null ∷ [])

abbrev texts : Zval
texts = array ((codes "p", codes "x") ∷ (codes "q", codes "y") ∷ [])

abbrev entries : List (Zval × Zval)
entries = (string (codes "p"), string (codes "x")) ∷ (string (codes "q"), string (codes "y")) ∷ []

abbrev positions : ℕ → Table
positions zero = zend.array_value texts
positions (suc i) = rest (positions i)

no_rest : (i : ℕ) → positions (suc (suc i)) ≡ []
no_rest zero = refl
no_rest (suc i) = ap rest (no_rest i)

texts-IsTable : IsTable zend (zend.array_value texts) entries positions
texts-IsTable = record {
  count = refl;
  start = refl;
  key = key_at;
  value = value_at;
  forward = λ i h. refl;
  ended = ended_at;
}
  where
    key_at :
        (i : ℕ) (k v : Zval)
        → get_elem? entries i ≡ some (k, v)
        → zend.current_key (zend.array_value texts) (positions i) ≡ k
    key_at zero k v h = cc
    key_at (suc zero) k v h = cc
    key_at (suc (suc i)) k v h = cc

    value_at :
        (i : ℕ) (k v : Zval)
        → get_elem? entries i ≡ some (k, v)
        → zend.current_data (zend.array_value texts) (positions i) ≡ some v
    value_at zero k v h = cc
    value_at (suc zero) k v h = cc
    value_at (suc (suc i)) k v h = cc

    ended_at : (i : ℕ) → zend.is_end (positions i) ≡ leb 2 i
    ended_at zero = refl
    ended_at (suc zero) = refl
    ended_at (suc (suc i)) = ap zend.is_end (no_rest i) ∙ ground arith

-- a loop that collects the keys and the texts
abbrev collect : Zval → Zval → Str → Outcome Str
collect k v s = ok (s ++ zend.string_value k ++ zend.string_value v)

abbrev no_texts : Str → Outcome Str
no_texts s = ok (codes "none")

run_loop-each_or_else_example :
    run_loop zend 2 texts collect no_texts [] ≡ each_or_else zend collect no_texts entries []
run_loop-each_or_else_example =
    run_loop-each_or_else zend collect no_texts texts entries positions 2 [] texts-IsTable
      (omega arith)

collected : each_or_else zend collect no_texts entries [] ≡ ok (codes "pxqy")
collected = refl

compare_variant-undefined_iff_example :
    (Simple.compare_variant toy
        (comparison_code less_than)
        (Simple.integer (pos 1))
        (Simple.integer (pos 2))
      ≡ undefined)
    ↔ (less_than ≢ equal)
compare_variant-undefined_iff_example =
    compare_variant-undefined_iff toy less_than (Simple.integer (pos 1)) (Simple.integer (pos 2))
      refl refl

-- What the simple runtime prints of a Boolean is no text of the converted literal either.
printed :
    (Simple.print_variant (λ v. []) (Simple.bool true) ≡ codes "1")
    × (Simple.print_variant (λ v. []) (Simple.array 0) ≡ [])
unfolding Simple.print_variant
printed = (refl, refl)

looked_up :
    Simple.lookup_variable
      ((some (codes "a"), Simple.integer (pos 1)) ∷ (none, Simple.no_variant) ∷ [])
      (codes "b")
    ≡ ok (Simple.bool false)
unfolding Simple.lookup_variable str_eq
looked_up = refl
