-- ===== src/Php/Printing.antt =====
-- The print functions of src/php/php_bindings_functions.c, which of them src/php/php_bindings.cpp
-- calls for a value, and `render_template` and `display` of src/php/php_b2.cpp.
pub mod Refine
use b.Base.{ℕ, Bool, [], List, ◌∷◌, ◌++◌, Str, codes, Outcome, ok, ◌>>=◌, if◌then◌else◌}
use b.Base.Int.{ℤ}
use b.Base.Memory.{take}
use b.Php.{Zend, ZendType, is_string, is_object, is_array, is_other}
use b.Php.Buffer.{TemplateBuffer, add_to_buffer}

-- What the code of a template prints, by the type of the LLVM value.
pub data Output (Z : Type 0) : Type 0 where
  double : ℕ → Output Z
  boolean : Bool → Output Z
  integer : ℤ → Output Z
  text : Str → Output Z
  variant : Z → Output Z

-- A print function: it takes the buffer and leaves a new one.
abbrev pub Printer : Type 0
Printer = TemplateBuffer → Outcome TemplateBuffer

module _ {Z H P : Type 0} (z : Zend Z H P) (erealloc : Str → ℕ → Str) where
  -- `add_to_buffer(buffer, &zv)`
  abbrev add_value : Z → Printer
  add_value v = add_to_buffer erealloc (z.string_value v)

  abbrev pub print_double : ℕ → Printer
  print_double v = add_value (z.convert_to_string (z.of_double v))

  abbrev pub print_integer : ℤ → Printer
  print_integer v = add_value (z.convert_to_string (z.of_long v))

  abbrev pub print_boolean : Bool → Printer
  print_boolean v = add_value (z.of_string (if v then codes "1" else []))

  abbrev pub print_string : Str → Printer
  print_string v = add_value (z.of_string v)

  abbrev print_typed : ZendType → Z → Printer
  print_typed is_string v = add_value v
  print_typed is_object v = add_value (z.convert_to_string v)
  print_typed is_array v = add_value (z.convert_to_string v)
  print_typed is_other v = add_value (z.convert_to_string v)

  abbrev pub print_variant : Z → Printer
  print_variant v = print_typed (z.type_of v) v

  -- `createPrintCall`: the function that `getPrintMethodForType` finds, on the value
  unfoldable pub print_output : Output Z → Printer
  print_output (double v) = print_double v
  print_output (boolean v) = print_boolean v
  print_output (integer v) = print_integer v
  print_output (text v) = print_string v
  print_output (variant v) = print_variant v

  -- the calls of a run of the template, in order
  unfoldable pub print_outputs : List (Output Z) → Printer
  unfolding print_output
  print_outputs [] buffer = ok buffer
  print_outputs (o ∷ os) buffer = do print_outputs os (← print_output o buffer)

-- `templ->estimatedBufferSize` of a template
abbrev pub estimated_buffer_size : ℕ
estimated_buffer_size = 200

module _ (emalloc : ℕ → Str) where
  abbrev pub new_buffer : TemplateBuffer
  new_buffer = record {
    ptr = emalloc estimated_buffer_size;
    str_length = 0;
    allocated_length = estimated_buffer_size;
  }

  -- The value that `ZVAL_STRINGL` makes of the buffer; `render_func` is the compiled template.
  unfoldable pub render_template : Printer → Outcome Str
  render_template render_func = do
    buffer ← render_func new_buffer
    ok (take buffer.str_length buffer.ptr)

  -- `Template::display` puts the rendered text on the standard output.
  unfoldable pub display : Printer → Str → Outcome Str
  unfolding render_template
  display render_func standard_output = do ok (standard_output ++ (← render_template render_func))
