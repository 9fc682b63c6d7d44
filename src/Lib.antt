-- ===== src/Lib.antt =====
-- The template engine b2: its syntax tree, its optimiser, the writers of JavaScript and of tree
-- dumps, the LLVM backend, and the PHP extension that runs what it compiles.
--
-- The program parses a template into a tree of statements and expressions, runs passes over the
-- tree, and hands it to a backend. The parts modelled here and their files:
--   * Ast: the syntax tree. Ast.Expression is lib/ast/expressions.hpp: the node types, `valueType`
--     and `clone`. Ast.Template is lib/ast/ast.hpp. Ast.Height and Ast.Shape measure trees.
--   * Passes: the optimiser. Passes.Walk and Passes.Tree are the two walks of
--     lib/ast/passes/pass.hpp with the dispatch of lib/ast/visitors.hpp; Passes.Manager is
--     lib/ast/passes/pass_manager.cpp (`ExpressionPassWrapper`, `PassManager::run`); Passes.Coalesce,
--     Passes.Convert, Passes.Fold and Passes.Includes are the passes coalesce_rawblocks_pass.cpp,
--     convert_literal_printblock_to_rawblock_pass.cpp, fold_constant_expressions_pass.cpp and
--     resolve_includes_pass.cpp of that directory. Passes.Pipeline is `optimizeAST` of
--     src/js_precompiler/compiler.cpp, src/ast_print/print.cpp and src/php/php_b2.cpp.
--   * Escape: the escape loops of lib/backends/javascript/javascript_visitor.cpp and of
--     lib/utils/print_visitor.hpp.
--   * Javascript: Javascript.Emitter is lib/backends/javascript/code_emitter.hpp; Javascript.Shadow,
--     Javascript.Expressions and Javascript.Visitor are javascript_visitor.cpp beside it: its map of
--     loop variables, the code of expressions and that of statements. A piece of the visitor is a
--     function on its state: the output, the indentation, the loop counter, the undefined check and
--     the map.
--   * Print: lib/utils/print_visitor.cpp.
--   * Precompiler: the main function of src/js_precompiler/compiler.cpp, which joins the parser, the
--     optimiser and the JavaScript visitor.
--   * Llvm: the LLVM backend. Llvm.Bindings is the interface lib/backends/llvm/llvm_bindings.h;
--     Llvm.Expressions and Llvm.Visitor are llvm_visitor.cpp beside it, Llvm.Backend is
--     llvm_backend.cpp. Llvm.Steps has the relations on the states of the visitor that its proofs
--     use, with the laws of the bindings, and Llvm.Flow the ways from block to block.
--   * Php: the PHP extension, src/php. Php.Bindings is php_bindings.cpp and php_bindings.hpp, with
--     Php.Bindings.Counts; Php.Buffer, Php.Printing, Php.Operations, Php.Tables and Php.Loop are
--     php_bindings_functions.c, which compiled templates call, with `render_template`, `display` and
--     `addFunction` of php_b2.cpp; Php.Engine is its `parseTemplate`, which joins parser, passes and
--     backend.
--   * Simple: the C runtime src/simple/simple_bindings_functions.c of the simple bindings.
--   * TreePrinter: the main function of src/ast_print/print.cpp.
-- The LLVM visitor takes the bindings as a record of operations, and those for PHP fill it; the code
-- that they emit calls the runtime functions, by name.
-- Meaning and Rendering are no code of the program: they say what an expression is worth and what
-- text a template writes, as the reference that the passes are compared with. Base has the shared
-- types and lemmas, Examples the runs on concrete data.
--
-- How the code is modelled:
--   * A call returns, throws, does what C++ leaves undefined, or runs out of fuel (Base.Call).
--     Undefined are: a null pointer followed, a static_cast to a class that the object is not of, a
--     signed overflow, a step before the first element of a list, and a tree deleted twice.
--   * Trees are values, with the nodes that are reset in place returned anew; a pointer that may be
--     null is an option or a case of its own type.
--   * Texts are lists of bytes; a C string is its bytes before the NUL. A `long` is an integer from
--     -2^63 to 2^63 - 1. A `double` is the number of its 64 bits, and its arithmetic and its texts are
--     the parameter DoubleOps. The counters of loops and of the indentation are `int`s that are taken
--     not to overflow. The operands of a chain of `<<` are evaluated from left to right.
--   * An unordered map is an association list, iterated in its order; the print visitor sorts it, as
--     the code does.
--   * The parser and the files it reads are the parameter `parse` of the include pass and of the
--     precompiler, `dirname` is one too, and options are taken as `getopt_long` yields them. A file that
--     cannot be opened is an exception of its own. An exception that a main function does not catch
--     is a call that throws: the program does not return.
--   * LLVM's builder is recorded: the blocks of the function with their instructions, the insertion
--     point and the values that instructions give. A call of the visitor keeps its state when it
--     throws. An instruction on operands that LLVM does not take, and a null pointer used as a value,
--     are broken. Constants are not folded by the builder. LLVM's verifier, its passes and the
--     addresses of functions are parameters.
--   * The Zend engine is the parameter `Zend` of Php: its values, its hash tables with their
--     positions, and its functions; what it documents of them is a hypothesis where it is needed.
--     `erealloc` and `emalloc` are parameters too.
--   * Fuel: `process` of a pass has as many nested calls as the tree is high, so the height is
--     enough (Passes.Fold.Total, Passes.Pipeline.Total); with includes no bound exists
--     (Passes.Includes.Endless). The escape loops make at most five rounds for each byte and one more
--     (Escape.Text), if they end. Decimal numbers take a round for each digit. A loop over a
--     PHP table makes a round for each element (Php.Loop.Visits).
--
-- Not modelled: the tokenizer and the grammar, which Bison and Flex compile; LLVM and its
-- execution engine, and what sets them up; the class tables and the making of objects in the PHP
-- extension, which are glue to the Zend engine; src/simple/simple_bindings.cpp, whose methods are
-- not those of the interface any more; usage and error messages.
pub mod Base
pub mod Ast
pub mod Meaning
pub mod Rendering
pub mod Passes
pub mod Escape
pub mod Javascript
pub mod Print
pub mod Precompiler
pub mod TreePrinter
pub mod Llvm
pub mod Php
pub mod Simple
pub mod Examples
