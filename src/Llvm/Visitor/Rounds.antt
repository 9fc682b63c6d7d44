-- ===== src/Llvm/Visitor/Rounds.antt =====
-- The way that the control takes through the code of a conditional and of a loop.
use b.Ast.Expression.{Expression}
use b.Llvm.Bindings.{Bindings}
use b.Llvm.Returns.{Returns}
use b.Llvm.Steps.Lawful.{Lawful}
use b.Llvm.Visitor.Supported.{Supported}
