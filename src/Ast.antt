-- ===== src/Ast.antt =====
-- lib/ast: the syntax tree.
pub mod Expression
pub mod Template
pub mod Clone
pub mod Height
pub mod Shape
