-- ===== src/Javascript.antt =====
-- lib/backends/javascript: the emitter and the visitor that write JavaScript.
pub mod Emitter
pub mod Shadow
pub mod Expressions
pub mod Visitor
pub mod Scope
pub mod Frame
pub mod Loop
pub mod Keeps
pub mod Returns
pub mod Total
pub mod Precedence
