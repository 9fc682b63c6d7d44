-- ===== src/Passes.antt =====
-- lib/ast/passes: the walk over the tree and the passes that run on it.
pub mod Walk
pub mod Tree
pub mod Manager
pub mod Fold
pub mod Convert
pub mod Coalesce
pub mod Includes
pub mod Pipeline
