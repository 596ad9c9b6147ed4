-- ===== src/Codegen/Flow.antt =====
-- src/codegen*.c: the blocks of a function, and their last calls.
pub mod Blocks
pub mod Waiting
pub mod Keeps
pub mod Parts
pub mod Prepare
pub mod Names
pub mod Operators
pub mod Places
pub mod Slices
pub mod Casts
pub mod Calls
pub mod Exprs
pub mod Scopes
pub mod Decls
pub mod Ends
pub mod Stmts
pub mod Funcs
