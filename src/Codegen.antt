-- ===== src/Codegen.antt =====
-- src/codegen.c and the other files src/codegen_*.c: the trees become calls of the LLVM library.
pub mod Llvm
pub mod State
pub mod Context
pub mod Types
pub mod Prepare
pub mod Exprs
pub mod Decls
pub mod Stmts
pub mod Units
pub mod Flow
pub mod Scoping
pub mod Naming
pub mod Resolving
mod Tests
