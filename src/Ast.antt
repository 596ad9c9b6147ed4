-- ===== src/Ast.antt =====
-- src/ast.h and src/ast.c: types of the language and the operations on them.
pub mod LowType
pub mod Equal
pub mod Copy
pub mod Views
pub mod Laws
pub mod Decides
pub mod Complete
pub mod CopyLaws
pub mod Tree
pub mod Describe
mod Tests
