-- ===== src/Codegen/Prepare.antt =====
-- The functions prepare_... of src/codegen*.c: the types of expressions.
pub mod Views
pub mod Forms
pub mod Calls
pub mod Run
