-- ===== src/Codegen/Exprs.antt =====
-- The functions codegen_..._expr of src/codegen*.c: the calls that expressions become.
pub mod Builders
pub mod Operators
pub mod Places
pub mod Slices
pub mod Calls
pub mod Casts
pub mod Builtins
pub mod Run
