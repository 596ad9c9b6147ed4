-- ===== src/Reduce.antt =====
-- src/grammar_rules.c: the reducers, and that each gets what it expects.
pub mod Values
pub mod Operands
pub mod Exprs
pub mod Stmts
pub mod Units
pub mod Types
pub mod Operators
pub mod Run
pub mod Kinds
pub mod Safe
pub mod SafeExprs
pub mod SafeStmts
pub mod SafeDecls
pub mod SafeUnits
pub mod Sound
pub mod Quirks
pub mod TypeNames
mod Tests
