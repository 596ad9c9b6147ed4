-- ===== src/Grammar.antt =====
-- src/grammar_rules.h, src/grammar.h and src/grammar.c: the grammar.
pub mod Symbols
pub mod Exprs
pub mod Stmts
pub mod Decls
pub mod Types
pub mod Units
pub mod Variants
