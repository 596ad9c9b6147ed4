-- ===== src/Literals.antt =====
-- src/grammar_rules.c: the texts of string and number literals.
pub mod Defs
mod Strings
mod Numbers
mod Tests
