-- ===== src/Parser.antt =====
-- src/parser.c and src/parser_states.h: the parser, over the tables that the build generates.
pub mod Tables
pub mod Defs
pub mod Derives
pub mod Lookups
pub mod Stack
pub mod Steps
pub mod Reductions
pub mod Sound
mod TestTable
mod Tests
