-- ===== src/Generator.antt =====
-- src/parser_generator.c: the program that makes the tables of the parser from the grammar.
pub mod Words
pub mod Sets
pub mod Tokens
pub mod Rules
pub mod First
pub mod Routes
pub mod Firsts
pub mod Leads
pub mod Ids
pub mod Expand
pub mod Closed
pub mod Order
pub mod Consolidate
pub mod Members
pub mod Terminals
pub mod Gather
pub mod Universe
pub mod Adds
pub mod Gathered
pub mod Exact
pub mod States
pub mod Symbols
pub mod Handling
pub mod Acts
pub mod Handled
pub mod Acted
pub mod Named
pub mod Settled
pub mod Pigeonhole
pub mod Automaton
pub mod Preserved
pub mod Complete
pub mod Emit
pub mod Bits
pub mod Emitted
pub mod Written
pub mod Externs
mod Tests
mod StateTests
