-- ===== src/Lexer.antt =====
-- src/lexer.c, src/lexer.h and src/lexer_tokens.h.
pub mod Token
pub mod Defs
pub mod Tables
pub mod Next
pub mod Moves
pub mod Scans
pub mod Rounds
pub mod Total
pub mod PastEnd
pub mod Heads
pub mod Garbage
pub mod Words
pub mod Munch
pub mod Skips
mod Tests
