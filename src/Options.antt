-- ===== src/Options.antt =====
-- src/options.c: the command line of the compiler.
mod Defs
mod Print
mod Ends
mod Tests
