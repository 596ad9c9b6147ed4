-- ===== src/Array.antt =====
-- src/array.c, growable arrays: the operations, and a module for each group of laws.
mod Defs
mod Room
mod Grow
mod Insert
mod Erase
mod Single
mod Hang
mod Tests
