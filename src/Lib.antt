-- ===== src/Lib.antt =====
-- The compiler of the Low language (src/*.c): its lexer, its grammar and parser, its types, its
-- arrays, its command line and its code generator.
--
-- How the parts interact. `main` of src/main.c reads the command line with `parse_options`, maps
-- each source file and drives `parse` over the tokens that `lexer_next` returns one by one. The
-- reducers of the grammar build a syntax tree in the arrays of src/array.c. `codegen` turns the units of that tree into
-- calls of the LLVM library: it declares the types and functions in a context, prepares each expression,
-- which sets the types of its parts, generates it, and compares and copies types with `type_equal` and
-- `type_copy`.
--
-- The files, and the code each group is about:
--   Prelude: Boolean tests and lists over the native numbers, C strings, the modulus of `unsigned`.
--   Lexer (src/lexer.c, src/lexer.h, src/lexer_tokens.h): Token has the tokens with their numbers
--     and names, Defs the record `Lexer` and the scanners, Tables the tables of symbols and keywords,
--   Next the function `lexer_next`, one definition for each part of its loop. A state holds the
--   bytes from `ptr` to `end`, and `ptr` as an offset into the file. The other files
--   prove what a round of the loop does, and from that what a call does.
--   Ast (src/ast.h, src/ast.c): LowType has the types, one constructor for each kind, with the level
--   of pointers first, and Tree the expressions, statements, declarations and units; Equal has `type_equal`, Copy has
--   `type_copy`, and Describe whether `type_describe` aborts. Interface members whose kind was
--   never written have constructors of their own, and reading such a kind is `none`.
--   Array (src/array.c): Defs has every operation. The region is the list of the items it has room
--   for, and sizes are `unsigned`, with their wrap-around.
--   Options (src/options.c): Defs has the three functions; `exit(1)` is a result.
--   Literals (src/grammar_rules.c): Defs has what the reducers `primary_expr_string` and
--   `primary_expr_number` make of the text of a token.
--   Grammar (src/grammar_rules.h, src/grammar.h, src/grammar.c): every rule as the list of its
--   variants, each with its elements, its reducer and its tag.
--   Reduce (src/grammar_rules.c): every reducer. The untyped pointer of a token carries the type of
--   what it points to, so that a use as a pointer to something else is the outcome `confused`. Kinds
--   says what each rule leaves, and the files Safe... check every variant against it.
--   Parser (src/parser.c, src/parser_states.h): Tables and Defs have `parse`, which runs the lexer and
--   the reducers. The table of states, which the build writes, is a parameter; Derives says when one
--   is consistent with the grammar, and what a derivation is.
--   Generator (src/parser_generator.c): the program that makes those tables. Words and Sets have the
--   sets of tokens, First `gather_first`, Expand the loop of `gather_leads`, Gather its recursion and,
--   as Called, what it is to gather; Leads `consolidate_leads` and `assign_rule_id`; Order, the
--   comparison of leads. States has `gather_states` from the inside out: `scan_leads` for the loop with k,
--   `handle_leads` for that with n, `gather_each` for that with i. Emit has the rest of main, with the
--   tables as the values that Parser takes. A pointer to a rule is its constructor, and a pointer to a
--   variant its place among those of the rule. Of the proofs, Members to Exact are about `gather_leads`,
--   Symbols to Settled about one call of `gather_states`, Pigeonhole to Complete about its recursion, and
--   Bits to Externs about main. Handling compares the loop over the leads, with the array `handled`, to
--   one that goes over the symbols; Automaton says what the arrays of leads of the grammar are.
--
--   Codegen (src/codegen*.c): Llvm has the calls of the LLVM library as data, and the types and values
--     they name; State the contexts with their symbols, the blocks of the function with the calls in
--     each, and the outcomes of a run: a result, an error with a message, a failed assertion or a call of
--     `abort`, or a use
--     of a pointer that is null or was not set. Context has the lookups (src/codegen.c), Types
--     `codegen_type` (src/codegen_type.c), Prepare every `prepare_..._expr` and Exprs every
--     `codegen_..._expr`, Decls, Stmts and Units the rest of src/codegen.c. A pointer to a constant is its
--     place in a list, since each use of the constant prepares it again. Flow is about the blocks:
--     Blocks and Waiting are about single calls, Keeps about sequences, the files from Parts to Exprs
--     about types and expressions, Scopes, Ends, Stmts and Funcs about statements and functions. Scoping,
--     Naming and Resolving are about names.
--
-- Bounds and fuel. `unsigned` has 32 bits. `lexer_next` is given one round of its loop for each
-- byte that is left and one more, and is proved never to need another. The loop of
-- `parse_options` is given one round for each argument, and is proved to end within them. The loop
-- of `array_grow` is given 32 doublings: the capacity is then 0 modulo 2 ^ 32, if it is not enough
-- before, and stays 0, so that a further round changes nothing; this is the result `hangs`. The loop
-- of `parse` is given a number of rounds, and what is said of its result holds for every number.
-- `gather_first` is given 59 calls in one another, one more than there are rules, and is proved not
-- to need more. `gather_leads` is given one call more than there can be new leads, and `gather_states`
-- as many as there are arrays of leads in the automaton, a parameter of what is proved of it; `generate`
-- is given any number.
--
-- `resolve_type_name` and `codegen_type` are given the number of names that they may go through, and
-- `prepare_expr` and `codegen_expr` the number of calls in one another; a run that needs more has the
-- outcome `too_deep`. The code itself has no end for a type that is named by itself; else
-- `resolve_type_name` needs at most one name more than the contexts have symbols.
--
-- The byte behind the mapped file, which the lexer reads where a file ends in a word or a number,
-- is a parameter: `none` if nothing is mapped there. So is `atoi` of the C library.
--
-- The `qsort` of the C library is a parameter, and so is the address of each rule, by which leads are
-- sorted. A failed assertion of the generator is `none`.
--
-- Not modelled: of src/parser_generator.c, the text that main prints, with its
-- comments and the names of rules, and the functions that free memory; the driver (src/main.c), and the input and output of src/common.c. Of src/codegen.c, `dump_val`
-- and `dump_type` are left out, and so are the names that values are given, and the blocks of functions
-- that are done. What the LLVM library does with a call is not said: a call is added to the block where
-- the builder stands, a new block comes last, and whether the blocks of a function have
-- errors is a parameter. Of src/ast.c, the texts of `type_describe` and the functions that free
-- memory are left out. `malloc` and `realloc` are taken to succeed, and messages on stderr are left
-- out where the code goes on after them.
pub mod Prelude
pub mod Lexer
pub mod Ast
pub mod Array
pub mod Options
pub mod Literals
pub mod Grammar
pub mod Reduce
pub mod Parser
pub mod Generator
pub mod Codegen
