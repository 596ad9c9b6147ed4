-- ===== src/Codegen/Tests.antt =====
-- src/codegen.c: concrete runs.
use low.Prelude.{
  ℕ, ◌≡◌, refl, true, false, List, [], ◌∷◌, none, some, Bytes, codes, get_elem?, str_equal,
}
use low.Ast.Equal.{type_equal}
use low.Ast.Copy.{type_copy}
use low.Codegen.Types.{codegen_type}
use low.Ast.LowType.{LowType, no_type, void_type, boolean_type, integer_type, named_type}
use low.Ast.Tree.{
  Loc, Expr, expr_at, ident_expr, null_expr, expr_ptr, Stmt, stmt_at, StmtForm, compound_stmt,
  if_stmt, for_stmt, break_stmt, return_stmt, OptStmt, null_stmt, stmt_ptr, BlockItem,
  stmt_block_item, no_items, item_and, FuncUnit,
}
use low.Codegen.Llvm.{function, Call, br}
use low.Codegen.State.{
  CodegenSymbol, a_variable, no_decl, Scope, State, Outcome, append_basic_block, position_at_end,
  build, ◌>>=◌, ok, derror, aborts, invalid, too_deep,
}
use low.Codegen.Context.{find_in, or_search, find_symbol, add_to, has_name, new_scope}
use low.Codegen.Decls.{symbol_of}
use low.Codegen.Stmts.{Self, codegen_stmt}
use low.Codegen.Units.{generate_body, store_params, add_symbols}
use low.Codegen.Scoping.{find_symbol-add_to}
use low.Codegen.Naming.{Ends}
use low.Codegen.State.{Outcome, too_deep}
use low.Ast.LowType.{LowType}
use low.Codegen.Flow.Blocks.{IsGood, IsClosed, flags}
use low.Codegen.Flow.Waiting.{append_basic_block-IsGood}
use low.Codegen.Flow.Scopes.{Stands}
use low.Codegen.Flow.Ends.{ends, NoDeadCode}
use low.Codegen.Flow.Stmts.{codegen_stmt-Stands}
use low.Codegen.Flow.Funcs.{IsGood-first, generate_body-IsClosed}

abbrev here : Loc
here = record { filename = []; line = 0; col = 0 }

abbrev variable_a : Expr
variable_a = expr_at here (no_type 0) (ident_expr (codes "a"))

abbrev stmt : StmtForm → OptStmt
stmt form = stmt_ptr (stmt_at here form)

abbrev item : StmtForm → BlockItem
item form = stmt_block_item (stmt form)

-- `{ for (; a; ) if (a) break; if (a) return; else return; }`
abbrev body : Stmt
body = stmt_at here (
    compound_stmt (
      item_and
        (item (
          for_stmt null_expr (expr_ptr variable_a) null_expr
            (stmt (if_stmt variable_a (stmt break_stmt) null_stmt))))
        (item_and
          (item (if_stmt variable_a (stmt (return_stmt null_expr)) (stmt (return_stmt null_expr))))
          no_items)))

-- `func f(a bool) { ... }`
abbrev func_f : FuncUnit
func_f = record {
  loc = here;
  return_type = void_type 0;
  name = codes "f";
  params = (boolean_type 0, some (codes "a")) ∷ [];
  variadic = false;
  body = stmt_ptr body;
}

abbrev start : State
start = record {
  scopes = new_scope ∷ [];
  consts = [];
  blocks = [];
  current = 0;
  count = 0;
  globals = [];
  functions = 1;
}

abbrev state_of : Outcome (Unit {0} × State) → State
state_of (ok (a, st)) = st
state_of derror = start
state_of aborts = start
state_of invalid = start
state_of too_deep = start

abbrev generated : State
generated = state_of (generate_body 2 4 func_f (function 0) body start)

body-NoDeadCode : NoDeadCode body
unfolding NoDeadCode
body-NoDeadCode = ((tt, refl), refl, (tt, tt))

generate_body-IsClosed_example :
    ((i : ℕ) (b : List Call) → get_elem? generated.blocks i ≡ some b → IsClosed b)
    × (flags generated.scopes ≡ flags start.scopes)
unfolding generate_body ◌>>=◌ store_params codegen_type build add_symbols append_basic_block
    position_at_end str_equal find_symbol type_copy type_equal
generate_body-IsClosed_example =
    generate_body-IsClosed 2 4 func_f (function 0) body start generated body-NoDeadCode refl

-- A variable `a`, and the block 1, which waits.
abbrev symbol_a : CodegenSymbol
symbol_a = symbol_of (some (codes "a")) (some (boolean_type 0)) (some (function 0)) a_variable

abbrev scope_a : Scope
scope_a = record { symbols = symbol_a ∷ []; is_terminated = false }

abbrev state_a : State
state_a = record start { scopes = scope_a ∷ [] }

abbrev waiting : State
waiting = record state_a { blocks = [] ∷ [] ∷ []; current = 0 }

waiting-IsGood : IsGood (1 ∷ []) (false ∷ []) waiting
unfolding append_basic_block
waiting-IsGood =
    append_basic_block-IsGood [] (false ∷ []) (record state_a { blocks = [] ∷ []; current = 0 }) 1
      waiting (IsGood-first (false ∷ []) state_a refl) refl

abbrev self : Self
self = record { break_block = some 1; continue_block = none; return_type = none }

abbrev stated : State
stated = state_of (codegen_stmt 2 4 self body waiting)

codegen_stmt-Stands_example : Stands (ends body) (1 ∷ []) (ends body ∷ []) stated
unfolding codegen_stmt ◌>>=◌ codegen_type build append_basic_block position_at_end str_equal
    find_symbol type_copy type_equal
codegen_stmt-Stands_example =
    codegen_stmt-Stands 2 4 self body (1 ∷ []) [] waiting stated body-NoDeadCode waiting-IsGood refl

-- The second symbol of one name in one context is not found.
abbrev int_a : CodegenSymbol
int_a = symbol_of (some (codes "a")) (some (integer_type 0 32)) none no_decl

find_symbol-add_to_example :
    find_symbol (add_to int_a (scope_a ∷ [])) (codes "a")
    ≡ or_search (find_in scope_a.symbols (codes "a")) (elim (has_name (codes "a") int_a.name) [
      | true ↦ some int_a
      | false ↦ find_symbol [] (codes "a")
    ])
find_symbol-add_to_example = find_symbol-add_to int_a scope_a [] (codes "a")

-- `type t = u; type u = int32;`
abbrev named : Bytes → LowType → CodegenSymbol
named name type = symbol_of (some name) (some type) none no_decl

abbrev types : List Scope
types =
    record {
      symbols =
          named (codes "t") (named_type 0 (codes "u")) ∷ named (codes "u") (integer_type 0 32) ∷ [];
      is_terminated = false;
    }
    ∷ []

-- The body of `for (;;) break;` gets a branch behind the one that ends it.
abbrev endless : Stmt
endless = stmt_at here (for_stmt null_expr null_expr null_expr (stmt break_stmt))

for-two_branches :
    get_elem? (state_of (generate_body 2 4 func_f (function 0) endless start)).blocks 2
    ≡ some (br 4 ∷ br 3 ∷ [])
unfolding generate_body ◌>>=◌ store_params codegen_type build add_symbols append_basic_block
    position_at_end str_equal find_symbol type_copy type_equal
for-two_branches = refl
