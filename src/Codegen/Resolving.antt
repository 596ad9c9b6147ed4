-- ===== src/Codegen/Resolving.antt =====
-- src/codegen.c, resolve_type_name: with one more name than there are symbols, it ends if it ever does.
use low.Prelude.{ℕ, suc, ◌≢◌, List, [], ◌∷◌, ◌++◌}
use low.Ast.LowType.{LowType}
use low.Codegen.State.{CodegenSymbol, Scope, Outcome, too_deep}
use low.Codegen.Naming.{Ends, itself, unknown, untyped, by_name}

module _ (scopes : List Scope) where
  -- The names that are gone through.
  count : {t : LowType} {o : Outcome LowType} → Ends scopes t o → ℕ
  count (itself t h) = 0
  count (unknown name h) = 1
  count (untyped name s h e) = 1
  count (by_name name s t o h e rest) = suc (count rest)

  abbrev EndsAs : LowType → Outcome LowType → Type 0
  EndsAs t o = o ≢ too_deep → Ends scopes t o

  -- The symbols that are gone through.
  visited : {t : LowType} {o : Outcome LowType} → Ends scopes t o → List CodegenSymbol
  visited (itself t h) = []
  visited (unknown name h) = []
  visited (untyped name s h e) = []
  visited (by_name name s t o h e rest) = s ∷ visited rest

abbrev pub symbols_of : List Scope → List CodegenSymbol
symbols_of [] = []
symbols_of (scope ∷ scopes) = scope.symbols ++ symbols_of scopes
