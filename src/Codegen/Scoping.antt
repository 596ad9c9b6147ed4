-- ===== src/Codegen/Scoping.antt =====
-- src/codegen.c: what names stand for in nested contexts.
use low.Prelude.{
  ◌≡◌, refl, ap, ◌∙◌, Bool, true, false, List, [], ◌∷◌, ◌++◌, Option, none, some, Bytes,
}
use low.Codegen.State.{CodegenSymbol, Scope}
use low.Codegen.Context.{has_name, find_in, or_search, find_symbol, add_to}

first_or_rest :
    (b : Bool) (s : CodegenSymbol) (rest rest' behind : Option CodegenSymbol)
    → rest ≡ or_search rest' behind
    → (elim b [ true ↦ some s | false ↦ rest ])
      ≡ or_search (elim b [ true ↦ some s | false ↦ rest' ]) behind
first_or_rest true s rest rest' behind h = refl
first_or_rest false s rest rest' behind h = h

-- A symbol at the end of a context is found where no other has its name.
find_in-append :
    (symbols : List CodegenSymbol) (symbol : CodegenSymbol) (name : Bytes)
    → find_in (symbols ++ (symbol ∷ [])) name
      ≡ or_search
          (find_in symbols name)
          (elim (has_name name symbol.name) [ true ↦ some symbol | false ↦ none ])
unfolding find_in
find_in-append [] symbol name = refl
find_in-append (s ∷ symbols) symbol name =
    first_or_rest (has_name name s.name) s _ _ _ (find_in-append symbols symbol name)

or_search_assoc :
    (a b c : Option CodegenSymbol) → or_search (or_search a b) c ≡ or_search a (or_search b c)
or_search_assoc none b c = refl
or_search_assoc (some s) b c = refl

or_search-found :
    (b : Bool) (symbol : CodegenSymbol) (behind : Option CodegenSymbol)
    → or_search (elim b [ true ↦ some symbol | false ↦ none ]) behind
      ≡ (elim b [ true ↦ some symbol | false ↦ behind ])
or_search-found true symbol behind = refl
or_search-found false symbol behind = refl

-- Once a symbol is added to the context in use, a name stands for what that context had before under
-- the name, else for the symbol if it has the name, and else for what the outer contexts have: the
-- symbol hides those outside, but not one that was there with the same name.
pub find_symbol-add_to :
    (symbol : CodegenSymbol) (scope : Scope) (scopes : List Scope) (name : Bytes)
    → find_symbol (add_to symbol (scope ∷ scopes)) name
      ≡ or_search (find_in scope.symbols name) (elim (has_name name symbol.name) [
        | true ↦ some symbol
        | false ↦ find_symbol scopes name
      ])
unfolding find_symbol
find_symbol-add_to symbol scope scopes name =
    ap (λ o. or_search o (find_symbol scopes name)) (find_in-append scope.symbols symbol name)
    ∙ or_search_assoc (find_in scope.symbols name) _ (find_symbol scopes name)
    ∙ ap (λ o. or_search (find_in scope.symbols name) o)
        (or_search-found (has_name name symbol.name) symbol (find_symbol scopes name))
