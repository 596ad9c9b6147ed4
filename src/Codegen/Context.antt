-- ===== src/Codegen/Context.antt =====
-- src/codegen.c: contexts, and the lookup of names in them.
use low.Prelude.{
  ℕ, zero, suc, ◌-◌, Bool, true, false, List, [], ◌∷◌, ◌++◌, Option, none, some, Bytes, str_equal,
}
use low.Ast.LowType.{
  LowType, no_type, void_type, boolean_type, placeholder_type, integer_type, float_type, func_type,
  named_type, struct_type, array_type, slice_type, interface_type,
}
use low.Ast.Equal.{type_equal}
use low.Ast.Copy.{type_copy}
use low.Codegen.State.{
  CodegenSymbol, implementation_symbol, an_implementation, Scope, Outcome, ok, aborts, invalid,
  too_deep, M, valid, ◌>>>=◌,
}

-- The field `pointer`, and the type with another one.
abbrev pub pointer_of : LowType → ℕ
pointer_of (no_type p) = p
pointer_of (void_type p) = p
pointer_of (boolean_type p) = p
pointer_of (placeholder_type p) = p
pointer_of (integer_type p w) = p
pointer_of (float_type p w) = p
pointer_of (named_type p n) = p
pointer_of (func_type p r ts) = p
pointer_of (struct_type p n ms) = p
pointer_of (array_type p t n) = p
pointer_of (slice_type p t) = p
pointer_of (interface_type p ms) = p

abbrev pub with_pointer : ℕ → LowType → LowType
with_pointer q (no_type p) = no_type q
with_pointer q (void_type p) = void_type q
with_pointer q (boolean_type p) = boolean_type q
with_pointer q (placeholder_type p) = placeholder_type q
with_pointer q (integer_type p w) = integer_type q w
with_pointer q (float_type p w) = float_type q w
with_pointer q (named_type p n) = named_type q n
with_pointer q (func_type p r ts) = func_type q r ts
with_pointer q (struct_type p n ms) = struct_type q n ms
with_pointer q (array_type p t n) = array_type q t n
with_pointer q (slice_type p t) = slice_type q t
with_pointer q (interface_type p ms) = interface_type q ms

abbrev pub more_pointer : LowType → LowType
more_pointer t = with_pointer (suc (pointer_of t)) t

-- `--pointer`, where it is positive.
abbrev pub less_pointer : LowType → LowType
less_pointer t = with_pointer (pointer_of t - 1) t

-- `kind == AST_NO_TYPE`
abbrev pub is_no_type : LowType → Bool
is_no_type (no_type p) = true
is_no_type _ = false

abbrev pub is_boolean : LowType → Bool
is_boolean (boolean_type p) = true
is_boolean _ = false

abbrev pub is_integer : LowType → Bool
is_integer (integer_type p w) = true
is_integer _ = false

abbrev pub is_float : LowType → Bool
is_float (float_type p w) = true
is_float _ = false

abbrev pub has_name : Bytes → Option Bytes → Bool
has_name name none = false
has_name name (some n) = str_equal n name

-- The loop over the symbols of one context.
unfoldable pub find_in : List CodegenSymbol → Bytes → Option CodegenSymbol
find_in [] name = none
find_in (symbol ∷ symbols) name = elim (has_name name symbol.name) [
  | true ↦ some symbol
  | false ↦ find_in symbols name
]

abbrev pub or_search : Option CodegenSymbol → Option CodegenSymbol → Option CodegenSymbol
or_search none behind = behind
or_search (some symbol) behind = some symbol

unfoldable pub find_symbol : List Scope → Bytes → Option CodegenSymbol
unfolding find_in
find_symbol [] name = none
find_symbol (scope ∷ scopes) name = or_search (find_in scope.symbols name) (find_symbol scopes name)

unfoldable pub find_func : List (Bytes × Bytes) → Bytes → Option Bytes
find_func [] name = none
find_func ((intf, func) ∷ mappings) name = elim (str_equal intf name) [
  | true ↦ some func
  | false ↦ find_func mappings name
]

-- `none` within: go on with the next symbol.
abbrev pub mapping_in :
    LowType → LowType → List (Bytes × Bytes) → LowType → LowType → Bytes → Outcome (Option Bytes)
mapping_in i t mappings interface target name = elim (type_equal i interface) [
  | none ↦ invalid
  | some false ↦ ok none
  | some true ↦ elim (type_equal t target) [
    | none ↦ invalid
    | some false ↦ ok none
    | some true ↦ ok (find_func mappings name)
  ]
]

abbrev pub symbol_mapping : CodegenSymbol → LowType → LowType → Bytes → Outcome (Option Bytes)
symbol_mapping symbol interface target name = elim symbol.kind [
  | implementation_symbol ↦ elim symbol.decl [
    | an_implementation i t mappings ↦ mapping_in i t mappings interface target name
    | _ ↦ invalid
  ]
  | _ ↦ ok none
]

unfoldable pub find_mapping_in :
    List CodegenSymbol → LowType → LowType → Bytes → Outcome (Option Bytes)
find_mapping_in [] interface target name = ok none
find_mapping_in (symbol ∷ symbols) interface target name =
    elim (symbol_mapping symbol interface target name) [
      | ok none ↦ find_mapping_in symbols interface target name
      | o ↦ o
    ]

-- Which function of the program an implementation names for a member of an interface.
unfoldable pub find_mapping : List Scope → LowType → LowType → Bytes → Outcome (Option Bytes)
unfolding find_mapping_in
find_mapping [] interface target name = ok none
find_mapping (scope ∷ scopes) interface target name =
    elim (find_mapping_in scope.symbols interface target name) [
      | ok none ↦ find_mapping scopes interface target name
      | o ↦ o
    ]

-- The name that is looked up, if there is one.
abbrev pub plain_name : LowType → Option Bytes
plain_name (named_type zero n) = some n
plain_name t = none

abbrev pub named_of : Option CodegenSymbol → Outcome LowType
named_of none = aborts
named_of (some symbol) = elim symbol.type [ none ↦ invalid | some t ↦ ok t ]

-- With the number of names that it may go through.
unfoldable pub resolve_type_name : ℕ → List Scope → LowType → Outcome LowType
unfolding find_symbol
resolve_type_name zero scopes type = elim (plain_name type) [
  | none ↦ ok type
  | some name ↦ too_deep
]
resolve_type_name (suc depth) scopes type = elim (plain_name type) [
  | none ↦ ok type
  | some name ↦ named_of (find_symbol scopes name) >>>= λ t. resolve_type_name depth scopes t
]

-- With the context that is in use.
abbrev pub resolve : ℕ → LowType → M LowType
resolve depth type st = resolve_type_name depth st.scopes type >>>= λ t. ok (t, st)

abbrev pub lookup : Bytes → M (Option CodegenSymbol)
lookup name st = ok (find_symbol st.scopes name, st)

abbrev pub add_to : CodegenSymbol → List Scope → List Scope
add_to symbol [] = []
add_to symbol (scope ∷ scopes) = record scope { symbols = scope.symbols ++ (symbol ∷ []) } ∷ scopes

abbrev pub add_symbol : CodegenSymbol → M (Unit {0})
add_symbol symbol st = ok (tt, record st { scopes = add_to symbol st.scopes })

abbrev pub new_scope : Scope
new_scope = record { symbols = []; is_terminated = false }

-- A context whose `prev` is the one in use, until `leave_scope`.
abbrev pub enter_scope : M (Unit {0})
enter_scope st = ok (tt, record st { scopes = new_scope ∷ st.scopes })

abbrev pub terminated_in : List Scope → Bool
terminated_in [] = false
terminated_in (scope ∷ scopes) = scope.is_terminated

abbrev pub tail : List Scope → List Scope
tail [] = []
tail (scope ∷ scopes) = scopes

-- What its `is_terminated` is.
abbrev pub leave_scope : M Bool
leave_scope st = ok (terminated_in st.scopes, record st { scopes = tail st.scopes })

abbrev pub mark_terminated : List Scope → List Scope
mark_terminated [] = []
mark_terminated (scope ∷ scopes) = record scope { is_terminated = true } ∷ scopes

abbrev pub set_terminated : M (Unit {0})
set_terminated st = ok (tt, record st { scopes = mark_terminated st.scopes })

abbrev pub copy : LowType → M LowType
copy type = valid (type_copy type)

abbrev pub equal : LowType → LowType → M Bool
equal t u = valid (type_equal t u)
