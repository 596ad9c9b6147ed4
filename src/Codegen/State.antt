-- ===== src/Codegen/State.antt =====
-- src/codegen.h: contexts and symbols, and what the code generator changes.
use low.Prelude.{
  ℕ, zero, suc, Bool, true, false, List, [], ◌∷◌, ◌++◌, Option, none, some, Bytes, length,
}
use low.Ast.LowType.{LowType}
use low.Ast.Tree.{Expr}
use low.Codegen.Llvm.{ValueRef, result, Call, Global}

pub data SymbolKind : Type 0 where
  invalid_symbol func_symbol implementation_symbol interface_function_symbol : SymbolKind

-- What `decl` points to: a variable, the constant with this place in `consts`, or an implementation with
-- its interface, its target and its mappings.
pub data DeclRef : Type 0 where
  no_decl a_variable : DeclRef
  a_const : ℕ → DeclRef
  an_implementation : LowType → LowType → List (Bytes × Bytes) → DeclRef

-- `type` is none where the pointer is null, and is not written after the symbol is added.
pub record CodegenSymbol : Type 0 where
  pub kind : SymbolKind
  pub name : Option Bytes
  pub type : Option LowType
  pub value : Option ValueRef
  pub decl : DeclRef
  pub interface : Option LowType
  pub member : ℕ

-- `struct codegen_context` without `prev`.
pub record Scope : Type 0 where
  pub symbols : List CodegenSymbol
  pub is_terminated : Bool

-- `scopes` is the context in use, its `prev` and so on; `consts` are the values of the constants, which
-- are prepared again for each use; `blocks` are the calls in each block of the function, `current` is
-- where the builder stands, `count` the number of calls.
pub record State : Type 0 where
  pub scopes : List Scope
  pub consts : List Expr
  pub blocks : List (List Call)
  pub current : ℕ
  pub count : ℕ
  pub globals : List Global
  pub functions : ℕ

-- `derror` exits with a message. `aborts`: a failed assertion, `die` or `abort`. `invalid`: a null or
-- unset pointer is used, or a member's `kind` that was never written. `too_deep`: the recursion
-- goes deeper than the given depth.
pub data Outcome {ℓ} (A : Type ℓ) : Type ℓ where
  ok : A → Outcome A
  derror aborts invalid too_deep : Outcome A

infixl 5 ◌>>>=◌
abbrev pub ◌>>>=◌ {ℓ κ} : {A : Type ℓ} {B : Type κ} → Outcome A → (A → Outcome B) → Outcome B
ok a >>>= f = f a
derror >>>= f = derror
aborts >>>= f = aborts
invalid >>>= f = invalid
too_deep >>>= f = too_deep

abbrev pub M : Type 0 → Type 0
M A = State → Outcome (A × State)

abbrev pub pure : {A : Type 0} → A → M A
pure a st = ok (a, st)

infixl 5 ◌>>=◌ ◌>>◌
unfoldable pub ◌>>=◌ : {A B : Type 0} → M A → (A → M B) → M B
◌>>=◌ m f st = m st >>>= λ r. f r.0 r.1

abbrev pub ◌>>◌ : {B : Type 0} → M (Unit {0}) → M B → M B
m >> k = m >>= λ _. k

abbrev pub stop : {A : Type 0} → Outcome (A × State) → M A
stop o st = o

-- A value that is none where the code reads an unset or null object.
abbrev pub valid : {A : Type 0} → Option A → M A
valid none st = invalid
valid (some a) st = ok (a, st)

abbrev pub lift : {A : Type 0} → Outcome A → M A
lift o st = o >>>= λ a. ok (a, st)

abbrev pub check : Bool → Outcome (Unit {0} × State) → M (Unit {0})
check true o st = ok (tt, st)
check false o st = o

-- The calls of block i with one more at the end, if there is such a block.
unfoldable pub append_at : ℕ → Call → List (List Call) → Option (List (List Call))
append_at i c [] = none
append_at zero c (b ∷ blocks) = some ((b ++ (c ∷ [])) ∷ blocks)
append_at (suc i) c (b ∷ blocks) = elim (append_at i c blocks) [
  | none ↦ none
  | some blocks' ↦ some (b ∷ blocks')
]

-- A call of the builder; outside functions it is null.
unfoldable pub build : Call → M ValueRef
unfolding append_at
build c st = elim (append_at st.current c st.blocks) [
  | none ↦ invalid
  | some blocks ↦ ok (result st.count, record st { blocks = blocks; count = suc st.count })
]

-- LLVMAppendBasicBlock, with the parent of the block where the builder stands, and
-- LLVMPositionBuilderAtEnd.
unfoldable pub append_basic_block : M ℕ
append_basic_block st = ok (length st.blocks, record st { blocks = st.blocks ++ ([] ∷ []) })

unfoldable pub position_at_end : ℕ → M (Unit {0})
position_at_end b st = ok (tt, record st { current = b })

abbrev pub do_build : Call → M (Unit {0})
do_build c = build c >>= λ _. pure tt
