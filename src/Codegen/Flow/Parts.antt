-- ===== src/Codegen/Flow/Parts.antt =====
-- src/codegen*.c: the blocks during lookups, and while symbols, types and shared sequences are generated.
use low.Prelude.{
  ℕ, zero, suc, ◌≡◌, refl, sym, ap, ◌∙◌, Bool, true, false, List, [], ◌∷◌, ◌++◌, Option, none, some,
  Bytes, get_elem?, length,
}
use low.Ast.LowType.{
  LowType, no_type, void_type, boolean_type, placeholder_type, integer_type, float_type, func_type,
  named_type, struct_type, array_type, slice_type, interface_type, Types, no_types, type_and,
  StructMembers, no_members, member_and, InterfaceMembers, no_interface, member_field, member_func,
  unset_field, unset_func,
}
use low.Ast.Tree.{Expr}
use low.Codegen.Llvm.{TypeRef, ValueRef, global, add_global}
use low.Codegen.State.{CodegenSymbol, Scope, State, Outcome, ok, too_deep, M, ◌>>>=◌}
use low.Codegen.Context.{
  resolve_type_name, resolve, lookup, find_symbol, add_symbol, add_to, find_mapping,
}
use low.Codegen.Types.{
  codegen_float_type, named_or, type_named, add_members, codegen_type_with, codegen_types,
  codegen_members, codegen_args, codegen_interface, codegen_type, member_args,
}
use low.Codegen.Prepare.Views.{const_at, read_const, write_const, replace_at}
use low.Codegen.Exprs.Builders.{
  load_unless, new_global, build_assert, array_step, codegen_array_new,
}
use low.Codegen.Exprs.Casts.{mapping}
use low.Codegen.Flow.Blocks.{flags, IsGood}
use low.Codegen.Flow.Keeps.{
  Runs, Keeps, >>>=-ok, Runs-bind, Runs-pure, Runs-append, Runs-position, Runs-do_build, Keeps-Runs,
  Keeps-bind, Keeps-pure, Keeps-build, Keeps-stop, Keeps-lift, Keeps-valid, Keeps-check, Keeps-if,
  Keeps-same, Fails-derror, Fails-aborts, Fails-invalid, Fails-too_deep,
}

-- A question to the state that may fail.
asks : {A : Type 0} (o : State → Outcome A) → Keeps (λ st. o st >>>= λ a. ok (a, st))
asks {A} o = Keeps-same _ λ st a st' e.
    let (b, _, e') = >>>=-ok (o st) (λ b. ok (b, st)) (a, st') e in
    let after : ◌≡◌ {A = A × State} (b, st) (a, st') = cc e' in
    let es = ap (λ r. r.1) after in
    (sym (ap State.blocks es), sym (ap State.current es), ap (λ s. flags (State.scopes s)) (sym es))

-- A change of the state that leaves the blocks and the flags.
pub changes :
    {A : Type 0} (v : State → A) (f : State → State)
    → ((st : State)
        → ((f st).blocks ≡ st.blocks)
          × ((f st).current ≡ st.current)
          × (flags (f st).scopes ≡ flags st.scopes))
    → Keeps (λ st. ok (v st, f st))
changes {A} v f h = Keeps-same _ λ st a st' e.
    let after : ◌≡◌ {A = A × State} (v st, f st) (a, st') = cc e in
    let es = ap (λ r. r.1) after in
    let (eb, ec, ef) = h st in
    (
      sym (ap State.blocks es) ∙ eb,
      sym (ap State.current es) ∙ ec,
      ap (λ s. flags (State.scopes s)) (sym es) ∙ ef,
    )

flags-add_to :
    (symbol : CodegenSymbol) (scopes : List Scope) → flags (add_to symbol scopes) ≡ flags scopes
flags-add_to symbol [] = refl
flags-add_to symbol (scope ∷ scopes) = refl

pub Keeps-resolve : (depth : ℕ) (type : LowType) → Keeps (resolve depth type)
Keeps-resolve depth type = asks (λ st. resolve_type_name depth st.scopes type)

pub Keeps-mapping : (i t : LowType) (name : Bytes) → Keeps (mapping i t name)
Keeps-mapping i t name = asks (λ st. find_mapping st.scopes i t name)

pub Keeps-lookup : (name : Bytes) → Keeps (lookup name)
Keeps-lookup name = asks (λ st. ok (find_symbol st.scopes name))

pub Keeps-read_const : (i : ℕ) → Keeps (read_const i)
Keeps-read_const i = asks (λ st. const_at (get_elem? st.consts i))

pub Keeps-write_const : (i : ℕ) (e : Expr) → Keeps (write_const i e)
Keeps-write_const i e =
    changes (λ st. tt) (λ st. record st { consts = replace_at i e st.consts })
      (λ st. (refl, refl, refl))

pub Keeps-add_symbol : (symbol : CodegenSymbol) → Keeps (add_symbol symbol)
Keeps-add_symbol symbol =
    changes (λ st. tt) (λ st. record st { scopes = add_to symbol st.scopes })
      (λ st. (refl, refl, flags-add_to symbol st.scopes))

pub Keeps-new_global : (type : TypeRef) (value : ValueRef) → Keeps (new_global type value)
Keeps-new_global type value =
    changes (λ st. global (length st.globals))
      (λ st. record st { globals = st.globals ++ (add_global type value ∷ []) })
      (λ st. (refl, refl, refl))

pub ruleset flow = (
  Keeps-bind, Keeps-pure, Keeps-build, Keeps-stop, Keeps-lift, Keeps-valid, Keeps-check, Keeps-if,
  Keeps-resolve, Keeps-mapping, Keeps-lookup, Keeps-read_const, Keeps-write_const, Keeps-add_symbol,
  Keeps-new_global, Fails-derror, Fails-aborts, Fails-invalid, Fails-too_deep,
)

Keeps-type_named : (o : Option CodegenSymbol) → Keeps (type_named o)
Keeps-type_named none = search flow
Keeps-type_named (some symbol) = named symbol.type
  where
    named : (t : Option LowType) → Keeps (named_or t)
    named none = search flow
    named (some t) = search flow

Keeps-codegen_float_type : (w : ℕ) → Keeps (codegen_float_type w)
Keeps-codegen_float_type w = search flow depth 12

Keeps-add_members :
    (i : Option LowType) (n : ℕ) (ms : InterfaceMembers) → Keeps (add_members i n ms)
unfolding add_members
Keeps-add_members i n no_interface = search flow
Keeps-add_members i n (member_field m t ms) =
    Keeps-bind _ _ (Keeps-add_symbol _) (λ _. Keeps-add_members i (suc n) ms)
Keeps-add_members i n (member_func m r ts ms) =
    Keeps-bind _ _ (Keeps-add_symbol _) (λ _. Keeps-add_members i (suc n) ms)
Keeps-add_members i n (unset_field m t ms) =
    Keeps-bind _ _ (Keeps-add_symbol _) (λ _. Keeps-add_members i (suc n) ms)
Keeps-add_members i n (unset_func m r ts ms) =
    Keeps-bind _ _ (Keeps-add_symbol _) (λ _. Keeps-add_members i (suc n) ms)

-- Where no name leads, or back to types that do.
module _ (named : LowType → M TypeRef) (keeps : (t : LowType) → Keeps (named t)) where
  mutual
    unfolding codegen_type_with

    Keeps-codegen_type_with : (t : LowType) → Keeps (codegen_type_with named t)
    Keeps-codegen_type_with (no_type p) = search flow
    Keeps-codegen_type_with (placeholder_type p) = search flow
    Keeps-codegen_type_with (void_type p) = search flow
    Keeps-codegen_type_with (boolean_type p) = search flow
    Keeps-codegen_type_with (integer_type p w) = search flow
    Keeps-codegen_type_with (float_type p w) = search (flow, Keeps-codegen_float_type)
    Keeps-codegen_type_with (named_type p n) = search (flow, keeps, Keeps-type_named) depth 10
    Keeps-codegen_type_with (func_type p r ts) =
        search (flow, Keeps-codegen_types ts, Keeps-codegen_type_with r) depth 10
    Keeps-codegen_type_with (struct_type p n ms) = search (flow, Keeps-codegen_members ms)
    Keeps-codegen_type_with (array_type p t n) = search (flow, Keeps-codegen_type_with t)
    Keeps-codegen_type_with (slice_type p t) = search (flow, Keeps-codegen_type_with t)
    Keeps-codegen_type_with (interface_type p ms) =
        Keeps-bind _ _ (Keeps-codegen_interface ms)
          (λ fields. Keeps-bind _ _ (Keeps-add_members _ 0 ms) (λ _. Keeps-pure _))

    Keeps-codegen_types : (ts : Types) → Keeps (codegen_types named ts)
    Keeps-codegen_types no_types = search flow
    Keeps-codegen_types (type_and t ts) =
        search (flow, Keeps-codegen_type_with t, Keeps-codegen_types ts) depth 10

    Keeps-codegen_members : (ms : StructMembers) → Keeps (codegen_members named ms)
    Keeps-codegen_members no_members = search flow
    Keeps-codegen_members (member_and t n ms) =
        search (flow, Keeps-codegen_type_with t, Keeps-codegen_members ms) depth 10

    pub Keeps-codegen_args : (ts : Types) → Keeps (codegen_args named ts)
    Keeps-codegen_args no_types = search flow
    Keeps-codegen_args (type_and t ts) =
        Keeps-bind _ _ (Keeps-if _ _ _ (Keeps-pure _) (Keeps-codegen_type_with t))
          (λ u. Keeps-bind _ _ (Keeps-codegen_args ts) (λ us. Keeps-pure _))

    Keeps-codegen_interface : (ms : InterfaceMembers) → Keeps (codegen_interface named ms)
    Keeps-codegen_interface no_interface = search flow
    Keeps-codegen_interface (member_field n t ms) =
        search (flow, Keeps-codegen_type_with t, Keeps-codegen_interface ms) depth 10
    Keeps-codegen_interface (member_func n r ts ms) =
        search (flow, Keeps-codegen_args ts, Keeps-codegen_type_with r, Keeps-codegen_interface ms)
          depth 12
    Keeps-codegen_interface (unset_field n t ms) = search flow
    Keeps-codegen_interface (unset_func n r ts ms) = search flow

pub Keeps-codegen_type : (depth : ℕ) (t : LowType) → Keeps (codegen_type depth t)
unfolding codegen_type
Keeps-codegen_type zero t = Keeps-codegen_type_with _ (λ u. Keeps-stop too_deep Fails-too_deep) t
Keeps-codegen_type (suc depth) t = Keeps-codegen_type_with _ (λ u. Keeps-codegen_type depth u) t

pub Keeps-member_args : (depth : ℕ) (ts : Types) → Keeps (member_args depth ts)
Keeps-member_args zero ts = Keeps-codegen_args _ (λ u. Keeps-stop too_deep Fails-too_deep) ts
Keeps-member_args (suc depth) ts = Keeps-codegen_args _ (λ u. Keeps-codegen_type depth u) ts

pub Keeps-load_unless : (b : Bool) (v : ValueRef) → Keeps (load_unless b v)
Keeps-load_unless true v = search flow
Keeps-load_unless false v = search flow

-- Blocks that are opened and closed on the way.
pub Keeps-build_assert : (v : ValueRef) → Keeps (build_assert v)
Keeps-build_assert v = record {
  runs = λ ps fs. Runs-bind _ _ (Runs-append ps fs) (λ t.
      Runs-bind _ _ (Runs-append (t ∷ ps) fs) (λ e.
        Runs-bind _ _ (Keeps-Runs (e ∷ t ∷ ps) fs (search flow)) (λ failed.
          Runs-bind _ _ (Runs-do_build (e ∷ t ∷ ps) fs _ refl) (λ _.
            Runs-bind _ _ (Runs-position (e ∷ []) ps fs t) (λ _.
              Runs-bind _ _ (Keeps-Runs (e ∷ ps) fs (search flow)) (λ _.
                Runs-bind _ _ (Runs-do_build (e ∷ ps) fs _ refl)
                  (λ _. Runs-position [] ps fs e)))))));
}

pub Keeps-codegen_array_new : (t : TypeRef) (v : ValueRef) → Keeps (codegen_array_new t v)
Keeps-codegen_array_new t v = record {
  runs = λ ps fs. Runs-bind _ _ (Keeps-Runs ps fs (search flow)) (λ arrptr.
      Runs-bind _ _ (Keeps-Runs ps fs (search flow)) (λ cntrptr.
        Runs-bind _ _ (Keeps-Runs ps fs (search flow)) (λ _. Runs-bind _ _ (Runs-append ps fs) (λ l.
          Runs-bind _ _ (Runs-append (l ∷ ps) fs) (λ b.
            Runs-bind _ _ (Runs-append (b ∷ l ∷ ps) fs) (λ e.
              Runs-bind _ _ (Runs-do_build (e ∷ b ∷ l ∷ ps) fs _ refl) (λ _.
                Runs-bind _ _ (Runs-position (e ∷ b ∷ []) ps fs l) (λ _.
                  Runs-bind _ _ (Keeps-Runs (e ∷ b ∷ ps) fs (search flow)) (λ cntr.
                    Runs-bind _ _ (Keeps-Runs (e ∷ b ∷ ps) fs (search flow)) (λ cond.
                      Runs-bind _ _ (Runs-do_build (e ∷ b ∷ ps) fs _ refl) (λ _.
                        Runs-bind _ _ (Runs-position (e ∷ []) ps fs b)
                          (λ _. array_loop ps fs l e arrptr cntrptr cntr))))))))))));
}
  where
    array_loop :
        (ps : List ℕ) (fs : List Bool) (l e : ℕ) (arrptr cntrptr cntr : ValueRef)
        → Runs (IsGood (e ∷ ps) fs) (array_step t l e arrptr cntrptr cntr) (λ _. IsGood ps fs)
    array_loop ps fs l e arrptr cntrptr cntr =
        Runs-bind _ _ (Keeps-Runs (e ∷ ps) fs (search flow)) (λ iptr.
          Runs-bind _ _ (Keeps-Runs (e ∷ ps) fs (search flow)) (λ _.
            Runs-bind _ _ (Keeps-Runs (e ∷ ps) fs (search flow)) (λ next.
              Runs-bind _ _ (Keeps-Runs (e ∷ ps) fs (search flow)) (λ _.
                Runs-bind _ _ (Runs-do_build (e ∷ ps) fs _ refl)
                  (λ _. Runs-bind _ _ (Runs-position [] ps fs e) (λ _. Runs-pure arrptr))))))
