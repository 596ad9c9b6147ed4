-- ===== src/Reduce/Tests.antt =====
-- The theorems on the reducers of src/grammar_rules.c at concrete tokens.
use low.Prelude.{ℕ, List, ◌↔◌, [], ◌∷◌, none, some, Bool, Bytes, codes, ◌++◌, ◌≡◌, refl}
use low.Lexer.Token.{semicolon, lparen, rparen, ident}
use low.Grammar.Symbols.{
  rule_variable_decl, rule_implementation_mapping_list, rule_type, func_unit_decl_reducer, Symbol,
  sub, tkn, func_unit_reducer, implementation_mapping_list_reducer,
}
use low.Grammar.Variants.{variants}
use low.Ast.LowType.{void_type, integer_type}
use low.Ast.Tree.{null_stmt, Loc}
use low.Reduce.Values.{ok, confused, one, many, a_mapping, a_func, Tok}
use low.Reduce.Run.{reduced}
use low.Reduce.Kinds.{All, IsSafe, child_tok, child_toks, Children}
use low.Reduce.Types.{name_type}
use low.Reduce.Sound.{reduced-IsSafe}
use low.Reduce.Quirks.{
  func_unit-empty_body, implementation_mapping_list-overreads, braces, two_mappings,
}
use low.Reduce.TypeNames.{Spells, name_type-Spells}

abbrev at : Loc
at = record { filename = codes "f"; line = 3; col = 7 }

-- The value of the first digit.
abbrev atoi : Bytes → ℕ
atoi [] = 0
atoi (c ∷ digits) = c

not_the_list : rule_variable_decl ≡ rule_implementation_mapping_list → ⊥
not_the_list h = cc h

reduced-IsSafe_example :
    All (IsSafe (codes "a := 1;") atoi rule_variable_decl) (variants rule_variable_decl)
reduced-IsSafe_example = reduced-IsSafe (codes "a := 1;") atoi rule_variable_decl not_the_list

abbrev mappings : Children two_mappings
mappings =
    ((95, 0, 6, at, (codes "a", codes "b") ∷ []), ((96, 7, 13, at, (codes "c", codes "d")), tt))

-- The token that happens to stand behind the two.
abbrev behind_them : Tok
behind_them = record {
  id = 96;
  first = 14;
  last = 20;
  loc = at;
  value = one a_mapping (codes "e", codes "g");
}

implementation_mapping_list-overreads_example :
    (reduced
        (codes "a = b; c = d;")
        atoi
        (some implementation_mapping_list_reducer)
        1
        95
        13
        (child_toks two_mappings mappings)
      ≡ confused)
    × ((out : Tok) × (reduced
            (codes "a = b; c = d;")
            atoi
            (some implementation_mapping_list_reducer)
            1
            95
            13
            (child_toks two_mappings mappings ++ (behind_them ∷ []))
          ≡ ok out)
        × (out.value ≡ many a_mapping ((codes "a", codes "b") ∷ (codes "e", codes "g") ∷ [])))
unfolding variants
implementation_mapping_list-overreads_example =
    implementation_mapping_list-overreads (codes "a = b; c = d;") atoi 1 1 95 13
      (some implementation_mapping_list_reducer) mappings behind_them (codes "e", codes "g") refl
      refl

-- `void f()`.
abbrev declaration : List Symbol
declaration = sub rule_type ∷ tkn ident ∷ tkn lparen ∷ tkn rparen ∷ []

abbrev declaration_toks : Children declaration
declaration_toks =
    ((98, 0, 4, at, void_type 0), ((3, 5, 6, at, tt), ((7, 6, 7, at, tt), ((8, 7, 8, at, tt), tt))))

abbrev declared : Tok
declared = record {
  id = 97;
  first = 0;
  last = 8;
  loc = at;
  value = one a_func (record {
    loc = at;
    return_type = void_type 0;
    name = codes "f";
    params = [];
    variadic = Bool.false;
    body = null_stmt;
  });
}

func_unit-empty_body_example :
    (body : Tok) × (reduced
        (codes "void f() {}")
        atoi
        none
        0
        100
        11
        (child_toks braces ((9, 9, 10, at, tt), ((10, 10, 11, at, tt), tt)))
      ≡ ok body)
    × (reduced (codes "void f() {}") atoi (some func_unit_reducer) 1 99 11 (declared ∷ body ∷ [])
        ≡ reduced
            (codes "void f() {}")
            atoi
            (some func_unit_reducer)
            0
            99
            11
            (declared ∷ child_tok (tkn semicolon) (53, 9, 11, at, tt) ∷ []))
unfolding variants reduced
func_unit-empty_body_example =
    func_unit-empty_body (codes "void f() {}") atoi declaration 0 0 1 0
      (some func_unit_decl_reducer) none (some func_unit_reducer) (some func_unit_reducer) 0 0 1 0
      99 11 97 8 100 11 declaration_toks (9, 9, 10, at, tt) (10, 10, 11, at, tt) (53, 9, 11, at, tt)
      declared refl refl refl refl refl

name_type-Spells_example :
    (name_type (codes "int8") atoi (codes "interval") ≡ integer_type 0 101)
    ↔ Spells (codes "int8") atoi (codes "interval") (integer_type 0 101)
name_type-Spells_example =
    name_type-Spells (codes "int8") atoi (codes "interval") (integer_type 0 101)
