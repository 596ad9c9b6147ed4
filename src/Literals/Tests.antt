-- ===== src/Literals/Tests.antt =====
-- The theorems on the literals of src/grammar_rules.c at concrete texts.
use low.Prelude.{[], ◌∷◌, codes, length, ◌≡◌, refl}
use low.Literals.Defs.{literal, apostrophe, quote, primary_expr_string, extract_literal}
use low.Literals.Strings.{escape, escape_all, no_backslash, primary_expr_string-escape_all}
use low.Literals.Numbers.{holds, extract_literal_terminated}

-- `"a\n"`, which stands for `a` and a line feed.
primary_expr_string-escape_all_example :
    primary_expr_string (quote ∷ 97 ∷ 92 ∷ 110 ∷ quote ∷ []) ≡ literal (97 ∷ 10 ∷ [])
unfolding no_backslash escape_all escape
primary_expr_string-escape_all_example = primary_expr_string-escape_all (97 ∷ 10 ∷ []) refl

extract_literal_terminated_example :
    (length (extract_literal (codes "42")) ≡ 2)
    × (holds 0 (extract_literal (codes "42")) ≡ holds apostrophe (codes "42"))
unfolding holds
extract_literal_terminated_example = extract_literal_terminated (codes "42") refl
