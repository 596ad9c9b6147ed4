-- ===== src/Options/Print.antt =====
-- Command lines that `parse_options` of src/options.c accepts, and that its loop ends on all.
use low.Prelude.{
  ℕ, zero, suc, ◌≤◌, Bool, true, false, List, [], ◌∷◌, ◌++◌, Option, none, some, ◌==◌,
  if◌then◌else◌, Bytes, length, replicate, length-append, ◌≡◌, refl, sym, ap, arith, inl, inr,
  Bool-cases,
}
use mathlib.Core.List.{append-nil, append_assoc}
use low.Options.Defs.{
  done, Scan, hyphen, letter_o, byte_at, parse_short_option, short_options, scan_argument,
  scan_arguments, parse_options,
}

-- A positional argument, or the names for as many letters `o` behind one hyphen: a hyphen alone
-- has no names.
pub data Item : Type 0 where
  positional : Bytes → Item
  outputs : List Bytes → Item

pub data Ending : Type 0 where
  at_end : Ending
  separator : List Bytes → Ending

unfoldable pub print_items : List Item → List Bytes → List Bytes
print_items [] rest = rest
print_items (positional arg ∷ items) rest = arg ∷ print_items items rest
print_items (outputs names ∷ items) rest =
    (hyphen ∷ replicate (length names) letter_o) ∷ (names ++ print_items items rest)

unfoldable pub print_ending : Ending → List Bytes
print_ending at_end = []
print_ending (separator rest) = (hyphen ∷ hyphen ∷ []) ∷ rest

unfoldable pub positionals : List Item → List Bytes
positionals [] = []
positionals (positional arg ∷ items) = arg ∷ positionals items
positionals (outputs names ∷ items) = positionals items

unfoldable pub behind_ending : Ending → List Bytes
behind_ending at_end = []
behind_ending (separator rest) = rest

-- The last of the names, or the one before if there is none.
unfoldable pub last_name : List Bytes → Option Bytes → Option Bytes
last_name [] output_name = output_name
last_name (name ∷ names) output_name = last_name names (some name)

unfoldable pub output_of : List Item → Option Bytes → Option Bytes
output_of [] output_name = output_name
output_of (positional arg ∷ items) output_name = output_of items output_name
output_of (outputs names ∷ items) output_name = output_of items (last_name names output_name)

-- No positional argument begins with a hyphen.
unfoldable pub all_plain : List Item → Bool
all_plain [] = true
all_plain (positional arg ∷ items) = if byte_at 0 arg == hyphen then false else all_plain items
all_plain (outputs names ∷ items) = all_plain items

short_options-names :
    (names behind kept : List Bytes) (output_name : Option Bytes)
    → short_options
        (replicate (length names) letter_o)
        (record { behind = names ++ behind; kept = kept; output_name = output_name })
      ≡ done (record { behind = behind; kept = kept; output_name = last_name names output_name })
unfolding short_options parse_short_option last_name
short_options-names [] behind kept output_name = refl
short_options-names (name ∷ names) behind kept output_name =
    short_options-names names behind kept (some name)

scan_argument-names :
    (names behind kept : List Bytes) (output_name : Option Bytes)
    → scan_argument
        (hyphen ∷ replicate (length names) letter_o)
        (record { behind = names ++ behind; kept = kept; output_name = output_name })
      ≡ done (record { behind = behind; kept = kept; output_name = last_name names output_name })
unfolding scan_argument last_name
scan_argument-names [] behind kept output_name = short_options-names [] behind kept output_name
scan_argument-names (name ∷ names) behind kept output_name =
    short_options-names (name ∷ names) behind kept output_name

scan_argument-plain :
    (arg : Bytes) (s : Scan)
    → (byte_at 0 arg == hyphen) ≡ false
    → scan_argument arg s ≡ done (record s { kept = s.kept ++ (arg ∷ []) })
unfolding scan_argument
scan_argument-plain arg s h = rw h

scan_arguments-ending :
    (fuel : ℕ) (ending : Ending) (kept : List Bytes) (output_name : Option Bytes)
    → length (print_ending ending) ≤ fuel
    → scan_arguments fuel (print_ending ending) kept output_name
      ≡ done
          (record { behind = []; kept = kept ++ behind_ending ending; output_name = output_name })
unfolding print_ending scan_arguments scan_argument behind_ending
scan_arguments-ending fuel at_end kept output_name h =
    ap (λ l. done (record { behind = []; kept = l; output_name = output_name }))
      (sym (append-nil kept))
scan_arguments-ending zero (separator rest) kept output_name h = absurd (omega arith)
scan_arguments-ending (suc fuel) (separator rest) kept output_name h = refl

scan_arguments-items :
    (items : List Item) (ending : Ending) (fuel : ℕ) (kept : List Bytes)
    (output_name : Option Bytes)
    → all_plain items ≡ true
    → length (print_items items (print_ending ending)) ≤ fuel
    → scan_arguments fuel (print_items items (print_ending ending)) kept output_name
      ≡ done (record {
        behind = [];
        kept = kept ++ (positionals items ++ behind_ending ending);
        output_name = output_of items output_name;
      })
unfolding print_items all_plain positionals output_of scan_arguments
scan_arguments-items [] ending fuel kept output_name plain h =
    scan_arguments-ending fuel ending kept output_name h
scan_arguments-items (positional arg ∷ items) ending zero kept output_name plain h =
    absurd (omega arith)
scan_arguments-items (outputs names ∷ items) ending zero kept output_name plain h =
    absurd (omega arith)
scan_arguments-items (positional arg ∷ items) ending (suc fuel) kept output_name plain h =
    elim (Bool-cases (byte_at 0 arg == hyphen)) [
      | inl e ↦ absurd (ground arith)
      | inr e ↦
          let rest : all_plain items ≡ true = ground arith in
          rw (
            scan_argument-plain arg
                (record {
                  behind = print_items items (print_ending ending);
                  kept = kept;
                  output_name = output_name;
                })
                e,
            scan_arguments-items items ending fuel (kept ++ (arg ∷ [])) output_name rest
                (omega arith),
            append_assoc kept (arg ∷ []) (positionals items ++ behind_ending ending),
          )
    ]
scan_arguments-items (outputs names ∷ items) ending (suc fuel) kept output_name plain h =
    rw (scan_argument-names names (print_items items (print_ending ending)) kept output_name) (
      scan_arguments-items items ending fuel kept (last_name names output_name) plain
        (omega (arith, length-append names (print_items items (print_ending ending)))))

-- A command line of positional arguments, none of which begins with a hyphen, of groups of `-o`
-- with as many names as letters, and possibly of a double hyphen with anything behind it, is
-- accepted: what is left are the command, the positional arguments and those behind the double
-- hyphen, in their order and counted, and the output is named by the last of the names.
pub parse_options-print :
    (command : Bytes) (items : List Item) (ending : Ending)
    → all_plain items ≡ true
    → parse_options command (print_items items (print_ending ending))
      ≡ done (
        suc (length (positionals items ++ behind_ending ending)),
        command ∷ (positionals items ++ behind_ending ending),
        output_of items none,
      )
unfolding parse_options
parse_options-print command items ending plain = rw (
    scan_arguments-items items ending (length (print_items items (print_ending ending))) [] none
      plain (omega arith))
