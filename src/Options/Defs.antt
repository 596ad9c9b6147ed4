-- ===== src/Options/Defs.antt =====
-- src/options.c. `argi` is the list of the arguments from it to `arge`, and `argo` the list of those
-- written so far. `argo` does not overtake `argi`, so that no argument is overwritten unread. A
-- call of `exit(1)` is `exits` with what the message says.
use low.Prelude.{
  ℕ, zero, suc, List, [], ◌∷◌, ◌++◌, Option, none, some, ◌==◌, if◌then◌else◌, Bytes, length, drop,
}

pub data Message : Type 0 where
  no_output_name : Message
  unknown_short : ℕ → Message
  unknown_long : Bytes → Message

-- `unfinished`: the rounds given to a loop were too few.
pub data Outcome {ℓ} (A : Type ℓ) : Type ℓ where
  done : A → Outcome A
  exits : Message → Outcome A
  unfinished : Outcome A

infixl 5 ◌>>=◌
abbrev pub ◌>>=◌ {ℓ κ} : {A : Type ℓ} {B : Type κ} → Outcome A → (A → Outcome B) → Outcome B
done a >>= f = f a
exits m >>= f = exits m
unfinished >>= f = unfinished

-- `argi` behind the current argument, `argo`, and the option `output_name`, null if not given.
pub record Scan : Type 0 where
  pub behind : List Bytes
  pub kept : List Bytes
  pub output_name : Option Bytes

abbrev pub hyphen : ℕ
hyphen = 45

abbrev pub letter_o : ℕ
letter_o = 111

-- The byte at an index of a string, with the 0 that ends it.
abbrev pub byte_at : ℕ → Bytes → ℕ
byte_at i [] = 0
byte_at zero (c ∷ text) = c
byte_at (suc i) (c ∷ text) = byte_at i text

unfoldable pub parse_short_option : ℕ → Scan → Outcome Scan
parse_short_option opt s =
    if opt == letter_o
    then elim s.behind [
      | [] ↦ exits no_output_name
      | name ∷ behind ↦ done (record s { behind = behind; output_name = some name })
    ]
    else exits (unknown_short opt)

unfoldable pub parse_long_option : Bytes → Scan → Outcome Scan
parse_long_option opt s = exits (unknown_long opt)

-- `for (c = arg+1; *c; ++c)`.
unfoldable pub short_options : Bytes → Scan → Outcome Scan
short_options [] s = done s
short_options (c ∷ text) s = parse_short_option c s >>= λ s'. short_options text s'

-- One round of the loop over the arguments. After a double hyphen the remaining arguments are
-- copied, which the source does behind the loop.
unfoldable pub scan_argument : Bytes → Scan → Outcome Scan
unfolding short_options parse_long_option
scan_argument arg s =
    if byte_at 0 arg == hyphen
    then (if byte_at 1 arg == hyphen
        then (if byte_at 2 arg == 0
            then done (record s { behind = []; kept = s.kept ++ s.behind })
            else parse_long_option (drop 2 arg) s)
        else short_options (drop 1 arg) s)
    else done (record s { kept = s.kept ++ (arg ∷ []) })

-- The loop, with a number of rounds; each takes at least one argument.
unfoldable pub scan_arguments : ℕ → List Bytes → List Bytes → Option Bytes → Outcome Scan
unfolding scan_argument
scan_arguments fuel [] kept output_name =
    done (record { behind = []; kept = kept; output_name = output_name })
scan_arguments zero (arg ∷ behind) kept output_name = unfinished
scan_arguments (suc fuel) (arg ∷ behind) kept output_name =
    scan_argument arg (record { behind = behind; kept = kept; output_name = output_name }) >>= λ s.
    scan_arguments fuel s.behind s.kept s.output_name

-- The command is argv[0]. Returned are `*argc`, the arguments up to it, and `options.output_name`,
-- which is null at first.
unfoldable pub parse_options : Bytes → List Bytes → Outcome (ℕ × List Bytes × Option Bytes)
unfolding scan_arguments
parse_options command arguments = scan_arguments (length arguments) arguments [] none >>= λ s.
    done (suc (length s.kept), command ∷ s.kept, s.output_name)
