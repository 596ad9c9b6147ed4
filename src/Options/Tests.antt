-- ===== src/Options/Tests.antt =====
-- The theorems on src/options.c at concrete command lines.
use low.Prelude.{ℕ, List, [], ◌∷◌, ◌⊎◌, Option, some, Bytes, codes, ◌≡◌, refl}
use low.Options.Defs.{Message, done, exits, parse_options}
use low.Options.Print.{
  Item, positional, outputs, separator, print_items, print_ending, all_plain, positionals,
  output_of, behind_ending, last_name, parse_options-print,
}
use low.Options.Ends.{parse_options-ends}

-- `lowc a.low -o a.ll -- -b.low`
abbrev items : List Item
items = positional (codes "a.low") ∷ outputs (codes "a.ll" ∷ []) ∷ []

parse_options-print_example :
    parse_options
      (codes "lowc")
      (codes "a.low" ∷ codes "-o" ∷ codes "a.ll" ∷ codes "--" ∷ codes "-b.low" ∷ [])
    ≡ done (3, codes "lowc" ∷ codes "a.low" ∷ codes "-b.low" ∷ [], some (codes "a.ll"))
unfolding print_items print_ending all_plain positionals output_of behind_ending last_name
parse_options-print_example =
    parse_options-print (codes "lowc") items (separator (codes "-b.low" ∷ [])) refl

parse_options-ends_example :
    ((left : ℕ × List Bytes × Option Bytes) × (parse_options
          (codes "lowc")
          (codes "a.low" ∷ codes "-o" ∷ [])
        ≡ done left))
    ⊎ ((m : Message) × (parse_options (codes "lowc") (codes "a.low" ∷ codes "-o" ∷ []) ≡ exits m))
parse_options-ends_example = parse_options-ends (codes "lowc") (codes "a.low" ∷ codes "-o" ∷ [])
