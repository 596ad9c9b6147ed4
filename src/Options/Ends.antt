-- ===== src/Options/Ends.antt =====
-- `parse_options` of src/options.c returns or exits on every command line.
use low.Prelude.{
  ℕ, zero, suc, ◌≤◌, List, [], ◌∷◌, ◌++◌, Option, none, some, ◌==◌, ◌⊎◌, Bytes, length, drop, ◌≡◌,
  refl, arith, inl, inr, Bool-cases,
}
use low.Options.Defs.{
  Message, no_output_name, unknown_short, unknown_long, Outcome, done, exits, Scan, hyphen,
  letter_o, byte_at, parse_short_option, short_options, scan_argument, scan_arguments,
  parse_options, parse_long_option,
}

-- A round leaves no more arguments than it found, or exits.
Shortens : Outcome Scan → List Bytes → Type 0
Shortens o behind =
    ((s : Scan) × (o ≡ done s) × (length s.behind ≤ length behind))
    ⊎ ((m : Message) × (o ≡ exits m))

parse_short_option-Shortens :
    (opt : ℕ) (behind kept : List Bytes) (output_name : Option Bytes)
    → Shortens
        (parse_short_option opt
          (record { behind = behind; kept = kept; output_name = output_name }))
        behind
unfolding Shortens parse_short_option
parse_short_option-Shortens opt [] kept output_name = elim (Bool-cases (opt == letter_o)) [
  | inl e ↦ inr (no_output_name, rw e)
  | inr e ↦ inr (unknown_short opt, rw e)
]
parse_short_option-Shortens opt (name ∷ behind) kept output_name =
    elim (Bool-cases (opt == letter_o)) [
      | inl e ↦
          inl (record { behind = behind; kept = kept; output_name = some name }, rw e, omega arith)
      | inr e ↦ inr (unknown_short opt, rw e)
    ]

short_options-Shortens : (text : Bytes) (s : Scan) → Shortens (short_options text s) s.behind
unfolding Shortens short_options
short_options-Shortens [] s = inl (s, refl, omega arith)
short_options-Shortens (c ∷ text) s =
    elim (parse_short_option-Shortens c s.behind s.kept s.output_name) [
      | inr h ↦ let (m, e) = h in inr (m, rw e)
      | inl h ↦
          let (s', e, shorter) = h in
          elim (short_options-Shortens text s') [
            | inr h' ↦ let (m, e') = h' in inr (m, rw (e, e'))
            | inl h' ↦ let (s'', e', shorter') = h' in inl (s'', rw (e, e'), omega arith)
          ]
    ]

scan_argument-Shortens : (arg : Bytes) (s : Scan) → Shortens (scan_argument arg s) s.behind
unfolding scan_argument Shortens parse_long_option
scan_argument-Shortens arg s = elim (Bool-cases (byte_at 0 arg == hyphen)) [
  | inr e ↦ inl (record s { kept = s.kept ++ (arg ∷ []) }, rw e, omega arith)
  | inl e ↦ elim (Bool-cases (byte_at 1 arg == hyphen)) [
    | inr e' ↦ rw (e, e') (short_options-Shortens (drop 1 arg) s)
    | inl e' ↦ elim (Bool-cases (byte_at 2 arg == 0)) [
      | inl e'' ↦
          inl (record s { behind = []; kept = s.kept ++ s.behind }, rw (e, e', e''), omega arith)
      | inr e'' ↦ inr (unknown_long (drop 2 arg), rw (e, e', e''))
    ]
  ]
]

-- A loop that is given as many rounds as there are arguments ends.
scan_arguments-ends :
    (fuel : ℕ) (arguments kept : List Bytes) (output_name : Option Bytes)
    → length arguments ≤ fuel
    → ((s : Scan) × (scan_arguments fuel arguments kept output_name ≡ done s))
      ⊎ ((m : Message) × (scan_arguments fuel arguments kept output_name ≡ exits m))
unfolding scan_arguments Shortens
scan_arguments-ends fuel [] kept output_name h =
    inl (record { behind = []; kept = kept; output_name = output_name }, refl)
scan_arguments-ends zero (arg ∷ behind) kept output_name h = absurd (omega arith)
scan_arguments-ends (suc fuel) (arg ∷ behind) kept output_name h =
    elim (scan_argument-Shortens arg
      (record { behind = behind; kept = kept; output_name = output_name })) [
        | inr h' ↦ let (m, e) = h' in inr (m, rw e)
        | inl h' ↦
            let (s, e, shorter) = h' in
            elim (scan_arguments-ends fuel s.behind s.kept s.output_name (omega arith)) [
              | inl h'' ↦ let (s', e') = h'' in inl (s', rw (e, e'))
              | inr h'' ↦ let (m, e') = h'' in inr (m, rw (e, e'))
            ]
      ]

-- On every command line `parse_options` returns, or exits with a message: the loop over the
-- arguments ends after as many rounds as there are arguments.
pub parse_options-ends :
    (command : Bytes) (arguments : List Bytes)
    → ((left : ℕ × List Bytes × Option Bytes) × (parse_options command arguments ≡ done left))
      ⊎ ((m : Message) × (parse_options command arguments ≡ exits m))
unfolding parse_options
parse_options-ends command arguments =
    elim (scan_arguments-ends (length arguments) arguments [] none (omega arith)) [
      | inl h ↦ let (s, e) = h in inl ((suc (length s.kept), command ∷ s.kept, s.output_name), rw e)
      | inr h ↦ let (m, e) = h in inr (m, rw e)
    ]
