-- ===== src/Client/CommandLine/Parsing.antt =====
-- ParseParameters of MiniMonClient/src/main.cpp.
use minifilter_monitor.Common.{
  ℕ, zero, suc, ◌≤◌, ◌≡◌, refl, Bool, true, false, not, List, [], ◌∷◌, ◌++◌, arith, some, is_some,
  is_empty, length, codes, All, Bool-cases, inl, inr, ◌⊎◌,
}
use minifilter_monitor.Client.CommandLine.{
  Parameters, no_parameters, is_switch, take_values, Parsed, refused, parsed, Switch, split_flag,
  help_flag, file_option, volumes_list, unknown, find_switch, parse_argument, parse_loop,
  parse_parameters, validate_parameters,
}

take_values_lem :
    (args : List (List ℕ))
    → let (values, rest) = take_values args in
      (length rest ≤ length args) × All (λ v. is_switch v ≡ false) values
unfolding take_values
take_values_lem [] = (omega arith, tt)
take_values_lem (a ∷ args) =
    let (shorter, plain) = take_values_lem args in
    elim (Bool-cases (is_switch a)) [
      | inl switch ↦ rw switch (omega arith, tt)
      | inr value ↦ rw value (omega (arith, shorter), (value, plain))
    ]

-- Each argument is refused or read, and no volume is a switch.
Reads : Parsed → Type 0
Reads r =
    (r ≡ refused) ⊎ ((p : Parameters) × (r ≡ parsed p) × All (λ v. is_switch v ≡ false) p.volumes)

parse_argument-Reads :
    (next : List (List ℕ) → Parameters → Parsed) (switch : Switch) (args : List (List ℕ))
    (p : Parameters)
    → ((rest : List (List ℕ)) (q : Parameters)
        → length rest ≤ length args
        → All (λ v. is_switch v ≡ false) q.volumes
        → Reads (next rest q))
    → All (λ v. is_switch v ≡ false) p.volumes
    → Reads (parse_argument next switch args p)
unfolding parse_argument Reads
parse_argument-Reads next split_flag args p h plain = elim (Bool-cases p.split) [
  | inl again ↦ rw again (inl refl)
  | inr first ↦ rw first (h args (record p { split = true }) (omega arith) plain)
]
parse_argument-Reads next help_flag args p h plain = elim (Bool-cases p.help) [
  | inl again ↦ rw again (inl refl)
  | inr first ↦ rw first (h args (record p { help = true }) (omega arith) plain)
]
parse_argument-Reads next file_option [] p h plain = inl refl
parse_argument-Reads next file_option (value ∷ args) p h plain =
    elim (Bool-cases (is_some p.file)) [
      | inl again ↦ rw again (inl refl)
      | inr first ↦ rw first (h args (record p { file = some value }) (omega arith) plain)
    ]
parse_argument-Reads next volumes_list args p h plain =
    let (shorter, values) = take_values_lem args in
    elim (Bool-cases (is_empty p.volumes)) [
      | inr again ↦ rw again (inl refl)
      | inl first ↦ elim (Bool-cases (is_empty (take_values args).0)) [
        | inl nothing ↦ rw (first, nothing) (inl refl)
        | inr more ↦
            rw (first, more)
              (h (take_values args).1 (record p { volumes = (take_values args).0 }) shorter values)
      ]
    ]
parse_argument-Reads next unknown args p h plain = inl refl

parse_loop-Reads :
    (lower : ℕ → ℕ) (fuel : ℕ) (args : List (List ℕ)) (p : Parameters)
    → length args ≤ fuel
    → All (λ v. is_switch v ≡ false) p.volumes
    → Reads (parse_loop lower fuel args p)
unfolding parse_loop Reads
parse_loop-Reads lower fuel [] p h plain = inr (p, refl, plain)
parse_loop-Reads lower zero (a ∷ args) p h plain = absurd (omega (arith, h))
parse_loop-Reads lower (suc fuel) (a ∷ args) p h plain =
    parse_argument-Reads (λ rest q. parse_loop lower fuel rest q) (find_switch lower a) args p
      (λ rest q shorter v. parse_loop-Reads lower fuel rest q (omega (arith, shorter, h)) v) plain

-- ParseParameters comes to an end on every command line: it refuses it, or returns parameters none of
-- whose volumes is spelled like a switch.
pub parse_parameters_ends :
    (lower : ℕ → ℕ) (args : List (List ℕ))
    → (parse_parameters lower args ≡ refused)
      ⊎ ((p : Parameters) × (parse_parameters lower args ≡ parsed p)
          × All (λ v. is_switch v ≡ false) p.volumes)
unfolding parse_parameters Reads
parse_parameters_ends lower args =
    parse_loop-Reads lower (length args) args no_parameters (omega arith) tt

-- std::towlower leaves the characters of the switches alone.
pub record IsLower (lower : ℕ → ℕ) : Type 0 where
  pub slash : lower b'/' ≡ b'/'
  pub question : lower b'?' ≡ b'?'
  pub f : lower b'f' ≡ b'f'
  pub s : lower b's' ≡ b's'
  pub v : lower b'v' ≡ b'v'

find_file : (lower : ℕ → ℕ) → IsLower lower → find_switch lower (codes "/f") ≡ file_option
unfolding find_switch
find_file lower l = rw (l.slash, l.f, l.s, l.question) refl

find_volumes : (lower : ℕ → ℕ) → IsLower lower → find_switch lower (codes "/v") ≡ volumes_list
unfolding find_switch
find_volumes lower l = rw (l.slash, l.v, l.f, l.s, l.question) refl

find_split : (lower : ℕ → ℕ) → IsLower lower → find_switch lower (codes "/s") ≡ split_flag
unfolding find_switch
find_split lower l = rw (l.slash, l.s) refl

abbrev pub split_arguments : Bool → List (List ℕ)
split_arguments true = codes "/s" ∷ []
split_arguments false = []

abbrev pub volume_arguments : List (List ℕ) → List (List ℕ)
volume_arguments [] = []
volume_arguments (v ∷ vs) = codes "/v" ∷ v ∷ vs

take_values-append :
    (vs : List (List ℕ)) (split : Bool)
    → All (λ v. is_switch v ≡ false) vs
    → take_values (vs ++ split_arguments split) ≡ (vs, split_arguments split)
unfolding take_values
take_values-append [] true h = refl
take_values-append [] false h = refl
take_values-append (v ∷ vs) split h = rw (h.0, take_values-append vs split h.1) refl

-- The command line that the usage text describes.
abbrev pub command_line : List ℕ → List (List ℕ) → Bool → List (List ℕ)
command_line file volumes split =
    codes "/f" ∷ file ∷ (volume_arguments volumes ++ split_arguments split)

parse_split :
    (lower : ℕ → ℕ) (fuel : ℕ) (split : Bool) (p : Parameters)
    → IsLower lower
    → p.split ≡ false
    → parse_loop lower (suc fuel) (split_arguments split) p ≡ parsed (record p { split = split })
unfolding parse_loop
parse_split lower fuel true p l h = rw (find_split lower l, h) refl
parse_split lower fuel false p l h = rw h refl

-- A command line with a file, any volumes that are not spelled like switches, and the split flag or
-- not, is read as exactly these; it is valid unless the file is the empty text.
pub parse-command_line :
    (lower : ℕ → ℕ) (file : List ℕ) (volumes : List (List ℕ)) (split : Bool)
    → IsLower lower
    → All (λ v. is_switch v ≡ false) volumes
    → let p : Parameters = record {
      file = some file;
      volumes = volumes;
      split = split;
      help = false;
    } in
      (parse_parameters lower (command_line file volumes split) ≡ parsed p)
      × (validate_parameters p ≡ not (is_empty file))
unfolding parse_parameters parse_loop validate_parameters
parse-command_line lower file [] true l h = (rw (find_file lower l, find_split lower l) refl, refl)
parse-command_line lower file [] false l h = (rw (find_file lower l) refl, refl)
parse-command_line lower file (v ∷ vs) split l h = (
  rw (find_file lower l, find_volumes lower l, take_values-append (v ∷ vs) split h)
      (parse_split lower (suc (length (vs ++ split_arguments split))) split
        (record { file = some file; volumes = v ∷ vs; split = false; help = false }) l refl),
  refl,
)
