-- ===== src/Client/CommandLine.antt =====
-- MiniMonClient/src/main.cpp: ParseParameters and ValidateParameters. An argument is its text;
-- `lower` is std::towlower.
pub mod Parsing
mod Tests
use minifilter_monitor.Common.{
  ℕ, zero, suc, Bool, true, false, not, List, [], ◌∷◌, ◌++◌, ◌&&◌, ◌==◌, Option, none, some,
  is_some, is_empty, length, codes, if◌then◌else◌,
}

pub record Parameters : Type 0 where
  pub file : Option (List ℕ)
  pub volumes : List (List ℕ)
  pub split : Bool
  pub help : Bool

abbrev pub no_parameters : Parameters
no_parameters = record { file = none; volumes = []; split = false; help = false }

-- std::ranges::equal under towlower.
unfoldable pub is_same_name : (ℕ → ℕ) → List ℕ → List ℕ → Bool
is_same_name lower [] [] = true
is_same_name lower [] (d ∷ name) = false
is_same_name lower (c ∷ arg) [] = false
is_same_name lower (c ∷ arg) (d ∷ name) =
    let rest = is_same_name lower arg name in lower c == lower d && rest

abbrev pub is_switch : List ℕ → Bool
is_switch [] = false
is_switch (c ∷ arg) = c == b'/'

-- The loop over a list's values: those before the next switch, and what follows.
unfoldable pub take_values : List (List ℕ) → List (List ℕ) × List (List ℕ)
take_values [] = ([], [])
take_values (arg ∷ args) =
    let (values, rest) = take_values args in
    if is_switch arg then ([], arg ∷ args) else (arg ∷ values, rest)

-- What ParseParameters returns: std::nullopt or the parameters. `exhausted` is the fuel's end.
pub data Parsed : Type 0 where
  refused exhausted : Parsed
  parsed : Parameters → Parsed

-- What the tables say of an argument.
pub data Switch : Type 0 where
  split_flag help_flag file_option volumes_list unknown : Switch

unfoldable pub find_switch : (ℕ → ℕ) → List ℕ → Switch
unfolding is_same_name
find_switch lower arg =
    if is_same_name lower arg (codes "/s")
    then split_flag
    else if is_same_name lower arg (codes "/?")
    then help_flag
    else if is_same_name lower arg (codes "/f")
    then file_option
    else if is_same_name lower arg (codes "/v")
    then volumes_list
    else unknown

-- The body for one argument, with the loop on what follows.
unfoldable pub parse_argument :
    (List (List ℕ) → Parameters → Parsed) → Switch → List (List ℕ) → Parameters → Parsed
parse_argument next split_flag args p =
    if p.split then refused else next args (record p { split = true })
parse_argument next help_flag args p =
    if p.help then refused else next args (record p { help = true })
parse_argument next file_option [] p = refused
parse_argument next file_option (value ∷ args) p =
    if is_some p.file then refused else next args (record p { file = some value })
parse_argument next volumes_list args p =
    let (values, rest) = take_values args in
    if not (is_empty p.volumes)
    then refused
    else if is_empty values
    then refused
    else next rest (record p { volumes = values })
parse_argument next unknown args p = refused

-- The loop of ParseParameters over the arguments that are left.
unfoldable pub parse_loop : (ℕ → ℕ) → ℕ → List (List ℕ) → Parameters → Parsed
unfolding parse_argument
parse_loop lower fuel [] p = parsed p
parse_loop lower zero (arg ∷ args) p = exhausted
parse_loop lower (suc fuel) (arg ∷ args) p =
    parse_argument (λ rest q. parse_loop lower fuel rest q) (find_switch lower arg) args p

-- Each round takes one argument at least.
unfoldable pub parse_parameters : (ℕ → ℕ) → List (List ℕ) → Parsed
unfolding parse_loop
parse_parameters lower args = parse_loop lower (length args) args no_parameters

unfoldable pub validate_parameters : Parameters → Bool
validate_parameters p =
    if p.help
    then not (is_some p.file) && is_empty p.volumes && not p.split
    else elim (p.file) [ none ↦ false | some path ↦ not (is_empty path) ]
