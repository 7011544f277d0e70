-- ===== src/Client/CommandLine/Tests.antt =====
-- Command lines.
use minifilter_monitor.Common.{◌≡◌, refl, true, false, some, [], ◌∷◌, ◌⊎◌, All, codes}
use minifilter_monitor.Client.CommandLine.{
  Parameters, parse_parameters, parsed, refused, is_switch, validate_parameters, find_switch,
  take_values,
}
use minifilter_monitor.Client.CommandLine.Parsing.{
  IsLower, command_line, parse_parameters_ends, parse-command_line,
}

-- A switch is taken as the value of /f.
switch_as_file :
    parse_parameters (λ c. c) (codes "/f" ∷ codes "/s" ∷ [])
    ≡ parsed (record { file = some (codes "/s"); volumes = []; split = false; help = false })
unfolding parse_parameters find_switch take_values
switch_as_file = refl

no_volume : parse_parameters (λ c. c) (codes "/v" ∷ codes "/s" ∷ []) ≡ refused
unfolding parse_parameters find_switch take_values
no_volume = refl

identity-IsLower : IsLower (λ c. c)
identity-IsLower = record { slash = refl; question = refl; f = refl; s = refl; v = refl }

parse_parameters_ends_example :
    (parse_parameters (λ c. c) (codes "/v" ∷ codes "c:" ∷ []) ≡ refused)
    ⊎ ((p : Parameters) × (parse_parameters (λ c. c) (codes "/v" ∷ codes "c:" ∷ []) ≡ parsed p)
        × All (λ v. is_switch v ≡ false) p.volumes)
parse_parameters_ends_example = parse_parameters_ends (λ c. c) (codes "/v" ∷ codes "c:" ∷ [])

parse-command_line_example :
    let p : Parameters = record {
      file = some (codes "out.csv");
      volumes = codes "c:" ∷ [];
      split = true;
      help = false;
    } in
    (parse_parameters (λ c. c) (command_line (codes "out.csv") (codes "c:" ∷ []) true) ≡ parsed p)
    × (validate_parameters p ≡ true)
parse-command_line_example =
    parse-command_line (λ c. c) (codes "out.csv") (codes "c:" ∷ []) true identity-IsLower (refl, tt)
