-- ===== src/Client/Format/Tests.antt =====
-- Lines of format.cpp, and its theorems on a field with a quote, a semicolon and a line break.
use minifilter_monitor.Common.{ℕ, ◌≡◌, refl, List, [], ◌∷◌, ◌++◌, codes, All}
use minifilter_monitor.Client.Text.{format_hex}
use minifilter_monitor.Client.Format.{
  escape_character, escape_csv_field, render_line, column_labels, get_header,
}
use minifilter_monitor.Client.Format.Reader.{read_row}
use minifilter_monitor.Client.Format.RoundTrip.{read-render_line}
use minifilter_monitor.Client.Format.Lines.{IsPrintable, render_line-one_line}

abbrev awkward : List ℕ
awkward = codes "a;" ++ (b'"' ∷ b'\n' ∷ [])

escaped : escape_csv_field awkward ≡ codes "\"a;\"\"\\x0A\""
unfolding escape_csv_field escape_character format_hex
escaped = refl

-- The header reads back as the labels of the 34 columns.
read_header : read_row get_header ≡ column_labels
unfolding read_row get_header
read_header = refl

read-render_line_example : read_row (render_line (awkward ∷ [] ∷ [])) ≡ codes "a;\"\\x0A" ∷ [] ∷ []
read-render_line_example = read-render_line awkward ([] ∷ [])

render_line-one_line_example :
    (body : List ℕ) × (render_line (awkward ∷ [] ∷ []) ≡ body ++ (b'\n' ∷ []))
    × All IsPrintable body
render_line-one_line_example = render_line-one_line awkward ([] ∷ [])
