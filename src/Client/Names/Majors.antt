-- ===== src/Client/Names/Majors.antt =====
-- RenderMajorFunction of MiniMonClient/src/trace/names.cpp: the column tells the operation.
use minifilter_monitor.Common.{
  ℕ, zero, suc, ◌+◌, ◌-◌, ◌*◌, ◌<◌, ◌≡◌, refl, ap, sym, ◌∙◌, Bool, true, false, ◌&&◌, List, [], ◌∷◌,
  ◌==◌, ==_iff, ltb, arith, if◌then◌else◌,
}
use minifilter_monitor.Client.Text.{format_hex}
use minifilter_monitor.Client.Names.{Case, switch}
use minifilter_monitor.Client.Names.Operations.{major_function_names, render_major_function}

same_text : List ℕ → List ℕ → Bool
same_text [] [] = true
same_text (c ∷ s) (d ∷ t) = c == d && same_text s t
same_text s t = false

hex_value : ℕ → ℕ
hex_value c = if ltb c b'A' then c - b'0' else c - b'A' + 10

hex_number : ℕ → List ℕ → ℕ
unfolding hex_value
hex_number acc [] = acc
hex_number acc (c ∷ s) = hex_number (acc * 16 + hex_value c) s

-- A reader of the column: a name of the table, or two hexadecimal digits.
read_major : List Case → List ℕ → ℕ
unfolding same_text hex_number
read_major [] text = hex_number 0 text
read_major (c ∷ cases) text =
    let rest = read_major cases text in if same_text text c.label then c.value else rest

-- The codes below a bound, one after the other.
holds_below : (ℕ → Bool) → ℕ → Bool
holds_below test zero = true
holds_below test (suc bound) = holds_below test bound && test bound

holds_below-lt :
    (test : ℕ → Bool) (bound code : ℕ)
    → code < bound
    → holds_below test bound ≡ true
    → test code ≡ true
unfolding holds_below
holds_below-lt test zero code small all = absurd (omega arith)
holds_below-lt test (suc bound) code small all = ground (arith, holds_below-lt test bound code, all)

reads_back : ℕ → Bool
reads_back major = read_major major_function_names (render_major_function major) == major

all_read_back : holds_below reads_back 256 ≡ true
unfolding holds_below reads_back read_major render_major_function switch format_hex
all_read_back = refl

read_major-render :
    (major : ℕ)
    → major < 256
    → read_major major_function_names (render_major_function major) ≡ major
unfolding reads_back
read_major-render major small =
    (==_iff _ _).0 (holds_below-lt reads_back 256 major small all_read_back)

-- Two major function codes, bytes both, that are printed alike are the same code: no two names of
-- the table are equal, and none looks like the hexadecimal digits of a code without a name.
pub render_major_function-injective :
    (major other : ℕ)
    → major < 256
    → other < 256
    → render_major_function major ≡ render_major_function other
    → major ≡ other
render_major_function-injective major other p q same =
    sym (read_major-render major p)
    ∙ ap (read_major major_function_names) same
    ∙ read_major-render other q
