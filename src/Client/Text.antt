-- ===== src/Client/Text.antt =====
-- MiniMonClient/src/text.h: strings of wchar_t, as lists of code units, and the hexadecimal forms of
-- std::format that the client prints.
pub mod Laws
mod Tests
use minifilter_monitor.Common.{
  ℕ, zero, suc, ◌+◌, ◌-◌, ◌/◌, ◌%◌, Bool, true, false, List, [], ◌∷◌, ◌++◌, length, replicate, ltb,
  ◌==◌, codes, if◌then◌else◌, concat_map,
}

-- text::Extract: what stands before the first NUL of a buffer, or all of it.
unfoldable pub extract : List ℕ → List ℕ
extract [] = []
extract (c ∷ s) = if c == 0 then [] else c ∷ extract s

abbrev pub hex_digit : ℕ → ℕ
hex_digit d = if ltb d 10 then b'0' + d else b'A' + (d - 10)

-- text::ConvertFromAscii: a byte of 0x80 or more becomes \xNN.
abbrev pub convert_byte : ℕ → List ℕ
convert_byte byte =
    if ltb byte 0x80
    then byte ∷ []
    else b'\\' ∷ b'x' ∷ hex_digit (byte / 16) ∷ hex_digit (byte % 16) ∷ []

unfoldable pub convert_from_ascii : List ℕ → List ℕ
convert_from_ascii s = concat_map convert_byte s

abbrev pub truncation_mark : List ℕ
truncation_mark = codes "..."

unfoldable pub mark_truncated : List ℕ → Bool → List ℕ
mark_truncated value truncated = if truncated then value ++ truncation_mark else value

-- The hexadecimal digits of a number, at least one, with fuel for the number of digits.
unfoldable pub hex_digits : ℕ → ℕ → List ℕ
hex_digits zero n = []
hex_digits (suc fuel) n =
    let high = hex_digits fuel (n / 16) in
    (if n / 16 == 0 then [] else high) ++ (hex_digit (n % 16) ∷ [])

-- {:0wX} of a 64-bit value: its digits, padded to `w` places.
unfoldable pub format_hex : ℕ → ℕ → List ℕ
unfolding hex_digits
format_hex w n = let digits = hex_digits 16 n in replicate (w - length digits) b'0' ++ digits
