-- ===== src/Client/Number.antt =====
-- The numbers that std::format and std::to_wstring print, in decimal and in hexadecimal.
use minifilter_monitor.Common.{
  ℕ, zero, suc, ◌+◌, ◌*◌, ◌-◌, ◌/◌, ◌%◌, ◌^◌, List, [], ◌∷◌, ◌++◌, ◌==◌, ltb, codes, if◌then◌else◌,
}
use minifilter_monitor.Client.Text.{format_hex}

-- The decimal digits of a number, at least one, with fuel for the number of digits.
unfoldable pub decimal_digits : ℕ → ℕ → List ℕ
decimal_digits zero n = []
decimal_digits (suc fuel) n =
    let high = decimal_digits fuel (n / 10) in
    (if n / 10 == 0 then [] else high) ++ ((b'0' + n % 10) ∷ [])

-- A 64-bit value without a sign has at most 20 digits.
unfoldable pub to_wstring : ℕ → List ℕ
unfolding decimal_digits
to_wstring n = decimal_digits 20 n

-- An int64_t, given by its 64 bits.
unfoldable pub to_wstring_signed : ℕ → List ℕ
unfolding to_wstring
to_wstring_signed n = if ltb n (2 ^ 63) then to_wstring n else b'-' ∷ to_wstring (2 ^ 64 - n)

-- {:X} and 0x{:X}.
unfoldable pub hex : ℕ → List ℕ
unfolding format_hex
hex n = format_hex 0 n

unfoldable pub prefixed_hex : ℕ → List ℕ
unfolding hex
prefixed_hex n = codes "0x" ++ hex n

-- The number that bytes stand for, the lowest byte first.
abbrev pub little_endian : List ℕ → ℕ
little_endian [] = 0
little_endian (b ∷ bytes) = b + 256 * little_endian bytes
