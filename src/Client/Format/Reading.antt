-- ===== src/Client/Format/Reading.antt =====
-- What the reader makes of an escaped field, piece by piece.
use minifilter_monitor.Common.{
  ℕ, suc, ◌/◌, ◌%◌, ◌≤◌, ◌<◌, ◌≡◌, ◌≢◌, refl, sym, ap, ◌∙◌, true, false, List, [], ◌∷◌, ◌++◌, arith,
  All, All-append, ◌==◌, Bool-cases, inl, inr, any, ap₂, ==_iff, concat_map, if◌then◌else◌,
  append_assoc, append-nil,
}
use native.Mathlib.Decide.{dec_lt}
use minifilter_monitor.Client.Text.{hex_digit, hex_digits, format_hex}
use minifilter_monitor.Client.Format.{
  is_control_character, needs_escaping, needs_quoting, escape_character,
}
use minifilter_monitor.Client.Format.Reader.{start, plain, quoted, read}

-- A field as the reader sees it: a control character stands as \xNN.
abbrev pub visible_character : ℕ → List ℕ
visible_character c =
    if is_control_character c
    then b'\\' ∷ b'x' ∷ hex_digit (c / 16) ∷ hex_digit (c % 16) ∷ []
    else c ∷ []

abbrev pub visible : List ℕ → List ℕ
visible = concat_map visible_character

hex_digits_one : (f n : ℕ) → n < 16 → hex_digits (suc f) n ≡ hex_digit (n % 16) ∷ []
unfolding hex_digits
hex_digits_one f n h = ground arith

hex_digits_two :
    (f n : ℕ)
    → 16 ≤ n
    → n < 256
    → hex_digits (suc (suc f)) n ≡ hex_digit (n / 16) ∷ hex_digit (n % 16) ∷ []
unfolding hex_digits
hex_digits_two f n h k = ground arith

-- {:02X} of a byte has exactly two digits.
format_hex-byte : (c : ℕ) → c < 256 → format_hex 2 c ≡ hex_digit (c / 16) ∷ hex_digit (c % 16) ∷ []
unfolding format_hex
format_hex-byte c h = elim (dec_lt c 16) [
  | yes one ↦ ground (arith, hex_digits_one 15 c one)
  | no two ↦ ground (arith, hex_digits_two 14 c)
]

pub control-bounds :
    (c : ℕ)
    → is_control_character c ≡ true
    → (c < 256) × ((c == b'"') ≡ false) × ((c == b';') ≡ false)
control-bounds c h = ground arith

pub escape_character_lem : (c : ℕ) → (c == b'"') ≡ false → escape_character c ≡ visible_character c
unfolding escape_character
escape_character_lem c q = elim (Bool-cases (is_control_character c)) [
  | inl h ↦ rw (q, h, format_hex-byte c (control-bounds c h).0)
  | inr h ↦ rw (q, h)
]

pub escape-quote : escape_character b'"' ≡ b'"' ∷ b'"' ∷ []
unfolding escape_character
escape-quote = refl

-- A character that ends no field and opens no quote.
abbrev pub IsPlain : ℕ → Type 0
IsPlain c = (c ≢ b'"') × (c ≢ b';') × (c ≢ b'\n')

read-plain :
    (field l s : List ℕ) → All IsPlain l → read plain field (l ++ s) ≡ read plain (field ++ l) s
unfolding read
read-plain field [] s h = ap (λ f. read plain f s) (sym (append-nil field))
read-plain field (c ∷ l) s (h, hs) =
    ground (arith, read-plain (field ++ (c ∷ [])) l s hs, append_assoc field (c ∷ []) l)

pub read-start : (l s : List ℕ) → All IsPlain l → l ≢ [] → read start [] (l ++ s) ≡ read plain l s
unfolding read
read-start [] s h ne = absurd (ne refl)
read-start (c ∷ l) s (h, hs) ne = ground (arith, read-plain (c ∷ []) l s hs)

hex_digit-IsPlain : (d : ℕ) → IsPlain (hex_digit d)
hex_digit-IsPlain d = ground arith

-- A visible character is plain, unless it is a quote or a semicolon itself.
visible_character-IsPlain : (c : ℕ) → needs_quoting c ≡ false → All IsPlain (visible_character c)
visible_character-IsPlain c h = elim (Bool-cases (is_control_character c)) [
  | inl k ↦
      rw k (
        ground arith,
        (ground arith, (hex_digit-IsPlain (c / 16), (hex_digit-IsPlain (c % 16), tt))),
      )
  | inr k ↦ rw k (ground arith, tt)
]

visible_character-unquoted :
    (c : ℕ) → (c == b'"') ≡ false → All (λ x. x ≢ b'"') (visible_character c)
visible_character-unquoted c h = elim (Bool-cases (is_control_character c)) [
  | inl k ↦ rw k (
    ground arith,
    (ground arith, ((hex_digit-IsPlain (c / 16)).0, ((hex_digit-IsPlain (c % 16)).0, tt))),
  )
  | inr k ↦ rw k (ground arith, tt)
]

read-quoted :
    (field l s : List ℕ)
    → All (λ x. x ≢ b'"') l
    → read quoted field (l ++ s) ≡ read quoted (field ++ l) s
unfolding read
read-quoted field [] s h = ap (λ f. read quoted f s) (sym (append-nil field))
read-quoted field (c ∷ l) s (h, hs) =
    ground (arith, read-quoted (field ++ (c ∷ [])) l s hs, append_assoc field (c ∷ []) l)

-- What a quoted field holds for one character reads back as the character, made visible.
read-quoted_character :
    (c : ℕ) (field s : List ℕ)
    → read quoted field (escape_character c ++ s) ≡ read quoted (field ++ visible_character c) s
unfolding read
read-quoted_character c field s = elim (Bool-cases (c == b'"')) [
  | inl q ↦ rw ((==_iff c b'"').0 q, escape-quote) refl
  | inr n ↦
      rw (escape_character_lem c n)
        (read-quoted field (visible_character c) s (visible_character-unquoted c n))
]

pub read-quoted_body :
    (l field s : List ℕ)
    → read quoted field (concat_map escape_character l ++ s) ≡ read quoted (field ++ visible l) s
read-quoted_body [] field s = ap (λ f. read quoted f s) (sym (append-nil field))
read-quoted_body (c ∷ l) field s =
    ap (read quoted field) (append_assoc (escape_character c) (concat_map escape_character l) s)
    ∙ read-quoted_character c field (concat_map escape_character l ++ s)
    ∙ read-quoted_body l (field ++ visible_character c) s
    ∙ ap (λ f. read quoted f s) (append_assoc field (visible_character c) (visible l))

-- Without a quote or a semicolon in the field nothing is quoted, and the escaped field is plain.
pub escape-unquoted :
    (l : List ℕ)
    → any needs_quoting l ≡ false
    → (concat_map escape_character l ≡ visible l) × All IsPlain (visible l)
escape-unquoted [] h = (refl, tt)
escape-unquoted (c ∷ l) h =
    let (e, p) = escape-unquoted l (ground arith) in
    let n : needs_quoting c ≡ false = ground arith in
    (
      ap₂ ◌++◌ (escape_character_lem c (ground arith)) e,
      All-append IsPlain (visible_character c) (visible l) (visible_character-IsPlain c n) p,
    )

pub visible-unescaped :
    (l : List ℕ) → any needs_escaping l ≡ false → (visible l ≡ l) × (any needs_quoting l ≡ false)
visible-unescaped [] h = (refl, refl)
visible-unescaped (c ∷ l) h = ground (arith, visible-unescaped l)
