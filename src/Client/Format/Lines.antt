-- ===== src/Client/Format/Lines.antt =====
-- MiniMonClient/src/trace/format.cpp: the control characters of a line.
use minifilter_monitor.Common.{
  ℕ, ◌/◌, ◌%◌, ◌<◌, ◌≡◌, refl, sym, ap, ◌∙◌, false, List, [], ◌∷◌, ◌++◌, arith, All, All-append,
  ◌==◌, Bool-cases, inl, inr, any, concat_map, ==_iff, append_assoc,
}
use minifilter_monitor.Client.Text.{hex_digit}
use minifilter_monitor.Client.Format.{
  is_control_character, needs_escaping, needs_quoting, escape_character, escape_csv_field,
  render_line,
}
use minifilter_monitor.Client.Format.Reading.{
  visible_character, escape_character_lem, control-bounds, escape-quote,
}
use minifilter_monitor.Client.Format.RoundTrip.{render_line_last, render_line_step}

abbrev pub IsPrintable : ℕ → Type 0
IsPrintable c = is_control_character c ≡ false

hex_digit-IsPrintable : (d : ℕ) → d < 16 → IsPrintable (hex_digit d)
hex_digit-IsPrintable d h = ground arith

visible_character-IsPrintable : (c : ℕ) → All IsPrintable (visible_character c)
visible_character-IsPrintable c = elim (Bool-cases (is_control_character c)) [
  | inl k ↦
      let b = (control-bounds c k).0 in
      rw k (
        refl,
        (
          refl,
          (
            hex_digit-IsPrintable (c / 16) (omega arith),
            (hex_digit-IsPrintable (c % 16) (omega arith), tt),
          ),
        ),
      )
  | inr k ↦ rw k (k, tt)
]

escape_character-IsPrintable : (c : ℕ) → All IsPrintable (escape_character c)
escape_character-IsPrintable c = elim (Bool-cases (c == b'"')) [
  | inl q ↦ rw ((==_iff c b'"').0 q, escape-quote) (refl, (refl, tt))
  | inr n ↦ rw (escape_character_lem c n) (visible_character-IsPrintable c)
]

escaped-IsPrintable : (l : List ℕ) → All IsPrintable (concat_map escape_character l)
escaped-IsPrintable [] = tt
escaped-IsPrintable (c ∷ l) =
    All-append IsPrintable (escape_character c) _ (escape_character-IsPrintable c)
      (escaped-IsPrintable l)

unescaped-IsPrintable : (l : List ℕ) → any needs_escaping l ≡ false → All IsPrintable l
unescaped-IsPrintable [] h = tt
unescaped-IsPrintable (c ∷ l) h = (ground arith, unescaped-IsPrintable l (ground arith))

escape_csv_field-IsPrintable : (f : List ℕ) → All IsPrintable (escape_csv_field f)
unfolding escape_csv_field
escape_csv_field-IsPrintable f = elim (Bool-cases (any needs_escaping f)) [
  | inr plain ↦ rw plain (unescaped-IsPrintable f plain)
  | inl escaped ↦ elim (Bool-cases (any needs_quoting f)) [
    | inr unquoted ↦ rw (escaped, unquoted) (escaped-IsPrintable f)
    | inl quotes ↦
        rw (escaped, quotes)
          (
            refl,
            All-append IsPrintable (concat_map escape_character f) _ (escaped-IsPrintable f)
                (refl, tt),
          )
  ]
]

-- Whatever its fields hold, a rendered line ends in a line break and has no other control character.
pub render_line-one_line :
    (f : List ℕ) (fs : List (List ℕ))
    → (body : List ℕ) × (render_line (f ∷ fs) ≡ body ++ (b'\n' ∷ [])) × All IsPrintable body
render_line-one_line f [] = (escape_csv_field f, render_line_last f, escape_csv_field-IsPrintable f)
render_line-one_line f (g ∷ gs) =
    let (body, e, p) = render_line-one_line g gs in
    (
      escape_csv_field f ++ (b';' ∷ body),
      render_line_step f g gs
          ∙ ap (λ l. escape_csv_field f ++ (b';' ∷ l)) e
          ∙ sym (append_assoc (escape_csv_field f) (b';' ∷ body) (b'\n' ∷ [])),
      All-append IsPrintable (escape_csv_field f) (b';' ∷ body) (escape_csv_field-IsPrintable f)
          (refl, p),
    )
