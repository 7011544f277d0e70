-- ===== src/Client/Format/RoundTrip.antt =====
-- MiniMonClient/src/trace/format.cpp: rendered lines before the reader.
use minifilter_monitor.Common.{
  ℕ, ◌≡◌, ◌≢◌, refl, ap, ◌∙◌, List, [], ◌∷◌, ◌++◌, map, All, ◌==◌, Bool-cases, inl, inr, ◌⊎◌, any,
  concat_map, if◌then◌else◌, append_assoc, append-nil,
}
use minifilter_monitor.Client.Format.{
  needs_escaping, needs_quoting, escape_character, escape_csv_field, set_back, render_line,
}
use minifilter_monitor.Client.Format.Reading.{
  visible, IsPlain, read-start, read-quoted_body, escape-unquoted, visible-unescaped,
}
use minifilter_monitor.Client.Format.Reader.{start, plain, quoted, quote_seen, read, read_row}

-- What the reader returns behind a field, at the character that ends it.
abbrev ending : List ℕ → ℕ → List ℕ → List (List ℕ)
ending field c s = if c == b';' then field ∷ read start [] s else field ∷ []

read-plain_end :
    (field s : List ℕ) (c : ℕ)
    → (c ≡ b';') ⊎ (c ≡ b'\n')
    → (read plain field (c ∷ s) ≡ ending field c s)
      × (read quote_seen field (c ∷ s) ≡ ending field c s)
      × (read start field (c ∷ s) ≡ ending field c s)
unfolding read
read-plain_end field s c (inl e) = rw e (refl, refl, refl)
read-plain_end field s c (inr e) = rw e (refl, refl, refl)

read-unquoted :
    (l s : List ℕ) (c : ℕ)
    → All IsPlain l
    → (c ≡ b';') ⊎ (c ≡ b'\n')
    → read start [] (l ++ (c ∷ s)) ≡ ending l c s
read-unquoted [] s c h o = (read-plain_end [] s c o).2
read-unquoted (x ∷ l) s c h o =
    read-start (x ∷ l) (c ∷ s) h (λ e. cc) ∙ (read-plain_end (x ∷ l) s c o).0

quoted_close : (field s : List ℕ) → read quoted field (b'"' ∷ s) ≡ read quote_seen field s
unfolding read
quoted_close field s = refl

quoted_open : (s : List ℕ) → read start [] (b'"' ∷ s) ≡ read quoted [] s
unfolding read
quoted_open s = refl

-- An escaped field, read up to the character behind it.
read-escape_csv_field :
    (f s : List ℕ) (c : ℕ)
    → (c ≡ b';') ⊎ (c ≡ b'\n')
    → read start [] (escape_csv_field f ++ (c ∷ s)) ≡ ending (visible f) c s
unfolding escape_csv_field
read-escape_csv_field f s c o = elim (Bool-cases (any needs_escaping f)) [
  | inr none_escaped ↦
      let (same, unquoted) = visible-unescaped f none_escaped in
      let plain_field : All IsPlain f = rw same at (escape-unquoted f unquoted).1 in
      rw (none_escaped, same) (read-unquoted f s c plain_field o)
  | inl escaped ↦ elim (Bool-cases (any needs_quoting f)) [
    | inr unquoted ↦
        let (e, p) = escape-unquoted f unquoted in
        rw (escaped, unquoted, e) (read-unquoted (visible f) s c p o)
    | inl quotes ↦
        rw (escaped, quotes)
          (quoted_open ((concat_map escape_character f ++ (b'"' ∷ [])) ++ (c ∷ s))
            ∙ ap (read quoted []) (append_assoc (concat_map escape_character f) (b'"' ∷ []) (c ∷ s))
            ∙ read-quoted_body f [] (b'"' ∷ c ∷ s)
            ∙ quoted_close (visible f) (c ∷ s)
            ∙ (read-plain_end (visible f) s c o).1)
  ]
]

set_back-append :
    (c d : ℕ) (xs ys : List ℕ) → set_back c (xs ++ (d ∷ ys)) ≡ xs ++ set_back c (d ∷ ys)
set_back-append c d [] ys = refl
set_back-append c d (x ∷ []) ys = refl
set_back-append c d (x ∷ y ∷ xs) ys = ap (λ l. x ∷ l) (set_back-append c d (y ∷ xs) ys)

set_back-cons : (c d : ℕ) (ys : List ℕ) → ys ≢ [] → set_back c (d ∷ ys) ≡ d ∷ set_back c ys
set_back-cons c d [] h = absurd (h refl)
set_back-cons c d (y ∷ ys) h = refl

append-ne-nil : (xs ys : List ℕ) → ys ≢ [] → xs ++ ys ≢ []
append-ne-nil [] ys h = h
append-ne-nil (x ∷ xs) ys h = λ e. cc

pub render_line_last : (f : List ℕ) → render_line (f ∷ []) ≡ escape_csv_field f ++ (b'\n' ∷ [])
unfolding render_line
render_line_last f =
    ap (set_back b'\n') (append-nil (escape_csv_field f ++ (b';' ∷ [])))
    ∙ set_back-append b'\n' b';' (escape_csv_field f) []

pub render_line_step :
    (f g : List ℕ) (gs : List (List ℕ))
    → render_line (f ∷ g ∷ gs) ≡ escape_csv_field f ++ (b';' ∷ render_line (g ∷ gs))
unfolding render_line
render_line_step f g gs =
    ap (set_back b'\n') (append_assoc (escape_csv_field f) (b';' ∷ []) rest)
    ∙ set_back-append b'\n' b';' (escape_csv_field f) rest
    ∙ ap (λ l. escape_csv_field f ++ l)
        (set_back-cons b'\n' b';' rest
          (rw (append_assoc (escape_csv_field g)) (append-ne-nil (escape_csv_field g) _ (λ e. cc))))
  where
    rest : List ℕ
    rest = concat_map (λ column. escape_csv_field column ++ (b';' ∷ [])) (g ∷ gs)

read-render_columns :
    (f : List ℕ) (fs : List (List ℕ)) → read start [] (render_line (f ∷ fs)) ≡ map visible (f ∷ fs)
read-render_columns f [] =
    ap (read start []) (render_line_last f) ∙ read-escape_csv_field f [] b'\n' (inr refl)
read-render_columns f (g ∷ gs) =
    ap (read start []) (render_line_step f g gs)
    ∙ read-escape_csv_field f (render_line (g ∷ gs)) b';' (inl refl)
    ∙ ap (λ l. visible f ∷ l) (read-render_columns g gs)

-- A reader of semicolon-separated lines gets from a line of one column or more exactly its columns,
-- whatever quotes, semicolons and line breaks they hold, with each control character shown as \xNN.
pub read-render_line :
    (f : List ℕ) (fs : List (List ℕ)) → read_row (render_line (f ∷ fs)) ≡ map visible (f ∷ fs)
unfolding read_row
read-render_line f fs = read-render_columns f fs
