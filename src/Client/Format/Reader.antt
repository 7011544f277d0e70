-- ===== src/Client/Format/Reader.antt =====
-- A reader of semicolon-separated lines, written independently of format.cpp: a field in quotes ends
-- at a quote that is not doubled, any other at a semicolon or at the end of the line.
use minifilter_monitor.Common.{ℕ, List, [], ◌∷◌, ◌++◌, ◌==◌, if◌then◌else◌}

pub data Mode : Type 0 where
  start plain quoted quote_seen : Mode

-- What a character does: it belongs to the field, opens or closes a quote, ends the field or the row.
pub data Action : Type 0 where
  push skip : Mode → Action
  end_field end_row : Action

abbrev pub separator : ℕ → Action → Action
separator c other = if c == b';' then end_field else if c == b'\n' then end_row else other

abbrev pub action : Mode → ℕ → Action
action start c = if c == b'"' then skip quoted else separator c (push plain)
action plain c = separator c (push plain)
action quoted c = if c == b'"' then skip quote_seen else push quoted
action quote_seen c = if c == b'"' then push quoted else separator c (push plain)

-- The fields of the first row, from a mode and what has been read of the current field.
unfoldable pub read : Mode → List ℕ → List ℕ → List (List ℕ)
read m field [] = field ∷ []
read m field (c ∷ s) = elim (action m c) [
  | push m' ↦ read m' (field ++ (c ∷ [])) s
  | skip m' ↦ read m' field s
  | end_field ↦ field ∷ read start [] s
  | end_row ↦ field ∷ []
]

unfoldable pub read_row : List ℕ → List (List ℕ)
unfolding read
read_row s = read start [] s
