-- ===== src/Client/Sink/Written.antt =====
-- WriteRecords of MiniMonClient/src/main.cpp over MiniMonClient/src/sink.cpp: what each file holds.
use minifilter_monitor.Common.{
  ℕ, ◌≡◌, refl, sym, ◌∙◌, ap, subst, Bool, true, false, List, [], ◌∷◌, ◌++◌, inl, inr, Option, none,
  some, arith, Bool-cases, concat_map, append_assoc, append-nil, if◌then◌else◌,
}
use minifilter_monitor.Client.Sink.{
  File, Sink, FileSystem, Output, same_path, crlf_line, find, add_line, open_found, open_file,
  target, write_line, write, write_records, next,
}
use minifilter_monitor.Client.Sink.Files.{
  same_path_refl, same_path_≡, find-add_line, find-add_line_other,
}

-- The lines that are written to a path.
pub lines_for : FileSystem → Sink → List ℕ → List Output → List (List ℕ)
lines_for v s q =
    concat_map (λ o. if same_path q (target v o.altitude s) then crlf_line v o.line ∷ [] else [])

-- A file's lines with more lines at the end; a new file has its header first.
pub extended : Option (List (List ℕ)) → List ℕ → List (List ℕ) → Option (List (List ℕ))
extended none header [] = none
extended none header (line ∷ more) = some (header ∷ line ∷ more)
extended (some lines) header more = some (lines ++ more)

extended_nothing : (o : Option (List (List ℕ))) (header : List ℕ) → extended o header [] ≡ o
unfolding extended
extended_nothing none header = refl
extended_nothing (some lines) header = ap some (append-nil lines)

extended_twice :
    (o : Option (List (List ℕ))) (header : List ℕ) (xs ys : List (List ℕ))
    → extended (extended o header xs) header ys ≡ extended o header (xs ++ ys)
unfolding extended
extended_twice none header [] ys = refl
extended_twice none header (x ∷ xs) ys = refl
extended_twice (some lines) header xs ys = ap some (append_assoc lines xs ys)

-- The files of the sink, each with its lines, and what was written.
abbrev Grows : FileSystem → List Output → Sink → Sink → Type 0
Grows v outputs s s' =
    (files : List File) × (s' ≡ record s { files = files })
    × ((q : List ℕ)
        → find q files
          ≡ extended (find q s.files) (crlf_line v s.header_text) (lines_for v s q outputs))

-- The line goes behind what the file of its path holds.
grows_open :
    (v : FileSystem) (o : Output) (s : Sink) (lines : List (List ℕ)) (files : List File)
    → find (target v o.altitude s) files ≡ some lines
    → ((q : List ℕ) → same_path q (target v o.altitude s) ≡ false → find q files ≡ find q s.files)
    → extended
        (find (target v o.altitude s) s.files)
        (crlf_line v s.header_text)
        (crlf_line v o.line ∷ [])
      ≡ some (lines ++ (crlf_line v o.line ∷ []))
    → (q : List ℕ)
    → find q (add_line (target v o.altitude s) (crlf_line v o.line) files)
      ≡ extended (find q s.files) (crlf_line v s.header_text) (lines_for v s q (o ∷ []))
unfolding extended lines_for
grows_open v o s lines files h others e q =
    elim (Bool-cases (same_path q (target v o.altitude s))) [
      | inl here ↦ rw here (
          subst
            (λ p.
              find p (add_line (target v o.altitude s) (crlf_line v o.line) files)
              ≡ extended (find p s.files) (crlf_line v s.header_text) (crlf_line v o.line ∷ []))
            (sym (same_path_≡ q (target v o.altitude s) here))
            (find-add_line (target v o.altitude s) (crlf_line v o.line) files lines h ∙ sym e))
      | inr further ↦ rw further (
          find-add_line_other q (target v o.altitude s) (crlf_line v o.line) files further
          ∙ others q further
          ∙ sym (extended_nothing (find q s.files) (crlf_line v s.header_text)))
    ]

module _ (v : FileSystem) (o : Output) (s s' : Sink) where
  abbrev path : List ℕ
  path = target v o.altitude s

  appended :
      (files : List File) (lines : List (List ℕ)) (x : Sink) (good : Bool)
      → find path files ≡ some lines
      → ((q : List ℕ) → same_path q path ≡ false → find q files ≡ find q s.files)
      → extended (find path s.files) (crlf_line v s.header_text) (crlf_line v o.line ∷ [])
        ≡ some (lines ++ (crlf_line v o.line ∷ []))
      → ◌≡◌ {A = Bool × Sink}
          (if good
            then (true, record s { files = add_line path (crlf_line v o.line) files })
            else (false, x))
          (true, s')
      → Grows v (o ∷ []) s s'
  appended files lines x false h others e w = absurd (ground (arith, ap (λ r. r.0) w))
  appended files lines x true h others e w = (
    add_line path (crlf_line v o.line) files,
    sym (ap (λ r. r.1) w),
    grows_open v o s lines files h others e,
  )

  -- A file that the call makes.
  abbrev opened : List File
  opened = record { path = path; lines = crlf_line v s.header_text ∷ [] } ∷ s.files

  made :
      (opens : Bool)
      → find path s.files ≡ none
      → write_line v o path (if opens then (true, record s { files = opened }) else (false, s))
        ≡ (true, s')
      → Grows v (o ∷ []) s s'
  unfolding extended write_line find
  made false h w = absurd (ground (arith, ap (λ r. r.0) w))
  made true h w =
      appended opened (crlf_line v s.header_text ∷ []) (record s { files = opened }) o.good
        (rw (same_path_refl path, find) refl) (λ q other. rw (other, find) refl) (rw h refl) w

  found :
      (found : Option (List (List ℕ)))
      → find path s.files ≡ found
      → write_line v o path (open_found found v path s) ≡ (true, s')
      → Grows v (o ∷ []) s s'
  unfolding extended write_line open_found
  found none h w = made (v.opens path) h w
  found (some lines) h w = appended s.files lines s o.good h (λ q other. refl) (rw h refl) w

  write-Grows : write v o s ≡ (true, s') → Grows v (o ∷ []) s s'
  unfolding write open_file
  write-Grows w = found (find path s.files) refl w

-- One call and then more calls.
grows_at :
    (v : FileSystem) (o : Output) (outputs : List Output) (s s' : Sink) (files : List File)
    → ((q : List ℕ)
        → find q files
          ≡ extended (find q s.files) (crlf_line v s.header_text) (lines_for v s q (o ∷ [])))
    → Grows v outputs (record s { files = files }) s'
    → Grows v (o ∷ outputs) s s'
unfolding lines_for
grows_at v o outputs s s' files g (files', e, g') = (
  files',
  e,
  λ q.
      g' q
      ∙ ap (λ x. extended x (crlf_line v s.header_text) (lines_for v s q outputs)) (g q)
      ∙ extended_twice (find q s.files) (crlf_line v s.header_text) (lines_for v s q (o ∷ []))
          (lines_for v s q outputs)
      ∙ ap (extended (find q s.files) (crlf_line v s.header_text)) (
          append_assoc (if same_path q (target v o.altitude s) then crlf_line v o.line ∷ [] else [])
            [] (lines_for v s q outputs)),
)

Grows_trans :
    (v : FileSystem) (o : Output) (outputs : List Output) (s m s' : Sink)
    → Grows v (o ∷ []) s m
    → Grows v outputs m s'
    → Grows v (o ∷ outputs) s s'
Grows_trans v o outputs s m s' (files, e, g) more =
    grows_at v o outputs s s' files g (subst (λ n. Grows v outputs n s') e more)

behind :
    (v : FileSystem) (o : Output) (outputs : List Output) (s s' : Sink) (r : Bool × Sink)
    → write v o s ≡ r
    → ((m : Sink) → write_records v outputs m ≡ (true, s') → Grows v outputs m s')
    → next (write_records v outputs) r ≡ (true, s')
    → Grows v (o ∷ outputs) s s'
behind v o outputs s s' (false, m) e more w = absurd (ground (arith, ap (λ r. r.0) w))
behind v o outputs s s' (true, m) e more w =
    Grows_trans v o outputs s m s' (write-Grows v o s m e) (more m w)

write_records-Grows :
    (v : FileSystem) (outputs : List Output) (s s' : Sink)
    → write_records v outputs s ≡ (true, s')
    → Grows v outputs s s'
unfolding write_records lines_for
write_records-Grows v [] s s' w = (
  s.files,
  sym (ap (λ r. r.1) w),
  λ q. sym (extended_nothing (find q s.files) (crlf_line v s.header_text)),
)
write_records-Grows v (o ∷ outputs) s s' w =
    behind v o outputs s s' (write v o s) refl (λ m. write_records-Grows v outputs m s') w

-- Where WriteRecords succeeds, every file holds what it held, or its header if it is new, and then
-- exactly the lines whose altitude leads to its path, in order, and no other file is made.
pub find-write_records :
    (v : FileSystem) (outputs : List Output) (s s' : Sink)
    → write_records v outputs s ≡ (true, s')
    → (q : List ℕ)
    → find q s'.files
      ≡ extended (find q s.files) (crlf_line v s.header_text) (lines_for v s q outputs)
find-write_records v outputs s s' w q =
    let (files, e, g) = write_records-Grows v outputs s s' w in ap (λ x. find q x.files) e ∙ g q
