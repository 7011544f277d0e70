-- ===== src/Client/Sink.antt =====
-- MiniMonClient/src/sink.cpp: the output files. A file's content is the list of the lines written to
-- it. The text of a path, the conversion to UTF-8 and the state of a stream are arguments.
pub mod Files
pub mod Written
mod Tests
use minifilter_monitor.Common.{
  ℕ, Bool, true, false, not, List, [], ◌∷◌, ◌++◌, ◌&&◌, ◌==◌, Option, none, some, is_empty,
  if◌then◌else◌,
}
use minifilter_monitor.Client.Format.{set_back}

-- An entry of `files`.
pub record File : Type 0 where
  pub path : List ℕ
  pub lines : List (List ℕ)

pub record Sink : Type 0 where
  pub base_path : List ℕ
  pub split_by_altitude : Bool
  pub header_text : List ℕ
  pub files : List File

-- `opens` is whether a path can be opened, `split_path` what MakeSplitPath makes of an altitude.
pub record FileSystem : Type 0 where
  pub opens : List ℕ → Bool
  pub split_path : List ℕ → List ℕ → List ℕ
  pub convert_to_utf8 : List ℕ → List ℕ

-- The order of std::map sees two paths as one exactly if they are equal.
abbrev pub same_path : List ℕ → List ℕ → Bool
same_path [] [] = true
same_path [] (d ∷ q) = false
same_path (c ∷ p) [] = false
same_path (c ∷ p) (d ∷ q) = c == d && same_path p q

-- The bytes that WriteCrlfLine writes.
abbrev pub crlf_line : FileSystem → List ℕ → List ℕ
crlf_line v line = set_back b'\r' (v.convert_to_utf8 line) ++ (b'\n' ∷ [])

unfoldable pub find : List ℕ → List File → Option (List (List ℕ))
find path [] = none
find path (f ∷ files) =
    let rest = find path files in if same_path path f.path then some f.lines else rest

unfoldable pub add_line : List ℕ → List ℕ → List File → List File
add_line path line [] = []
add_line path line (f ∷ files) =
    let rest = add_line path line files in
    if same_path path f.path then record f { lines = f.lines ++ (line ∷ []) } ∷ files else f ∷ rest

-- OpenFile on what try_emplace finds: a new file starts with the header.
unfoldable pub open_found : Option (List (List ℕ)) → FileSystem → List ℕ → Sink → Bool × Sink
open_found (some lines) v path s = (true, s)
open_found none v path s =
    if v.opens path
    then (
      true,
      record s { files = record { path = path; lines = crlf_line v s.header_text ∷ [] } ∷ s.files },
    )
    else (false, s)

-- OpenFile: whether there is a stream, and the sink.
unfoldable pub open_file : FileSystem → List ℕ → Sink → Bool × Sink
unfolding open_found
open_file v path s = open_found (find path s.files) v path s

-- Sink::Open.
unfoldable pub open_base : FileSystem → Sink → Bool × Sink
unfolding open_file
open_base v s = open_file v s.base_path s

-- The path that Write chooses.
abbrev pub target : FileSystem → List ℕ → Sink → List ℕ
target v altitude s =
    if s.split_by_altitude && not (is_empty altitude)
    then v.split_path s.base_path altitude
    else s.base_path

-- A call of Write; `good` is the stream's state after it.
pub record Output : Type 0 where
  pub altitude : List ℕ
  pub line : List ℕ
  pub good : Bool

-- Write behind OpenFile. What a failed write leaves of the line is not modelled.
unfoldable pub write_line : FileSystem → Output → List ℕ → Bool × Sink → Bool × Sink
write_line v o path (false, s) = (false, s)
write_line v o path (true, s) =
    if o.good
    then (true, record s { files = add_line path (crlf_line v o.line) s.files })
    else (false, s)

unfoldable pub write : FileSystem → Output → Sink → Bool × Sink
unfolding write_line open_file
write v o s = let path = target v o.altitude s in write_line v o path (open_file v path s)

-- WriteRecords behind a call of Write.
abbrev pub next : (Sink → Bool × Sink) → Bool × Sink → Bool × Sink
next rest (false, s) = (false, s)
next rest (true, s) = rest s

-- The loop of WriteRecords; Flush adds nothing to a file.
unfoldable pub write_records : FileSystem → List Output → Sink → Bool × Sink
write_records v [] s = (true, s)
write_records v (o ∷ outputs) s = next (write_records v outputs) (write v o s)
