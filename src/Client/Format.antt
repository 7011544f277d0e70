-- ===== src/Client/Format.antt =====
-- MiniMonClient/src/trace/format.cpp: a record as one line of semicolon-separated fields.
pub mod Reader
pub mod Reading
pub mod RoundTrip
pub mod Lines
mod Tests
use minifilter_monitor.Common.{
  ℕ, Bool, true, not, List, [], ◌∷◌, ◌++◌, ◌||◌, ◌&&◌, ltb, leb, ◌==◌, any, concat_map, codes,
  if◌then◌else◌,
}
use minifilter_monitor.Client.Text.{format_hex}

abbrev pub is_control_character : ℕ → Bool
is_control_character c = ltb c b' ' || (leb 0x7F c && leb c 0x9F)

abbrev pub needs_escaping : ℕ → Bool
needs_escaping c = c == b'"' || c == b';' || is_control_character c

-- The characters for which a field is quoted.
abbrev pub needs_quoting : ℕ → Bool
needs_quoting c = c == b'"' || c == b';'

-- The body of the loop of EscapeCsvField.
unfoldable pub escape_character : ℕ → List ℕ
escape_character c =
    if c == b'"'
    then b'"' ∷ b'"' ∷ []
    else if is_control_character c
    then b'\\' ∷ b'x' ∷ format_hex 2 c
    else c ∷ []

unfoldable pub escape_csv_field : List ℕ → List ℕ
escape_csv_field value =
    if not (any needs_escaping value)
    then value
    else let escaped = concat_map escape_character value in
      if any needs_quoting value then b'"' ∷ (escaped ++ (b'"' ∷ [])) else escaped

-- line.back() = c, on a line that is not empty.
abbrev pub set_back : ℕ → List ℕ → List ℕ
set_back c [] = []
set_back c (x ∷ []) = c ∷ []
set_back c (x ∷ y ∷ s) = x ∷ set_back c (y ∷ s)

-- The last loop of Render: the escaped columns, each followed by a semicolon, the last one replaced.
unfoldable pub render_line : List (List ℕ) → List ℕ
render_line columns =
    set_back b'\n' (concat_map (λ column. escape_csv_field column ++ (b';' ∷ [])) columns)

abbrev pub column_labels : List (List ℕ)
column_labels =
    codes "SeqNum"
    ∷ codes "Altitude"
    ∷ codes "OperationId"
    ∷ codes "TopLevelIrp"
    ∷ codes "PreOpTime"
    ∷ codes "PostOpTime"
    ∷ codes "ProcessId"
    ∷ codes "ThreadId"
    ∷ codes "RequestorMode"
    ∷ codes "IoPriorityHint"
    ∷ codes "PreOpIrql"
    ∷ codes "PostOpIrql"
    ∷ codes "Opr"
    ∷ codes "Major"
    ∷ codes "Minor"
    ∷ codes "Name"
    ∷ codes "Status"
    ∷ codes "Information"
    ∷ codes "Details"
    ∷ codes "IrpFlags"
    ∷ codes "OperationFlags"
    ∷ codes "DevObj"
    ∷ codes "FileObj"
    ∷ codes "Arg1"
    ∷ codes "Arg2"
    ∷ codes "Arg3"
    ∷ codes "Arg4"
    ∷ codes "Arg5"
    ∷ codes "Arg6"
    ∷ codes "ReparseTag"
    ∷ codes "Transaction"
    ∷ codes "TransactionSeq"
    ∷ codes "TransactionNotify"
    ∷ codes "StackTrace"
    ∷ []

unfoldable pub get_header : List ℕ
get_header = set_back b'\n' (concat_map (λ label. label ++ (b';' ∷ [])) column_labels)
