-- ===== src/Client/Details/Files.antt =====
-- MiniMonClient/src/trace/details/info.cpp: IRP_MJ_NETWORK_QUERY_OPEN.
use minifilter_monitor.Common.{
  ℕ, ◌^◌, List, [], ◌∷◌, ◌++◌, flatten, ltb, Option, some, codes, if◌then◌else◌,
}
use minifilter_monitor.Protocol.{RecordData}
use minifilter_monitor.Client.Number.{to_wstring_signed}
use minifilter_monitor.Client.Payload.{member, read_value}
use minifilter_monitor.Client.Windows.{Windows}
use minifilter_monitor.Client.Details.Members.{extract_payload, query_info_member}
use minifilter_monitor.Client.Details.Requests.{labelled_if, nonzero, ◌>>=◌}
use minifilter_monitor.Client.Details.Volumes.{with_bytes}

-- A time below 0 is printed as its number.
unfoldable pub render_file_time : Windows → ℕ → List ℕ
render_file_time windows time =
    if ltb time (2 ^ 63) then windows.render_time time else to_wstring_signed time

-- A time that is set, with its label and a separator.
abbrev pub time_field : Windows → List ℕ → ℕ → List ℕ
time_field windows label time =
    if nonzero time then label ++ (render_file_time windows time ++ codes ", ") else []

-- FILE_NETWORK_OPEN_INFORMATION, 56 bytes.
unfoldable pub render_network_open_payload : Windows → List ℕ → List ℕ
render_network_open_payload windows value = flatten (
    time_field windows (codes "CreationTime: ") (member value 0 8)
    ∷ time_field windows (codes "LastAccessTime: ") (member value 8 8)
    ∷ time_field windows (codes "LastWriteTime: ") (member value 16 8)
    ∷ time_field windows (codes "ChangeTime: ") (member value 24 8)
    ∷ codes "AllocationSize: "
    ∷ to_wstring_signed (member value 32 8)
    ∷ codes ", EndOfFile: "
    ∷ to_wstring_signed (member value 40 8)
    ∷ labelled_if (nonzero (member value 48 4)) (codes ", FileAttributes: ")
        (windows.render_file_attributes (member value 48 4))
    ∷ [])

-- info::RenderNetworkQueryOpen.
unfoldable pub render_network_query_open : Windows → RecordData → Option (List ℕ)
render_network_query_open windows r = do
  s ← query_info_member r.supplement
  payload ← extract_payload s
  some (with_bytes (read_value payload 56 0) (render_network_open_payload windows))
