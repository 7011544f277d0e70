-- ===== src/Client/Names/Creates.antt =====
-- MiniMonClient/src/trace/names.cpp, with the values of kernel.h: the words of a create and of a read or write.
use minifilter_monitor.Common.{ℕ, List, [], ◌∷◌, codes}
use minifilter_monitor.Client.Number.{to_wstring}
use minifilter_monitor.Client.Flags.{FlagName, row, render_flags}
use minifilter_monitor.Client.Names.{Case, case, switch}

abbrev pub create_disposition_names : List Case
create_disposition_names =
    case 0 (codes "Supersede")
    ∷ case 1 (codes "Open")
    ∷ case 2 (codes "Create")
    ∷ case 3 (codes "OpenIf")
    ∷ case 4 (codes "Overwrite")
    ∷ case 5 (codes "OverwriteIf")
    ∷ []

unfoldable pub render_create_disposition : ℕ → List ℕ
render_create_disposition disposition =
    switch create_disposition_names disposition (to_wstring disposition)

abbrev pub open_result_names : List Case
open_result_names =
    case 0 (codes "Superseded")
    ∷ case 1 (codes "Opened")
    ∷ case 2 (codes "Created")
    ∷ case 3 (codes "Overwritten")
    ∷ case 4 (codes "Exists")
    ∷ case 5 (codes "Does Not Exist")
    ∷ []

unfoldable pub render_open_result : ℕ → List ℕ
render_open_result information = switch open_result_names information (to_wstring information)

abbrev pub create_option_names : List FlagName
create_option_names =
    row 1 (codes "Directory")
    ∷ row 2 (codes "Write Through")
    ∷ row 4 (codes "Sequential Access")
    ∷ row 8 (codes "No Buffering")
    ∷ row 0x10 (codes "Synchronous IO Alert")
    ∷ row 0x20 (codes "Synchronous IO Non-Alert")
    ∷ row 0x40 (codes "Non-Directory File")
    ∷ row 0x80 (codes "Create Tree Connection")
    ∷ row 0x100 (codes "Complete If Oplocked")
    ∷ row 0x200 (codes "No EA Knowledge")
    ∷ row 0x400 (codes "Open Remote Instance")
    ∷ row 0x800 (codes "Random Access")
    ∷ row 0x1000 (codes "Delete On Close")
    ∷ row 0x2000 (codes "Open By ID")
    ∷ row 0x4000 (codes "Open For Backup")
    ∷ row 0x8000 (codes "No Compression")
    ∷ row 0x10000 (codes "Open Requiring Oplock")
    ∷ row 0x20000 (codes "Disallow Exclusive")
    ∷ row 0x40000 (codes "Session Aware")
    ∷ row 0x100000 (codes "Reserve OpFilter")
    ∷ row 0x200000 (codes "Open Reparse Point")
    ∷ row 0x400000 (codes "Open No Recall")
    ∷ row 0x800000 (codes "Open For Free Space Query")
    ∷ []

unfoldable pub render_create_options : ℕ → List ℕ
unfolding render_flags
render_create_options options = render_flags options create_option_names (codes "|")

abbrev pub create_flag_names : List FlagName
create_flag_names =
    row 1 (codes "Force Access Check")
    ∷ row 2 (codes "Open Paging File")
    ∷ row 4 (codes "Open Target Directory")
    ∷ row 8 (codes "Stop On Symlink")
    ∷ row 0x40 (codes "Ignore Readonly Attribute")
    ∷ row 0x80 (codes "Case Sensitive")
    ∷ []

unfoldable pub render_create_flags : ℕ → List ℕ
unfolding render_flags
render_create_flags flags = render_flags flags create_flag_names (codes "|")

abbrev pub read_write_flag_names : List FlagName
read_write_flag_names =
    row 1 (codes "Key Specified")
    ∷ row 2 (codes "Override Verify Volume")
    ∷ row 4 (codes "Write Through")
    ∷ row 8 (codes "FT Sequential Write")
    ∷ row 0x10 (codes "Force Direct Write")
    ∷ row 0x20 (codes "Realtime Stream/Persistent Memory Fixed Mapping")
    ∷ row 0x40 (codes "Bypass I/O")
    ∷ []

unfoldable pub render_read_write_flags : ℕ → List ℕ
unfolding render_flags
render_read_write_flags flags = render_flags flags read_write_flag_names (codes "|")
