-- ===== src/Client/Details.antt =====
-- MiniMonClient/src/trace/details.cpp: the text of a record by its major function. `none` stands for
-- bytes of another member of the union, and for a read outside a payload.
pub mod Members
pub mod Reading
pub mod Requests
pub mod Controls
pub mod Lists
pub mod Directories
pub mod Volumes
pub mod Files
pub mod Payloads
pub mod Defined
pub mod Frames
pub mod Rendering
pub mod Agreement
mod Tests
use minifilter_monitor.Common.{ℕ, List, [], ◌∷◌, ◌==◌, ◌||◌, not, Option, none, some, if◌then◌else◌}
use minifilter_monitor.Protocol.{RecordData}
use minifilter_monitor.Client.Windows.{Windows}
use Requests.{
  render_create, render_copy, render_mdl, render_mdl_read_complete, render_mdl_write_complete,
}
use Controls.{
  render_lock, render_query_security, render_set_security, render_wmi, render_pnp, render_section,
  render_acquire, render_release, render_fast_io_check, render_mount,
}
use Lists.{render_flush, render_query_ea, render_set_ea, render_query_quota, render_set_quota}
use Directories.{render_directory}
use Volumes.{render_volume}
use Files.{render_network_query_open}
use Payloads.{
  PayloadTexts, render_query_info, render_set_info, render_query_open, render_filesystem,
  render_device_io,
}

-- The switch, with the values of the major functions in kernel.h.
unfoldable pub render_major : Windows → PayloadTexts → ℕ → RecordData → Option (List ℕ)
render_major windows texts major r =
    if major == 0
    then render_create windows r
    else if major == 3 || major == 4
    then render_copy r
    else if major == 5
    then render_query_info texts r
    else if major == 6
    then render_set_info texts r
    else if major == 7
    then render_query_ea r
    else if major == 8
    then render_set_ea r
    else if major == 9
    then some (render_flush r)
    else if major == 0x0A || major == 0x0B
    then render_volume windows r
    else if major == 0x0C
    then render_directory windows r
    else if major == 0x0D
    then render_filesystem texts r
    else if major == 0x0E || major == 0x0F
    then render_device_io texts r
    else if major == 0x11
    then render_lock r
    else if major == 0x14
    then render_query_security windows r
    else if major == 0x15
    then render_set_security windows r
    else if major == 0x17
    then render_wmi r
    else if major == 0x19
    then render_query_quota windows r
    else if major == 0x1A
    then render_set_quota windows r
    else if major == 0x1B
    then some (render_pnp r)
    else if major == 0xFF
    then some (render_section windows r)
    else if major == 0xFD
    then render_acquire r
    else if major == 0xFC
    then some (render_release r)
    else if major == 0xF9
    then render_query_open texts r
    else if major == 0xF3
    then some (render_fast_io_check r)
    else if major == 0xF2
    then render_network_query_open windows r
    else if major == 0xF1 || major == 0xEF
    then some (render_mdl r)
    else if major == 0xF0
    then some (render_mdl_read_complete r)
    else if major == 0xEE
    then some (render_mdl_write_complete r)
    else if major == 0xED
    then render_mount windows r
    else some []

unfoldable pub render : Windows → PayloadTexts → RecordData → Option (List ℕ)
render windows texts r =
    if not (r.transaction_notify == 0)
    then some []
    else render_major windows texts r.callback_major_id r
