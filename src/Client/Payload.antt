-- ===== src/Client/Payload.antt =====
-- MiniMonClient/src/trace/payload.h: the readers of captured bytes. A span is the list of its bytes,
-- and a subspan that starts behind the end, which is undefined behaviour, is `none`.
pub mod Values
use minifilter_monitor.Common.{
  ℕ, ◌+◌, ◌-◌, ◌*◌, ◌/◌, ◌^◌, Bool, List, [], ◌∷◌, ◌++◌, ◌&&◌, leb, ltb, min, take, drop, length,
  Option, none, some, if◌then◌else◌,
}
use minifilter_monitor.Client.Text.{convert_from_ascii, extract, mark_truncated}
use minifilter_monitor.Client.Number.{little_endian}
use Values.{render_bytes}

unfoldable pub fits : List ℕ → ℕ → ℕ → Bool
fits payload offset size = leb offset (length payload) && leb size (length payload - offset)

-- ReadValue, for a type of `size` bytes: the bytes that are copied.
unfoldable pub read_value : List ℕ → ℕ → ℕ → Option (List ℕ)
unfolding fits
read_value payload size offset =
    if fits payload offset size then some (take size (drop offset payload)) else none

-- ReadHeader: the bytes of the header; the others of the value are zero and are not looked at.
unfoldable pub read_header : List ℕ → ℕ → ℕ → Option (List ℕ)
unfolding fits
read_header payload header_size offset =
    if fits payload offset header_size then some (take header_size (drop offset payload)) else none

-- A little-endian member of `width` bytes at an offset of a structure.
unfoldable pub member : List ℕ → ℕ → ℕ → ℕ
member value offset width = little_endian (take width (drop offset value))

-- Advance: the new offset.
unfoldable pub advance : List ℕ → ℕ → ℕ → Option ℕ
unfolding fits
advance payload offset stride = if fits payload offset stride then some (offset + stride) else none

-- payload.subspan(offset).
unfoldable pub subspan : List ℕ → ℕ → Option (List ℕ)
subspan payload offset = if leb offset (length payload) then some (drop offset payload) else none

-- payload.subspan(offset, count).
unfoldable pub subspan_of : List ℕ → ℕ → ℕ → Option (List ℕ)
subspan_of payload offset count =
    if leb offset (length payload) && leb count (length payload - offset)
    then some (take count (drop offset payload))
    else none

-- The code units of the bytes; an odd byte at the end is left out.
abbrev pub wchars : List ℕ → List ℕ
wchars [] = []
wchars (a ∷ []) = []
wchars (a ∷ b ∷ bytes) = (a + 256 * b) ∷ wchars bytes

unfoldable pub render_name : List ℕ → ℕ → List ℕ
unfolding mark_truncated
render_name name_data name_size =
    let copy_size = min name_size (length name_data) in
    mark_truncated (wchars (take copy_size name_data)) (ltb copy_size name_size)

-- The overload with an offset.
unfoldable pub render_name_at : List ℕ → ℕ → ℕ → List ℕ
unfolding render_name
render_name_at name_data name_offset name_size =
    render_name (drop (min name_offset (length name_data)) name_data) name_size

unfoldable pub render_terminated_name : List ℕ → List ℕ
unfolding extract mark_truncated
render_terminated_name name_data =
    let buffer = wchars name_data in
    let name = extract buffer in mark_truncated name (leb (length buffer) (length name))

unfoldable pub render_terminated_name_at : List ℕ → ℕ → List ℕ
unfolding render_terminated_name
render_terminated_name_at name_data name_offset =
    render_terminated_name (drop (min name_offset (length name_data)) name_data)

unfoldable pub render_ascii_name : List ℕ → ℕ → List ℕ
unfolding convert_from_ascii mark_truncated
render_ascii_name name_data name_size =
    let copy_size = min name_size (length name_data) in
    mark_truncated (convert_from_ascii (take copy_size name_data)) (ltb copy_size name_size)

unfoldable pub render_sized_bytes : List ℕ → ℕ → List ℕ
unfolding render_bytes
render_sized_bytes value_data value_size =
    let data_size = min value_size (length value_data) in
    render_bytes (take data_size value_data) (ltb data_size value_size)

-- The overload with an offset.
unfoldable pub render_bytes_at : List ℕ → ℕ → ℕ → List ℕ
unfolding render_sized_bytes
render_bytes_at value_data value_offset value_size =
    render_sized_bytes (drop (min value_offset (length value_data)) value_data) value_size
