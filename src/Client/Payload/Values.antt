-- ===== src/Client/Payload/Values.antt =====
-- MiniMonClient/src/trace/values.cpp: single values. A value without a sign is a number below its
-- power of two, one with a sign is given by its bits. Times and security identifiers go through
-- Windows and are not modelled here.
use minifilter_monitor.Common.{
  ℕ, ◌-◌, ◌^◌, Bool, List, [], ◌++◌, ◌==◌, ◌||◌, ltb, min, take, drop, length, codes, concat_map,
  if◌then◌else◌,
}
use minifilter_monitor.Client.Text.{format_hex, mark_truncated}
use minifilter_monitor.Client.Number.{to_wstring, to_wstring_signed, prefixed_hex, little_endian}

unfoldable pub render_boolean : Bool → List ℕ
render_boolean value = if value then codes "True" else codes "False"

-- FILE_WRITE_TO_END_OF_FILE is -1 and FILE_USE_FILE_POINTER_POSITION is -2.
unfoldable pub render_byte_offset : ℕ → List ℕ
unfolding to_wstring_signed
render_byte_offset offset =
    if offset == 2 ^ 64 - 1
    then codes "EOF"
    else if offset == 2 ^ 64 - 2
    then codes "Current"
    else to_wstring_signed offset

unfoldable pub render_partition_number : ℕ → List ℕ
unfolding to_wstring
render_partition_number number = if number == 0xFFFFFFFF then codes "n/a" else to_wstring number

unfoldable pub render_object_id : ℕ → List ℕ
unfolding format_hex
render_object_id id = if id == 0 then [] else format_hex 16 id

unfoldable pub render_top_level_irp : ℕ → List ℕ
unfolding render_object_id
render_top_level_irp irp =
    if irp == 1
    then codes "FSP"
    else if irp == 2
    then codes "CACHE"
    else if irp == 3
    then codes "MOD_WRITE"
    else if irp == 4
    then codes "FAST_IO"
    else if irp == 5
    then codes "NETWORK1"
    else if irp == 6
    then codes "NETWORK2"
    else if irp == 7
    then codes "ASYNC_CACHED_READ"
    else if irp == 8
    then codes "VOLSNAP"
    else render_object_id irp

unfoldable pub render_file_id : ℕ → List ℕ
unfolding prefixed_hex
render_file_id id = prefixed_hex id

-- The overload for 16 bytes, given as their two 64-bit halves.
unfoldable pub render_file_id_128 : ℕ → ℕ → List ℕ
unfolding render_file_id format_hex
render_file_id_128 low high =
    if high == 0 then render_file_id low else prefixed_hex high ++ format_hex 16 low

unfoldable pub render_bytes : List ℕ → Bool → List ℕ
unfolding format_hex mark_truncated
render_bytes bytes truncated =
    let copy_size = min (length bytes) 32 in
    mark_truncated (concat_map (format_hex 2) (take copy_size bytes))
      (truncated || ltb copy_size (length bytes))

-- 16 bytes: a word of 32 bits, two of 16 bits, and eight bytes.
unfoldable pub render_guid : List ℕ → List ℕ
unfolding format_hex
render_guid guid =
    format_hex 8 (little_endian (take 4 guid))
    ++ (codes "-"
        ++ (format_hex 4 (little_endian (take 2 (drop 4 guid)))
            ++ (codes "-"
                ++ (format_hex 4 (little_endian (take 2 (drop 6 guid)))
                    ++ (codes "-"
                        ++ (concat_map (format_hex 2) (take 2 (drop 8 guid))
                            ++ (codes "-"
                                ++ concat_map (format_hex 2) (take 6 (drop 10 guid)))))))))
