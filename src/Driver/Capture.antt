-- ===== src/Driver/Capture.antt =====
-- MiniMonFlt/src/trace/supplement/: the functions that copy an operation's buffer into the payload of
-- its supplement. `data_size` is what the buffer holds, `bytes` the payload array of the supplement.
pub mod Payloads
mod Tests
use minifilter_monitor.Common.{
  ℕ, ◌+◌, Bool, true, false, not, List, ◌&&◌, ◌||◌, Option, none, some, ltb, ◌==◌, is_some, length,
  overwrite, if◌then◌else◌,
}
use minifilter_monitor.Protocol.Supplements.{Payload, PairSupplement, NamedSupplement}
use minifilter_monitor.Driver.State.{below_dispatch_level}
use minifilter_monitor.Driver.Memory.{
  CallbackData, Mdl, Memory, get_readable_buffer, copy_readable_buffer, read_bytes,
  is_raw_buffer_readable,
}

-- The end of each function: the TRUNCATED bit if not all data fits, the size, the CAPTURED bit.
abbrev pub mark_captured : ℕ → ℕ → List ℕ → Payload → Payload
mark_captured copy_size data_size bytes p = record {
  captured = true;
  truncated = p.truncated || ltb copy_size data_size;
  captured_size = copy_size;
  bytes = bytes;
}

abbrev pub fitting : ℕ → Payload → ℕ
fitting size p = if ltb size (length p.bytes) then size else length p.bytes

abbrev pub after_copy : Bool × List ℕ → ℕ → ℕ → Payload → Payload
after_copy (true, bytes) copy_size data_size p = mark_captured copy_size data_size bytes p
after_copy (false, bytes) copy_size data_size p = record p { bytes = bytes }

-- CopyReadableBuffer into the payload, and the end.
unfoldable pub copy_readable : Memory → ℕ → ℕ → ℕ → Payload → Payload
copy_readable m a copy_size data_size p =
    after_copy (copy_readable_buffer m p.bytes a copy_size) copy_size data_size p

-- From GetReadableBuffer to the end.
unfoldable pub copy_from : Memory → Option ℕ × ℕ → ℕ → Payload → Payload
unfolding copy_readable
copy_from m (none, readable_size) data_size p = p
copy_from m (some a, readable_size) data_size p =
    if readable_size == 0 then p else copy_readable m a (fitting readable_size p) data_size p

-- readwrite::PopulateWrite; ea::PopulateSet and quota::PopulateSet are the same on their payloads.
unfoldable pub populate_write :
    Memory → CallbackData → Option Mdl → Option ℕ → ℕ → Payload → Payload
unfolding copy_from
populate_write m d mdl buffer buffer_size p =
    if buffer_size == 0
    then p
    else copy_from m (get_readable_buffer d mdl buffer buffer_size true) buffer_size p

-- What the completion wrote, at most the buffer's size.
abbrev pub written : CallbackData → ℕ → ℕ
written d buffer_size = if ltb d.information buffer_size then d.information else buffer_size

-- readwrite::PopulateRead; directory::PopulateNotify is the same on its payload.
unfoldable pub populate_read : Memory → CallbackData → Option Mdl → Option ℕ → ℕ → Payload → Payload
unfolding copy_from
populate_read m d mdl buffer buffer_size p =
    if buffer_size == 0 || d.information == 0
    then p
    else let data_size = written d buffer_size in
      copy_from m (get_readable_buffer d mdl buffer data_size true) data_size p

-- ea::PopulateQuery.
unfoldable pub populate_ea_query :
    Memory → CallbackData → Option Mdl → Option ℕ → ℕ → PairSupplement → PairSupplement
unfolding populate_read
populate_ea_query m d mdl buffer size s = record s {
  second = populate_read m d mdl buffer size s.second;
}

-- quota::PopulateQuery.
unfoldable pub populate_quota_query :
    Memory → CallbackData → Option Mdl → Option ℕ → ℕ → PairSupplement → PairSupplement
unfolding populate_read
populate_quota_query m d mdl buffer size s = record s {
  second = populate_read m d mdl buffer size s.second;
}

-- directory::PopulateQuery.
unfoldable pub populate_directory_query :
    Memory → CallbackData → Option Mdl → Option ℕ → ℕ → NamedSupplement → NamedSupplement
unfolding populate_read
populate_directory_query m d mdl buffer size s = record s {
  payload = populate_read m d mdl buffer size s.payload;
}

-- The direct copies: below DISPATCH_LEVEL, from a buffer that the I/O manager has captured. They are
-- not guarded, so `byte` alone says what they read.
unfoldable pub copy_direct : Memory → ℕ → ℕ → Payload → Payload
copy_direct m a data_size p =
    let copy_size = fitting data_size p in
    mark_captured copy_size data_size (overwrite p.bytes (read_bytes m.byte a copy_size)) p

-- volume::PopulateSet; the lists of ea::PopulateEaList and quota::PopulateSidList are copied alike,
-- and so is the buffer of info::PopulateQueryOpen.
unfoldable pub populate_volume_set : Memory → CallbackData → Option ℕ → ℕ → Payload → Payload
unfolding copy_direct
populate_volume_set m d none size p = p
populate_volume_set m d (some a) size p =
    if not (below_dispatch_level d.irql) || size == 0 then p else copy_direct m a size p

-- ea::PopulateEaList.
unfoldable pub populate_ea_list :
    Memory → CallbackData → Option ℕ → ℕ → PairSupplement → PairSupplement
unfolding populate_volume_set
populate_ea_list m d list size s = record s { first = populate_volume_set m d list size s.first }

-- quota::PopulateSidList.
unfoldable pub populate_sid_list :
    Memory → CallbackData → Option ℕ → ℕ → PairSupplement → PairSupplement
unfolding populate_volume_set
populate_sid_list m d list size s = record s { first = populate_volume_set m d list size s.first }

-- volume::PopulateQuery.
unfoldable pub populate_volume_query : Memory → CallbackData → Option ℕ → ℕ → Payload → Payload
unfolding copy_direct
populate_volume_query m d none size p = p
populate_volume_query m d (some a) size p =
    if not (below_dispatch_level d.irql) || size == 0 || d.information == 0
    then p
    else copy_direct m a (written d size) p

-- info::PopulateQuery; `fast_io` is FLT_IS_FASTIO_OPERATION.
unfoldable pub populate_info_query : Memory → CallbackData → Bool → Option ℕ → ℕ → Payload → Payload
unfolding copy_readable
populate_info_query m d fast_io none size p = p
populate_info_query m d fast_io (some a) size p =
    if size == 0 || d.information == 0
    then p
    else if fast_io && not (is_raw_buffer_readable d (some a) (written d size) true)
    then p
    else copy_readable m a (fitting (written d size) p) (written d size) p
