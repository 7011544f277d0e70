-- ===== src/Client/Filter/Receiving.antt =====
-- GetRecords of MiniMonClient/src/filter.cpp, on what MiniMonFlt/src/records.cpp reports.
use minifilter_monitor.Common.{ℕ, ◌*◌, ◌^◌, ◌<◌, ◌≡◌, arith, length, Option, true}
use minifilter_monitor.Protocol.{record_size}
use minifilter_monitor.Driver.Status.{NtStatus}
use minifilter_monitor.Driver.Records.{Store, drain}
use minifilter_monitor.Driver.Records.Bounds.{IsCounted}
use minifilter_monitor.Driver.Records.Drains.{drain_splits}
use minifilter_monitor.Client.Filter.{
  HResult, instance_name_collision, volume_not_found, file_not_found, no_more_items, already_exists,
  service_already_running, filter_not_found, invalid_data, other, s_ok, succeeded, get_records,
}

received :
    (status : HResult) (n size : ℕ)
    → succeeded status ≡ true
    → get_records status (n * record_size) size ≡ (s_ok, n)
unfolding get_records
received s_ok n size h = ground arith
received (other good code) n size h = ground (arith, h)
received instance_name_collision n size h = absurd (ground (arith, h))
received volume_not_found n size h = absurd (ground (arith, h))
received file_not_found n size h = absurd (ground (arith, h))
received no_more_items n size h = absurd (ground (arith, h))
received already_exists n size h = absurd (ground (arith, h))
received service_already_running n size h = absurd (ground (arith, h))
received filter_not_found n size h = absurd (ground (arith, h))
received invalid_data n size h = absurd (ground (arith, h))

-- Where FilterSendMessage succeeds with the size that Drain has reported, GetRecords keeps as many
-- records of its buffer as Drain has written, and never takes the size for a corrupt one.
pub get_records-drain :
    (fault : ℕ → Option NtStatus) (size held : ℕ) (s : Store) (status : HResult)
    → size * record_size < 2 ^ 32
    → IsCounted held s
    → succeeded status ≡ true
    → let d = drain fault (size * record_size) s in
      get_records status d.written_size size ≡ (s_ok, length d.written)
get_records-drain fault size held s status h v good =
    let (split, written, fits, counted, drops, sequence) =
      drain_splits fault (size * record_size) held s h v in
    rw written (received status (length (drain fault (size * record_size) s).written) size good)
