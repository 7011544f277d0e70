-- ===== src/Client/Details/Frames.antt =====
-- MiniMonClient/src/trace/details: volume.cpp and IRP_MJ_NETWORK_QUERY_OPEN of info.cpp have a text where
-- the member of the union that they read may be read.
use minifilter_monitor.Protocol.{RecordData}
use minifilter_monitor.Driver.Routing.Union.{Member}
use minifilter_monitor.Client.Details.Members.{IsReadable, extract_payload-IsSome}
use minifilter_monitor.Client.Details.Reading.{query_info_member-IsSome, volume_info_member-IsSome}
use minifilter_monitor.Client.Windows.{Windows}
use minifilter_monitor.Client.Details.Volumes.{render_volume}
use minifilter_monitor.Client.Details.Files.{render_network_query_open}
use minifilter_monitor.Client.Details.Defined.{HasText}

module _ (windows : Windows) (r : RecordData) where
  pub render_volume-HasText :
      IsReadable r.supplement Member.volume_info → HasText (render_volume windows r)
  unfolding render_volume
  render_volume-HasText h =
      let (s, e, room) = volume_info_member-IsSome r.supplement h in
      let (payload, f) = extract_payload-IsSome s room in simp (e, f)

  pub render_network_query_open-HasText :
      IsReadable r.supplement Member.query_info → HasText (render_network_query_open windows r)
  unfolding render_network_query_open
  render_network_query_open-HasText h =
      let (s, e, room) = query_info_member-IsSome r.supplement h in
      let (payload, f) = extract_payload-IsSome s room in simp (e, f)
