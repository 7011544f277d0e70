-- ===== src/Client/Filter.antt =====
-- MiniMonClient/src/filter.cpp: the client's calls of the Filter Manager. What a call returns is an
-- argument; the calls that change the Filter Manager's state are listed in the order they are made.
pub mod Attaching
pub mod Receiving
mod Tests
use minifilter_monitor.Common.{
  ℕ, zero, suc, ◌+◌, ◌/◌, ◌%◌, Bool, true, false, not, List, [], ◌∷◌, ◌++◌, ◌||◌, ◌&&◌, ◌==◌,
  is_empty, map, if◌then◌else◌,
}
use minifilter_monitor.Protocol.{record_size}

-- The HRESULTs that the code names; `other` is one that it does not name, with SUCCEEDED of it.
pub data HResult : Type 0 where
  s_ok instance_name_collision volume_not_found file_not_found no_more_items : HResult
  already_exists service_already_running filter_not_found invalid_data : HResult
  other : Bool → ℕ → HResult

abbrev pub succeeded : HResult → Bool
succeeded s_ok = true
succeeded (other good code) = good
succeeded h = false

abbrev pub is_collision : HResult → Bool
is_collision instance_name_collision = true
is_collision h = false

-- FilterAttach and FilterDetach, with the names of the volume and of the instance.
pub data Call : Type 0 where
  filter_attach filter_detach : List ℕ → List ℕ → Call

-- DetachInstances: a failure is printed and does not end the loop.
unfoldable pub detach_instances : List ℕ → List (List ℕ) → List Call
detach_instances volume names = map (filter_detach volume) names

-- The loop of AttachInstances; `attached` are the names before the current one.
unfoldable pub attach_instances_loop :
    (List ℕ → List ℕ → HResult) → List ℕ → List (List ℕ) → List (List ℕ) → HResult × List Call
unfolding detach_instances
attach_instances_loop attach volume attached [] = (s_ok, [])
attach_instances_loop attach volume attached (name ∷ names) =
    let (status, calls) = attach_instances_loop attach volume (attached ++ (name ∷ [])) names in
    if succeeded (attach volume name) || is_collision (attach volume name)
    then (status, filter_attach volume name ∷ calls)
    else (attach volume name, filter_attach volume name ∷ detach_instances volume attached)

unfoldable pub attach_instances :
    (List ℕ → List ℕ → HResult) → List ℕ → List (List ℕ) → HResult × List Call
unfolding attach_instances_loop
attach_instances attach volume names = attach_instances_loop attach volume [] names

-- The loop of Attach: hLastRes, attachedVolumeCount and the calls.
unfoldable pub attach_loop :
    (List ℕ → List ℕ → HResult)
    → List (List ℕ)
    → List (List ℕ)
    → HResult
    → ℕ
    → HResult × ℕ × List Call
unfolding attach_instances
attach_loop attach names [] last count = (last, count, [])
attach_loop attach names (volume ∷ volumes) last count =
    let (status, calls) = attach_instances attach volume names in
    let (last', count', calls') =
      attach_loop attach names volumes (if succeeded status then last else status)
        (if succeeded status then count + 1 else count) in
    (last', count', calls ++ calls')

-- Attach, with the names that GetInstalledInstanceNames returns.
unfoldable pub attach_volumes :
    (List ℕ → List ℕ → HResult) → List (List ℕ) → List (List ℕ) → HResult × List Call
unfolding attach_loop
attach_volumes attach names volumes =
    if is_empty volumes
    then (volume_not_found, [])
    else if is_empty names
    then (file_not_found, [])
    else let (last, count, calls) = attach_loop attach names volumes s_ok 0 in
      (if count == 0 then last else s_ok, calls)

-- The end of Load, and of Unload, on what FilterLoad and FilterUnload return.
abbrev pub load_result : HResult → HResult
load_result already_exists = s_ok
load_result service_already_running = s_ok
load_result h = h

abbrev pub unload_result : HResult → HResult
unload_result filter_not_found = s_ok
unload_result h = h

-- Load and Unload: the privilege, then the call.
unfoldable pub load : HResult → HResult → HResult
load privilege loading = if not (succeeded privilege) then privilege else load_result loading

unfoldable pub unload : HResult → HResult → HResult
unload privilege unloading =
    if not (succeeded privilege) then privilege else unload_result unloading

abbrev pub is_no_more_items : HResult → Bool
is_no_more_items no_more_items = true
is_no_more_items h = false

-- GetRecords on what FilterSendMessage returns and how many bytes it reports: the result, and how
-- many of the buffer's `size` records remain.
unfoldable pub get_records : HResult → ℕ → ℕ → HResult × ℕ
get_records status bytes_returned size =
    if is_no_more_items status
    then (s_ok, 0)
    else if not (succeeded status)
    then (status, size)
    else if not (bytes_returned % record_size == 0)
    then (invalid_data, size)
    else (s_ok, bytes_returned / record_size)
