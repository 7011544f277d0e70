-- ===== src/Client/Entries/Arrays.antt =====
-- The loops of MiniMonClient/src/trace/details/directory.cpp over items of one size, which end where
-- no whole item is left.
use minifilter_monitor.Common.{
  ℕ, zero, suc, ◌+◌, ◌-◌, ◌≤◌, ◌<◌, ◌≡◌, refl, Bool, not, List, [], ◌∷◌, ◌++◌, ◌||◌, is_empty, take,
  drop, length, Option, none, some, Option-cases, inl, inr, codes, arith, if◌then◌else◌,
}
use minifilter_monitor.Client.Number.{to_wstring}
use minifilter_monitor.Client.Text.{mark_truncated}
use minifilter_monitor.Client.Payload.{read_value, fits, member}
use minifilter_monitor.Client.Payload.Values.{render_file_id, render_guid}
use minifilter_monitor.Client.Windows.{Windows}

-- The loop, with the rounds allowed; `none` means that they ran out.
unfoldable pub items_loop :
    ℕ → (ℕ → List ℕ → List ℕ) → ℕ → List ℕ → ℕ → ℕ → List ℕ → Option (List ℕ)
unfolding read_value
items_loop size text zero payload offset index result = none
items_loop size text (suc fuel) payload offset index result =
    elim (read_value payload size offset) [
      | none ↦ some result
      | some item ↦
          items_loop size text fuel payload (offset + size) (suc index) (result ++ text index item)
    ]

-- Behind the loop: a text without items is marked as one that was cut off.
unfoldable pub finish_items : Bool → List ℕ → List ℕ
unfolding mark_truncated
finish_items truncated result =
    let marked = truncated || is_empty result in
    mark_truncated (if not marked then take (length result - 2) result else result) marked

unfoldable pub render_items : ℕ → (ℕ → List ℕ → List ℕ) → List ℕ → Bool → Option (List ℕ)
render_items size text payload truncated =
    if is_empty payload
    then some []
    else elim (items_loop size text (suc (length payload)) payload 0 1 []) [
      | none ↦ none
      | some result ↦ some (finish_items truncated result)
    ]

-- RenderObjectIdsPayload: FILE_OBJECTID_INFORMATION.
unfoldable pub object_id_text : ℕ → List ℕ → List ℕ
unfolding to_wstring render_file_id render_guid member
object_id_text index item =
    to_wstring index
    ++ (codes ": FileReference: "
        ++ (render_file_id (member item 0 8)
            ++ (codes ", ObjectId: " ++ (render_guid (take 16 (drop 8 item)) ++ codes ", "))))

unfoldable pub render_object_ids_payload : List ℕ → Bool → Option (List ℕ)
render_object_ids_payload payload truncated = render_items 72 object_id_text payload truncated

-- RenderReparsePointsPayload: FILE_REPARSE_POINT_INFORMATION.
unfoldable pub reparse_point_text : Windows → ℕ → List ℕ → List ℕ
unfolding to_wstring render_file_id member
reparse_point_text windows index item =
    to_wstring index
    ++ (codes ": FileReference: "
        ++ (render_file_id (member item 0 8)
            ++ (codes ", Tag: " ++ (windows.render_reparse_tag (member item 8 4) ++ codes ", "))))

unfoldable pub render_reparse_points_payload : Windows → List ℕ → Bool → Option (List ℕ)
render_reparse_points_payload windows payload truncated =
    render_items 16 (reparse_point_text windows) payload truncated

read_value-inside :
    (payload : List ℕ) (size offset : ℕ) (item : List ℕ)
    → read_value payload size offset ≡ some item
    → offset + size ≤ length payload
unfolding read_value fits
read_value-inside payload size offset item h = ground (arith, h)

-- Items of at least one byte end within as many rounds as there are bytes, and one more.
items_loop-ends :
    (size : ℕ) (text : ℕ → List ℕ → List ℕ) (fuel : ℕ) (payload : List ℕ) (offset index : ℕ)
    (result : List ℕ)
    → 0 < size
    → length payload < offset + fuel
    → offset ≤ length payload
    → (r : List ℕ) × (items_loop size text fuel payload offset index result ≡ some r)
unfolding items_loop
items_loop-ends size text zero payload offset index result some_bytes enough inside =
    absurd (omega arith)
items_loop-ends size text (suc fuel) payload offset index result some_bytes enough inside =
    elim (Option-cases (read_value payload size offset)) [
      | inl at_end ↦ (result, rw (at_end, items_loop))
      | inr (item, e) ↦
          let room = read_value-inside payload size offset item e in
          let (r, run) =
            items_loop-ends size text fuel payload (offset + size) (suc index)
              (result ++ text index item) some_bytes (omega arith) room in
          (r, rw (e, items_loop) run)
    ]

pub render_items-ends :
    (size : ℕ) (text : ℕ → List ℕ → List ℕ) (payload : List ℕ) (truncated : Bool)
    → 0 < size
    → (r : List ℕ) × (render_items size text payload truncated ≡ some r)
unfolding render_items
render_items-ends size text [] truncated some_bytes = ([], refl)
render_items-ends size text (b ∷ bytes) truncated some_bytes =
    let (r, run) =
      items_loop-ends size text (suc (length (b ∷ bytes))) (b ∷ bytes) 0 1 [] some_bytes
        (omega arith) (omega arith) in
    (finish_items truncated r, rw (run, render_items))
