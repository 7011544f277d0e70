-- ===== src/Client/Entries.antt =====
-- The loops of MiniMonClient/src/trace that walk over the entries of a payload: eas.cpp, and quota.cpp,
-- ea.cpp, info.cpp and directory.cpp of details. They share one form, with a body for each kind.
pub mod Walks
pub mod Kinds
pub mod Arrays
use minifilter_monitor.Common.{
  ℕ, zero, suc, ◌-◌, Bool, true, false, not, List, [], ◌++◌, ◌==◌, is_empty, take, length, Option,
  none, some, if◌then◌else◌,
}
use minifilter_monitor.Client.Text.{mark_truncated}
use minifilter_monitor.Client.Payload.{advance}

-- What the body does with the entry at the offset: it breaks, it reads outside the payload, or it
-- appends a text, and NextEntryOffset is the last field.
pub data Entry : Type 0 where
  stop undefined : Entry
  entry : List ℕ → ℕ → Entry

-- How the loop ends: with the result and `terminated`.
pub data Walk : Type 0 where
  out_of_fuel undefined : Walk
  ended : List ℕ → Bool → Walk

-- The loop: the rounds allowed, the payload, the offset, the index and the result. The index counts
-- entries of a payload of 1104 bytes at most and does not wrap.
unfoldable pub walk : (List ℕ → ℕ → ℕ → Entry) → ℕ → List ℕ → ℕ → ℕ → List ℕ → Walk
unfolding advance
walk body zero payload offset index result = Walk.out_of_fuel
walk body (suc fuel) payload offset index result = elim (body payload offset index) [
  | Entry.stop ↦ Walk.ended result false
  | Entry.undefined ↦ Walk.undefined
  | Entry.entry text next ↦
      if next == 0 then Walk.ended (result ++ text) true else elim (advance payload offset next) [
        | none ↦ Walk.ended (result ++ text) false
        | some further ↦ walk body fuel payload further (suc index) (result ++ text)
      ]
]

-- Behind the loop: the last separator is dropped, or the text is marked.
unfoldable pub finish : ℕ → Walk → Option (List ℕ)
unfolding mark_truncated
finish separator_size Walk.out_of_fuel = none
finish separator_size Walk.undefined = none
finish separator_size (Walk.ended result terminated) = some (
    mark_truncated (if terminated then take (length result - separator_size) result else result)
      (not terminated))

unfoldable pub render_entries : (List ℕ → ℕ → ℕ → Entry) → ℕ → List ℕ → Option (List ℕ)
unfolding walk finish
render_entries body separator_size payload =
    if is_empty payload
    then some []
    else finish separator_size (walk body (suc (length payload)) payload 0 1 [])
