-- ===== src/Client/Flags.antt =====
-- RenderFlags and CompositesPrecedeComponents of MiniMonClient/src/trace/names.cpp: the names of the
-- flags of a 32-bit word.
pub mod Laws
pub mod Single
use minifilter_monitor.Common.{
  ℕ, ◌-◌, Bool, true, not, List, [], ◌∷◌, ◌++◌, ◌&&◌, ◌==◌, bit_and, ones, take, length, is_empty,
  if◌then◌else◌,
}
use minifilter_monitor.Client.Number.{prefixed_hex}

pub record FlagName : Type 0 where
  pub flag : ℕ
  pub name : List ℕ

-- A table row.
abbrev pub row : ℕ → List ℕ → FlagName
row flag name = record { flag = flag; name = name }

-- The inner loop of CompositesPrecedeComponents.
unfoldable pub precedes : FlagName → List FlagName → Bool
precedes n [] = true
precedes n (m ∷ names) =
    not (bit_and n.flag m.flag == n.flag && not (n.flag == m.flag)) && precedes n names

unfoldable pub composites_precede_components : List FlagName → Bool
unfolding precedes
composites_precede_components [] = true
composites_precede_components (n ∷ names) = precedes n names && composites_precede_components names

-- flags & ~flag, on uint32_t.
abbrev pub cleared : ℕ → ℕ → ℕ
cleared flags flag = bit_and flags (ones 32 - flag)

-- What is left of the flags and the text, behind the loop of RenderFlags.
unfoldable pub flags_loop : ℕ → List FlagName → List ℕ → List ℕ → ℕ × List ℕ
unfolding ones
flags_loop flags [] separator result = (flags, result)
flags_loop flags (n ∷ names) separator result =
    flags_loop (if bit_and flags n.flag == n.flag then cleared flags n.flag else flags) names
      separator (if bit_and flags n.flag == n.flag then result ++ (n.name ++ separator) else result)

-- The flags without a name, in hexadecimal.
abbrev pub with_rest : List ℕ → ℕ × List ℕ → List ℕ
with_rest separator (flags, result) =
    if not (flags == 0) then result ++ (prefixed_hex flags ++ separator) else result

-- result.resize(result.size() - separator.size()), of a result that is not empty.
abbrev pub without_separator : List ℕ → List ℕ → List ℕ
without_separator separator result =
    if not (is_empty result) then take (length result - length separator) result else result

unfoldable pub render_flags : ℕ → List FlagName → List ℕ → List ℕ
unfolding flags_loop prefixed_hex
render_flags flags names separator =
    without_separator separator (with_rest separator (flags_loop flags names separator []))
