-- ===== src/Client/Names/Tests.antt =====
-- The static assertions of MiniMonClient/src/trace/names.cpp, and instances at concrete words.
use minifilter_monitor.Common.{ℕ, ◌≤◌, take, drop, join, ◌≡◌, refl, true, List, codes, ones, arith}
use minifilter_monitor.Client.Flags.{FlagName, row, composites_precede_components, render_flags}
use minifilter_monitor.Client.Flags.Laws.{AreFlags, Reading, parts, render_flags_lem}
use minifilter_monitor.Client.Flags.Single.{render_flags-single}
use minifilter_monitor.Client.Names.Operations.{
  paging_irp_flag_names, irp_flag_names, render_irp_flags,
}
use minifilter_monitor.Client.Names.Creates.{create_option_names}
use minifilter_monitor.Client.Names.Payloads.{rename_flag_names, link_flag_names}
use minifilter_monitor.Client.Names.Majors.{render_major_function-injective}

paging_ordered : composites_precede_components paging_irp_flag_names ≡ true
unfolding composites_precede_components
paging_ordered = refl

irp_ordered : composites_precede_components irp_flag_names ≡ true
unfolding composites_precede_components
irp_ordered = refl

create_options_ordered : composites_precede_components create_option_names ≡ true
unfolding composites_precede_components
create_options_ordered = refl

renames_ordered : composites_precede_components rename_flag_names ≡ true
unfolding composites_precede_components
renames_ordered = refl

links_ordered : composites_precede_components link_flag_names ≡ true
unfolding composites_precede_components
links_ordered = refl

-- 0x8043: non-cached, paging, synchronous paging, and a flag without a name.
paging_write : render_irp_flags 0x8043 ≡ codes "Non-cached|Paging I/O|Synchronous Paging I/O|0x8000"
unfolding render_irp_flags render_flags
paging_write = refl

small_word : 0x1181 ≤ ones 32
unfolding ones
small_word = omega arith

links-AreFlags : AreFlags link_flag_names
unfolding ones
links-AreFlags = ground arith

-- The row stands behind its composite, which holds another flag too.
render_flags-single_example :
    render_flags 0x80 link_flag_names (codes "|") ≡ codes "Force Resize Target SR"
render_flags-single_example =
    render_flags-single (take 8 link_flag_names) (drop 9 link_flag_names)
      (row 0x80 (codes "Force Resize Target SR")) (codes "|") links_ordered links-AreFlags
      (ground arith)

render_flags_lem_example :
    (chosen : List FlagName) × (rest : ℕ) × Reading 0x1181 link_flag_names chosen rest
    × (render_flags 0x1181 link_flag_names (codes "|") ≡ join (codes "|") (parts chosen rest))
render_flags_lem_example =
    render_flags_lem 0x1181 link_flag_names (codes "|") small_word links-AreFlags

render_major_function-injective_example : ◌≡◌ {A = ℕ} 0xF3 0xF3
render_major_function-injective_example =
    render_major_function-injective 0xF3 0xF3 (omega arith) (omega arith) refl

links_rendered :
    render_flags 0x1181 link_flag_names (codes "|")
    ≡ codes "Force Resize SR|Replace If Exists|0x1000"
unfolding render_flags
links_rendered = refl
