-- ===== src/Client/Details/Agreement.antt =====
-- The driver's writing of the supplement union (MiniMonFlt/src/trace/supplement.cpp) and the client's
-- reading of it (MiniMonClient/src/trace/details.cpp).
use minifilter_monitor.Common.{
  ℕ, ◌≡◌, refl, subst, Bool, false, not, ◌==◌, some, ◌⊎◌, inl, inr, arith, ◌∙◌, ap,
}
use minifilter_monitor.Protocol.{RecordData}
use minifilter_monitor.Protocol.Supplements.{Supplement}
use minifilter_monitor.Driver.Routing.{
  MajorFunction, Parameters, Populate, pre_operation_switch, post_operation_switch, irp_mj_create,
  irp_mj_read, irp_mj_write, irp_mj_query_information, irp_mj_set_information, irp_mj_query_ea,
  irp_mj_set_ea, irp_mj_query_volume_information, irp_mj_set_volume_information,
  irp_mj_directory_control, irp_mj_file_system_control, irp_mj_device_control,
  irp_mj_internal_device_control, irp_mj_lock_control, irp_mj_query_security, irp_mj_set_security,
  irp_mj_system_control, irp_mj_query_quota, irp_mj_set_quota, irp_mj_acquire_for_mod_write,
  irp_mj_volume_mount, irp_mj_query_open, irp_mj_network_query_open, irp_mj_other,
}
use minifilter_monitor.Driver.Routing.Union.{Member, member}
use minifilter_monitor.Client.Windows.{Windows}
use minifilter_monitor.Client.Details.{render}
use minifilter_monitor.Client.Details.Members.{written_member}
use minifilter_monitor.Client.Details.Payloads.{PayloadTexts}
use minifilter_monitor.Client.Details.Defined.{HasText, if-HasText}
use minifilter_monitor.Client.Details.Members.{IsFilled}
use minifilter_monitor.Client.Details.Rendering.{by_class, reads, render_major-HasText}

-- The code of a major function; every other operation has a code of its own, which is not told.
abbrev pub IsMajor : MajorFunction → ℕ → Type 0
IsMajor irp_mj_create code = code ≡ 0
IsMajor irp_mj_read code = code ≡ 3
IsMajor irp_mj_write code = code ≡ 4
IsMajor irp_mj_query_information code = code ≡ 5
IsMajor irp_mj_set_information code = code ≡ 6
IsMajor irp_mj_query_ea code = code ≡ 7
IsMajor irp_mj_set_ea code = code ≡ 8
IsMajor irp_mj_query_volume_information code = code ≡ 0xa
IsMajor irp_mj_set_volume_information code = code ≡ 0xb
IsMajor irp_mj_directory_control code = code ≡ 0xc
IsMajor irp_mj_file_system_control code = code ≡ 0xd
IsMajor irp_mj_device_control code = code ≡ 0xe
IsMajor irp_mj_internal_device_control code = code ≡ 0xf
IsMajor irp_mj_lock_control code = code ≡ 0x11
IsMajor irp_mj_query_security code = code ≡ 0x14
IsMajor irp_mj_set_security code = code ≡ 0x15
IsMajor irp_mj_system_control code = code ≡ 0x17
IsMajor irp_mj_query_quota code = code ≡ 0x19
IsMajor irp_mj_set_quota code = code ≡ 0x1a
IsMajor irp_mj_acquire_for_mod_write code = code ≡ 0xfd
IsMajor irp_mj_volume_mount code = code ≡ 0xed
IsMajor irp_mj_query_open code = code ≡ 0xf9
IsMajor irp_mj_network_query_open code = code ≡ 0xf2
IsMajor irp_mj_other code = Unit

-- The function is called before or after the operation.
abbrev pub IsCalled : MajorFunction → ℕ → Parameters → Bool → Populate → Type 0
IsCalled major minor p has_volume f =
    (pre_operation_switch major minor p has_volume ≡ some f)
    ⊎ (post_operation_switch major minor p ≡ some f)

-- The supplement is zeroed, or was last written by a function that the driver calls.
abbrev pub IsWritten : MajorFunction → ℕ → Parameters → Bool → Supplement → Type 0
IsWritten major minor p has_volume s =
    (s ≡ Supplement.zeroed)
    ⊎ ((f : Populate) × IsCalled major minor p has_volume f × (written_member s ≡ some (member f)))

-- The code of a major function; every other operation is given that of IRP_MJ_CREATE.
abbrev code_of : MajorFunction → ℕ
code_of irp_mj_create = 0
code_of irp_mj_read = 3
code_of irp_mj_write = 4
code_of irp_mj_query_information = 5
code_of irp_mj_set_information = 6
code_of irp_mj_query_ea = 7
code_of irp_mj_set_ea = 8
code_of irp_mj_query_volume_information = 0xa
code_of irp_mj_set_volume_information = 0xb
code_of irp_mj_directory_control = 0xc
code_of irp_mj_file_system_control = 0xd
code_of irp_mj_device_control = 0xe
code_of irp_mj_internal_device_control = 0xf
code_of irp_mj_lock_control = 0x11
code_of irp_mj_query_security = 0x14
code_of irp_mj_set_security = 0x15
code_of irp_mj_system_control = 0x17
code_of irp_mj_query_quota = 0x19
code_of irp_mj_set_quota = 0x1a
code_of irp_mj_acquire_for_mod_write = 0xfd
code_of irp_mj_volume_mount = 0xed
code_of irp_mj_query_open = 0xf9
code_of irp_mj_network_query_open = 0xf2
code_of irp_mj_other = 0

-- The function writes the member that the client reads at the code of the major function.
reads-code_of :
    (major : MajorFunction) (minor : ℕ) (p : Parameters) (has_volume : Bool) (f : Populate)
    (m : Member)
    → IsCalled major minor p has_volume f
    → reads (code_of major) minor ≡ some m
    → member f ≡ m
unfolding reads pre_operation_switch post_operation_switch member
reads-code_of irp_mj_create minor p v f m c h = ground arith
reads-code_of irp_mj_read minor p v f m c h = ground arith
reads-code_of irp_mj_write minor p v f m c h = ground arith
reads-code_of irp_mj_query_information minor p v f m c h = ground arith
reads-code_of irp_mj_set_information minor p v f m c h = ground arith
reads-code_of irp_mj_query_ea minor p v f m c h = ground arith
reads-code_of irp_mj_set_ea minor p v f m c h = ground arith
reads-code_of irp_mj_query_volume_information minor p v f m c h = ground arith
reads-code_of irp_mj_set_volume_information minor p v f m c h = ground arith
reads-code_of irp_mj_directory_control minor p v f m c h = ground arith
reads-code_of irp_mj_file_system_control minor p v f m c h = ground arith
reads-code_of irp_mj_device_control minor p v f m c h = ground arith
reads-code_of irp_mj_internal_device_control minor p v f m c h = ground arith
reads-code_of irp_mj_lock_control minor p v f m c h = ground arith
reads-code_of irp_mj_query_security minor p v f m c h = ground arith
reads-code_of irp_mj_set_security minor p v f m c h = ground arith
reads-code_of irp_mj_system_control minor p v f m c h = ground arith
reads-code_of irp_mj_query_quota minor p v f m c h = ground arith
reads-code_of irp_mj_set_quota minor p v f m c h = ground arith
reads-code_of irp_mj_acquire_for_mod_write minor p v f m c h = ground arith
reads-code_of irp_mj_volume_mount minor p v f m c h = ground arith
reads-code_of irp_mj_query_open minor p v f m c h = ground arith
reads-code_of irp_mj_network_query_open minor p v f m c h = ground arith
reads-code_of irp_mj_other minor p v f m c h = ground arith

-- No function is called for another operation.
code_of_lem :
    (major : MajorFunction) (code minor : ℕ) (p : Parameters) (has_volume : Bool) (f : Populate)
    → IsMajor major code
    → IsCalled major minor p has_volume f
    → code ≡ code_of major
unfolding pre_operation_switch post_operation_switch
code_of_lem irp_mj_create code minor p v f e c = e
code_of_lem irp_mj_read code minor p v f e c = e
code_of_lem irp_mj_write code minor p v f e c = e
code_of_lem irp_mj_query_information code minor p v f e c = e
code_of_lem irp_mj_set_information code minor p v f e c = e
code_of_lem irp_mj_query_ea code minor p v f e c = e
code_of_lem irp_mj_set_ea code minor p v f e c = e
code_of_lem irp_mj_query_volume_information code minor p v f e c = e
code_of_lem irp_mj_set_volume_information code minor p v f e c = e
code_of_lem irp_mj_directory_control code minor p v f e c = e
code_of_lem irp_mj_file_system_control code minor p v f e c = e
code_of_lem irp_mj_device_control code minor p v f e c = e
code_of_lem irp_mj_internal_device_control code minor p v f e c = e
code_of_lem irp_mj_lock_control code minor p v f e c = e
code_of_lem irp_mj_query_security code minor p v f e c = e
code_of_lem irp_mj_set_security code minor p v f e c = e
code_of_lem irp_mj_system_control code minor p v f e c = e
code_of_lem irp_mj_query_quota code minor p v f e c = e
code_of_lem irp_mj_set_quota code minor p v f e c = e
code_of_lem irp_mj_acquire_for_mod_write code minor p v f e c = e
code_of_lem irp_mj_volume_mount code minor p v f e c = e
code_of_lem irp_mj_query_open code minor p v f e c = e
code_of_lem irp_mj_network_query_open code minor p v f e c = e
code_of_lem irp_mj_other code minor p v f e c = ground arith

-- The function writes the member that the client reads.
reads-member :
    (major : MajorFunction) (code minor : ℕ) (p : Parameters) (has_volume : Bool) (f : Populate)
    (m : Member)
    → IsMajor major code
    → IsCalled major minor p has_volume f
    → reads code minor ≡ some m
    → member f ≡ m
reads-member major code minor p v f m e c h =
    reads-code_of major minor p v f m c
      (subst (λ k. reads k minor ≡ some m) (code_of_lem major code minor p v f e c) h)

-- Every record of an operation that is not rendered by information class or control code, whose
-- supplement is zeroed or was last written by a function that the driver calls for the record's major
-- and minor function, with captured sizes that lie in their arrays, is given a text: the client reads no
-- member that another function wrote, every loop over entries ends, and no span reaches past its array.
pub render-HasText :
    (windows : Windows) (texts : PayloadTexts) (r : RecordData) (major : MajorFunction)
    (p : Parameters) (has_volume : Bool)
    → IsMajor major r.callback_major_id
    → by_class r.callback_major_id ≡ false
    → IsWritten major r.callback_minor_id p has_volume r.supplement
    → IsFilled r.supplement
    → HasText (render windows texts r)
unfolding render
render-HasText windows texts r major p has_volume e other written filled =
    if-HasText (not (r.transaction_notify == 0)) _ _ refl (
      render_major-HasText windows texts r r.callback_major_id other (λ m h. (
        filled,
        elim written [
          | inl zeroed ↦ inl zeroed
          | inr (f, called, w) ↦ inr (
              w
              ∙ ap some (
                  reads-member major r.callback_major_id r.callback_minor_id p has_volume f m e
                    called h))
        ],
      )))
