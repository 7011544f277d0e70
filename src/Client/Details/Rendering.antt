-- ===== src/Client/Details/Rendering.antt =====
-- The client's reading of the supplement union (MiniMonClient/src/trace/details.cpp) against the
-- driver's writing of it (MiniMonFlt/src/trace/supplement.cpp).
use minifilter_monitor.Common.{
  arith, ℕ, ◌≡◌, refl, Bool, true, false, ◌||◌, ◌==◌, List, Option, none, some, if◌then◌else◌,
}
use minifilter_monitor.Protocol.{RecordData}
use minifilter_monitor.Protocol.Supplements.{Supplement}
use minifilter_monitor.Driver.Routing.Union.{Member}
use minifilter_monitor.Client.Windows.{Windows}
use minifilter_monitor.Client.Details.{render_major}
use minifilter_monitor.Client.Details.Members.{IsReadable}
use minifilter_monitor.Client.Details.Directories.{render_directory}
use minifilter_monitor.Client.Details.Payloads.{PayloadTexts}
use minifilter_monitor.Client.Details.Defined.{
  HasText, render_copy-HasText, render_query_ea-HasText, render_set_ea-HasText, render_lock-HasText,
  render_wmi-HasText, render_acquire-HasText, render_create-HasText, render_query_quota-HasText,
  render_set_quota-HasText, render_query_security-HasText, render_set_security-HasText,
  render_mount-HasText, render_query_directory-HasText, render_notify_directory-HasText,
}
use minifilter_monitor.Client.Details.Frames.{
  render_network_query_open-HasText, render_volume-HasText,
}

-- The member that the client reads for a major and a minor function.
unfoldable pub reads : ℕ → ℕ → Option Member
reads major minor =
    if major == 0
    then some Member.create
    else if major == 3 || major == 4
    then some Member.read_write
    else if major == 5
    then some Member.query_info
    else if major == 6
    then some Member.set_info
    else if major == 7
    then some Member.query_ea
    else if major == 8
    then some Member.set_ea
    else if major == 9
    then none
    else if major == 0x0A || major == 0x0B
    then some Member.volume_info
    else if major == 0x0C
    then (if minor == 1
        then some Member.query_directory
        else if minor == 2 || minor == 3
        then some Member.notify_directory
        else none)
    else if major == 0x0D
    then some Member.fs_control
    else if major == 0x0E || major == 0x0F
    then some Member.device_io_control
    else if major == 0x11
    then some Member.lock_control
    else if major == 0x14
    then some Member.security
    else if major == 0x15
    then some Member.security
    else if major == 0x17
    then some Member.wmi
    else if major == 0x19
    then some Member.query_quota
    else if major == 0x1A
    then some Member.set_quota
    else if major == 0x1B
    then none
    else if major == 0xFF
    then none
    else if major == 0xFD
    then some Member.mod_write
    else if major == 0xFC
    then none
    else if major == 0xF9
    then some Member.query_info
    else if major == 0xF3
    then none
    else if major == 0xF2
    then some Member.query_info
    else if major == 0xF1 || major == 0xEF
    then none
    else if major == 0xF0
    then none
    else if major == 0xEE
    then none
    else if major == 0xED
    then some Member.mount
    else none

-- The operations whose text depends on texts by information class or control code: queries and
-- settings of files, and the requests to file systems and devices.
abbrev pub by_class : ℕ → Bool
by_class major =
    major == 5 || major == 6 || major == 0x0D || major == 0x0E || major == 0x0F || major == 0xF9

-- What is read may be read.
abbrev pub Reads : Supplement → Option Member → Type 0
Reads s o = (m : Member) → o ≡ some m → IsReadable s m

-- A branch of the rendering beside the same branch of what is read.
branch :
    (s : Supplement) (b : Bool) (x y : Option (List ℕ)) (o rest : Option Member)
    → (b ≡ true → Reads s o → HasText x)
    → (Reads s rest → HasText y)
    → Reads s (if b then o else rest)
    → HasText (if b then x else y)
branch s true x y o rest hx hy h = hx refl h
branch s false x y o rest hx hy h = hy h

module _ (windows : Windows) (texts : PayloadTexts) (r : RecordData) where
  directory_minor :
      (minor : ℕ)
      → minor ≡ r.callback_minor_id
      → Reads r.supplement (
          if minor == 1
          then some Member.query_directory
          else if minor == 2 || minor == 3
          then some Member.notify_directory
          else none)
      → HasText (render_directory windows r)
  unfolding render_directory
  directory_minor minor e = rw e (
      branch r.supplement (r.callback_minor_id == 1) _ _ _ _
        (λ b h. render_query_directory-HasText windows r (h _ refl))
        (branch r.supplement (r.callback_minor_id == 2 || r.callback_minor_id == 3) _ _ _ _
          (λ b h. render_notify_directory-HasText windows r (h _ refl)) (λ h. refl)))

  pub render_major-HasText :
      (major : ℕ)
      → by_class major ≡ false
      → Reads r.supplement (reads major r.callback_minor_id)
      → HasText (render_major windows texts major r)
  unfolding reads render_major
  render_major-HasText major other =
      (branch r.supplement (major == 0) _ _ _ _ (λ e h. render_create-HasText windows r (h _ refl))
        (branch r.supplement (major == 3 || major == 4) _ _ _ _
          (λ e h. render_copy-HasText r (h _ refl))
          (branch r.supplement (major == 5) _ _ _ _ (λ e h. absurd (ground (arith, e, other)))
            (branch r.supplement (major == 6) _ _ _ _ (λ e h. absurd (ground (arith, e, other)))
              (branch r.supplement (major == 7) _ _ _ _
                (λ e h. render_query_ea-HasText r (h _ refl))
                (branch r.supplement (major == 8) _ _ _ _
                  (λ e h. render_set_ea-HasText r (h _ refl))
                  (branch r.supplement (major == 9) _ _ _ _ (λ e h. refl)
                    (branch r.supplement (major == 0x0A || major == 0x0B) _ _ _ _
                      (λ e h. render_volume-HasText windows r (h _ refl))
                      (branch r.supplement (major == 0x0C) _ _ _ _
                        (λ e. directory_minor r.callback_minor_id refl)
                        (branch r.supplement (major == 0x0D) _ _ _ _
                          (λ e h. absurd (ground (arith, e, other)))
                          (branch r.supplement (major == 0x0E || major == 0x0F) _ _ _ _
                            (λ e h. absurd (ground (arith, e, other)))
                            (branch r.supplement (major == 0x11) _ _ _ _
                              (λ e h. render_lock-HasText r (h _ refl))
                              (branch r.supplement (major == 0x14) _ _ _ _
                                (λ e h. render_query_security-HasText windows r (h _ refl))
                                (branch r.supplement (major == 0x15) _ _ _ _
                                  (λ e h. render_set_security-HasText windows r (h _ refl))
                                  (branch r.supplement (major == 0x17) _ _ _ _
                                    (λ e h. render_wmi-HasText r (h _ refl))
                                    (branch r.supplement (major == 0x19) _ _ _ _
                                      (λ e h. render_query_quota-HasText windows r (h _ refl))
                                      (branch r.supplement (major == 0x1A) _ _ _ _
                                        (λ e h. render_set_quota-HasText windows r (h _ refl))
                                        (branch r.supplement (major == 0x1B) _ _ _ _ (λ e h. refl)
                                          (branch r.supplement (major == 0xFF) _ _ _ _ (λ e h. refl)
                                            (branch r.supplement (major == 0xFD) _ _ _ _
                                              (λ e h. render_acquire-HasText r (h _ refl))
                                              (branch r.supplement (major == 0xFC) _ _ _ _
                                                (λ e h. refl)
                                                (branch r.supplement (major == 0xF9) _ _ _ _
                                                  (λ e h. absurd (ground (arith, e, other)))
                                                  (branch r.supplement (major == 0xF3) _ _ _ _
                                                    (λ e h. refl)
                                                    (branch r.supplement (major == 0xF2) _ _ _ _
                                                      (λ e h.
                                                        render_network_query_open-HasText windows r
                                                          (h _ refl))
                                                      (branch r.supplement
                                                        (major == 0xF1 || major == 0xEF) _ _ _ _
                                                        (λ e h. refl)
                                                        (branch r.supplement (major == 0xF0) _ _ _ _
                                                          (λ e h. refl)
                                                          (branch r.supplement (major == 0xEE) _ _ _
                                                            _ (λ e h. refl)
                                                            (branch r.supplement (major == 0xED) _ _
                                                            _ _
                                                            (λ e h.
                                                            render_mount-HasText windows r
                                                            (h _ refl))
                                                            (λ h. refl)))))))))))))))))))))))))))))
