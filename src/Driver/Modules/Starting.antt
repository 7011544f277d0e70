-- ===== src/Driver/Modules/Starting.antt =====
-- Start and Delete of MiniMonFlt/src/trace/modules.cpp.
use minifilter_monitor.Common.{
  ℕ, ◌≡◌, refl, sym, subst, [], ◌⊎◌, inl, inr, true, false, arith, ◌==◌, Bool-cases, not, ◌||◌, ◌∙◌,
  if◌then◌else◌,
}
use minifilter_monitor.Driver.Status.{NtStatus, nt_success, success}
use minifilter_monitor.Driver.Modules.{
  Modules, add_loaded, find_own_module, stop, Startup, load_modules, start_body, start, delete,
  is_own_address,
}
use minifilter_monitor.Driver.Modules.Listing.{
  Distinct, Keeps, add_loaded-Keeps, find_own_module_loop-Keeps,
}

-- The state between the calls: no module is listed twice; while nothing is started, nothing is listed
-- and no address is the driver's own; and nothing is started before Create.
pub record IsConsistent (m : Modules) : Type 0 where
  pub distinct : Distinct m.list
  pub stopped : (m.started ≡ true) ⊎ ((m.list ≡ []) × (m.own_image_size ≡ 0))
  pub prepared : (m.created ≡ true) ⊎ (m.started ≡ false)

-- What Start leaves behind, success or failure.
StartsRight : NtStatus → Modules → Type 0
StartsRight status m =
    IsConsistent m
    × (((nt_success status ≡ true) × (m.started ≡ true) × (m.created ≡ true))
        ⊎ ((nt_success status ≡ false) × (m.started ≡ false) × (m.list ≡ [])))

done-StartsRight :
    (status : NtStatus) (m : Modules)
    → Distinct m.list
    → m.created ≡ true
    → m.started ≡ true
    → StartsRight status (if nt_success status then m else stop m)
unfolding StartsRight stop Distinct
done-StartsRight status m d c s = elim (Bool-cases (nt_success status)) [
  | inl good ↦
      rw good (record { distinct = d; stopped = inl s; prepared = inl c }, inl (refl, s, c))
  | inr bad ↦
      rw (bad, s)
        (
          record { distinct = tt; stopped = inr (refl, refl); prepared = inl c },
          inr (refl, refl, refl),
        )
]

load_modules-Keeps : (u : Startup) (m : Modules) → Distinct m.list → Keeps m (load_modules u m).1
unfolding load_modules find_own_module
load_modules-Keeps u m d =
    let same : Keeps m m = record { distinct = d; same_created = refl; same_started = refl } in
    let l = add_loaded-Keeps u.modules m d in
    let k =
      find_own_module_loop-Keeps u.own_address (add_loaded u.modules m).list
        (add_loaded u.modules m) l.distinct in
    elim (Bool-cases (nt_success u.initialize)) [
      | inr bad ↦ rw bad same
      | inl a ↦ elim (Bool-cases (not (nt_success u.query_size) || u.size == 0)) [
        | inl nothing ↦ rw (a, nothing) same
        | inr b ↦ elim (Bool-cases u.pool_ok) [
          | inr no_memory ↦ rw (a, b, no_memory) same
          | inl c ↦ elim (Bool-cases (nt_success u.query_modules)) [
            | inr bad ↦ rw (a, b, c, bad) same
            | inl e ↦
                rw (a, b, c, e)
                  (record {
                    distinct = k.distinct;
                    same_created = k.same_created ∙ l.same_created;
                    same_started = k.same_started ∙ l.same_started;
                  })
          ]
        ]
      ]
    ]

stop_idle : (m : Modules) → m.started ≡ false → stop m ≡ m
unfolding stop
stop_idle m s = ground (arith, s)

start_body_cases :
    (u : Startup) (m : Modules)
    → IsConsistent m
    → let (status, m') = start_body u m in
      ((m' ≡ m) × (nt_success status ≡ false) × (m.started ≡ false))
      ⊎ (((status ≡ success) × (m' ≡ m) × (m.created ≡ true) × (m.started ≡ true))
          ⊎ ((m.created ≡ true)
              × (status ≡ (load_modules u (record m { started = true })).0)
              × (m' ≡ (load_modules u (record m { started = true })).1)))
unfolding start_body
start_body_cases u m v = ground (arith, v.prepared)

idle-StartsRight :
    (status : NtStatus) (m : Modules)
    → IsConsistent m
    → m.started ≡ false
    → nt_success status ≡ false
    → StartsRight status m
unfolding StartsRight
idle-StartsRight status m v s bad = (v, inr (bad, s, ground (arith, v.stopped, s)))

start-StartsRight :
    (u : Startup) (m : Modules)
    → IsConsistent m
    → let (status, m') = start u m in StartsRight status m'
unfolding start
start-StartsRight u m v = elim (start_body_cases u m v) [
  | inl (same, bad, idle) ↦
      rw (bad, same, stop_idle m idle) (idle-StartsRight (start_body u m).0 m v idle bad)
  | inr (inl (good, same, c, s)) ↦ rw (good, same) (done-StartsRight success m v.distinct c s)
  | inr (inr (c, status, loaded)) ↦
      let k = load_modules-Keeps u (record m { started = true }) v.distinct in
      rw (status, loaded)
        (done-StartsRight (load_modules u (record m { started = true })).0
          (load_modules u (record m { started = true })).1 k.distinct (k.same_created ∙ c)
          k.same_started)
]

-- However the kernel's routines answer, Start leaves a consistent state in which nothing is listed
-- twice: it succeeds with the tracking started, or it fails with it stopped and nothing left listed.
pub start-IsConsistent :
    (u : Startup) (m : Modules)
    → IsConsistent m
    → let (status, m') = start u m in
      IsConsistent m'
      × (((nt_success status ≡ true) × (m'.started ≡ true) × (m'.created ≡ true))
          ⊎ ((nt_success status ≡ false) × (m'.started ≡ false) × (m'.list ≡ [])))
unfolding StartsRight
start-IsConsistent u m v = start-StartsRight u m v

stop_lem :
    (m : Modules)
    → IsConsistent m
    → ((stop m).list ≡ []) × ((stop m).started ≡ false) × ((stop m).own_image_size ≡ 0)
unfolding stop
stop_lem m v = ground (arith, v.stopped)

-- Delete leaves the state before Create: nothing is listed, and no address is the driver's own, so a
-- stack trace that is still taken skips no frame.
pub delete_lem :
    (m : Modules) (address : ℕ)
    → IsConsistent m
    → IsConsistent (delete m)
      × ((delete m).list ≡ [])
      × ((delete m).created ≡ false)
      × (is_own_address address (delete m) ≡ false)
unfolding delete is_own_address Distinct
delete_lem m address v =
    let (empty, idle, no_size) = stop_lem m v in
    (
      record {
        distinct = subst (λ l. Distinct l) (sym empty) tt;
        stopped = inr (empty, no_size);
        prepared = inr idle;
      },
      empty,
      refl,
      ground (arith, no_size),
    )
