-- ===== src/Driver/Modules/Resolving.antt =====
-- ResolveAddress of MiniMonFlt/src/trace/modules.cpp, with text::Extract as its reader.
use minifilter_monitor.Common.{
  ℕ, zero, suc, ◌+◌, ◌-◌, ◌<◌, ◌≡◌, refl, ap, List, [], ◌∷◌, ◌++◌, ◌⊎◌, inl, inr, false, arith,
  length, take, overwrite, All, ltb, leb, ◌==◌, Bool-cases,
}
use minifilter_monitor.Protocol.{StackFrame, stack_frame_name_wchar_count}
use minifilter_monitor.Client.Text.{extract}
use minifilter_monitor.Driver.Modules.{ModuleEntry, contains, copy_name, resolve_address}

copy_name_lem : (n : ℕ) (s : List ℕ) → copy_name n s ≡ take n (extract s)
unfolding copy_name extract
copy_name_lem zero s = refl
copy_name_lem (suc n) [] = refl
copy_name_lem (suc n) (c ∷ s) = elim (Bool-cases (c == 0)) [
  | inl z ↦ rw z refl
  | inr z ↦ rw z (ap (λ l. c ∷ l) (copy_name_lem n s))
]

-- A terminated text that fits the array before it is what the client extracts.
extract-overwrite :
    (n : ℕ) (array s : List ℕ)
    → n < length array
    → extract (overwrite array (take n (extract s) ++ (0 ∷ []))) ≡ take n (extract s)
unfolding extract
extract-overwrite n [] s h = absurd (omega (arith, h))
extract-overwrite zero (x ∷ array) s h = refl
extract-overwrite (suc n) (x ∷ array) [] h = refl
extract-overwrite (suc n) (x ∷ array) (c ∷ s) h = elim (Bool-cases (c == 0)) [
  | inl z ↦ rw z refl
  | inr z ↦ rw (z, z) (ap (λ l. c ∷ l) (extract-overwrite n array s (omega (arith, h))))
]

-- What `resolve_address_lem` says of a frame.
Resolved : ℕ → List ModuleEntry → StackFrame → Type 0
Resolved address l r =
    ((before after : List ModuleEntry) × (m : ModuleEntry) × (l ≡ before ++ (m ∷ after))
      × All (λ e. contains e.base e.size address ≡ false) before
      × (m.base + r.offset ≡ address)
      × (r.offset < m.size)
      × (extract r.module_name ≡ take (stack_frame_name_wchar_count - 1) (extract m.name)))
    ⊎ (All (λ e. contains e.base e.size address ≡ false) l
        × (extract r.module_name ≡ [])
        × (r.offset ≡ address))

-- An entry that does not contain the address is passed over.
Resolved-cons :
    (address : ℕ) (e : ModuleEntry) (l : List ModuleEntry) (r : StackFrame)
    → contains e.base e.size address ≡ false
    → Resolved address l r
    → Resolved address (e ∷ l) r
unfolding Resolved
Resolved-cons address e l r h (inl (before, after, m, split, none_before, offset, room, name)) =
    inl (e ∷ before, after, m, ap (λ k. e ∷ k) split, (h, none_before), offset, room, name)
Resolved-cons address e l r h (inr (none_in, name, offset)) = inr ((h, none_in), name, offset)

resolve_address-Resolved :
    (address : ℕ) (l : List ModuleEntry) (f : StackFrame)
    → length f.module_name ≡ stack_frame_name_wchar_count
    → Resolved address l (resolve_address address l f)
unfolding resolve_address Resolved
resolve_address-Resolved address [] f h =
    inr (tt, extract-overwrite 0 f.module_name [] (ground (arith, h)), refl)
resolve_address-Resolved address (e ∷ l) f h =
    let others = resolve_address-Resolved address l f h in
    elim (Bool-cases (ltb address e.base)) [
      | inl below ↦
          rw below (Resolved-cons address e l (resolve_address address l f) (ground arith) others)
      | inr above ↦ elim (Bool-cases (leb e.size (address - e.base))) [
        | inl past ↦
            rw (above, past)
              (Resolved-cons address e l (resolve_address address l f) (ground arith) others)
        | inr inside ↦
            rw (above, inside, copy_name_lem (stack_frame_name_wchar_count - 1) e.name)
              (inl (
                [],
                l,
                e,
                refl,
                tt,
                ground arith,
                ground arith,
                extract-overwrite 31 f.module_name e.name (ground arith),
              ))
      ]
    ]

-- The client reads the name of the first listed module that contains the address, cut to 31 characters, and the address's offset in it; or, if none contains it, no name and the address.
pub resolve_address_lem :
    (address : ℕ) (l : List ModuleEntry) (f : StackFrame)
    → length f.module_name ≡ stack_frame_name_wchar_count
    → let r = resolve_address address l f in
      ((before after : List ModuleEntry) × (m : ModuleEntry) × (l ≡ before ++ (m ∷ after))
        × All (λ e. contains e.base e.size address ≡ false) before
        × (m.base + r.offset ≡ address)
        × (r.offset < m.size)
        × (extract r.module_name ≡ take (stack_frame_name_wchar_count - 1) (extract m.name)))
      ⊎ (All (λ e. contains e.base e.size address ≡ false) l
          × (extract r.module_name ≡ [])
          × (r.offset ≡ address))
unfolding Resolved
resolve_address_lem address l f h = resolve_address-Resolved address l f h
