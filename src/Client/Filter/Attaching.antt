-- ===== src/Client/Filter/Attaching.antt =====
-- AttachInstances of MiniMonClient/src/filter.cpp.
use minifilter_monitor.Common.{
  ℕ, ◌≡◌, refl, ap, List, [], ◌∷◌, ◌++◌, ◌||◌, map, Bool, true, false, ◌⊎◌, inl, inr, All,
  Bool-cases, append_assoc, append-nil, sym, ◌∙◌,
}
use minifilter_monitor.Client.Filter.{
  HResult, s_ok, filter_attach, filter_detach, succeeded, is_collision, detach_instances,
  attach_instances_loop, attach_instances,
}

-- FilterAttach attached the instance, or one of the name is attached already.
abbrev pub is_attached : HResult → Bool
is_attached h = succeeded h || is_collision h

attach_instances_loop_cases :
    (attach : List ℕ → List ℕ → HResult) (volume : List ℕ) (attached names : List (List ℕ))
    → let (status, calls) = attach_instances_loop attach volume attached names in
      ((status ≡ s_ok)
        × All (λ n. is_attached (attach volume n) ≡ true) names
        × (calls ≡ map (filter_attach volume) names))
      ⊎ ((before after : List (List ℕ)) × (name : List ℕ) × (names ≡ before ++ (name ∷ after))
          × All (λ n. is_attached (attach volume n) ≡ true) before
          × (is_attached (attach volume name) ≡ false)
          × (status ≡ attach volume name)
          × (calls
              ≡ map (filter_attach volume) (before ++ (name ∷ []))
                ++ map (filter_detach volume) (attached ++ before)))
unfolding attach_instances_loop detach_instances
attach_instances_loop_cases f v done [] = inl (refl, tt, refl)
attach_instances_loop_cases f v done (n ∷ names) = elim (Bool-cases (is_attached (f v n))) [
  | inr bad ↦ rw bad (
      inr (
        [],
        names,
        n,
        refl,
        tt,
        bad,
        refl,
        ap (λ l. filter_attach v n ∷ map (filter_detach v) l) (sym (append-nil done)),
      ))
  | inl good ↦ elim (attach_instances_loop_cases f v (done ++ (n ∷ [])) names) [
    | inl (status, all_good, calls) ↦
        rw good (inl (status, (refl, all_good), ap (λ l. filter_attach v n ∷ l) calls))
    | inr (before, after, name, split, all_good, bad, status, calls) ↦ rw good (
        inr (
          n ∷ before,
          after,
          name,
          ap (λ l. n ∷ l) split,
          (good, all_good),
          bad,
          status,
          ap (λ l. filter_attach v n ∷ l) calls
              ∙ ap
                  (λ l.
                    filter_attach v n
                    ∷ (map (filter_attach v) (before ++ (name ∷ [])) ++ map (filter_detach v) l))
                  (append_assoc done (n ∷ []) before),
        ))
  ]
]

-- On a volume either every installed instance is attached and the result is S_OK, or the first
-- instance that cannot be attached gives the result, no later one is tried, and exactly the instances
-- before it are detached again.
pub attach_instances_cases :
    (attach : List ℕ → List ℕ → HResult) (volume : List ℕ) (names : List (List ℕ))
    → let (status, calls) = attach_instances attach volume names in
      ((status ≡ s_ok)
        × All (λ n. is_attached (attach volume n) ≡ true) names
        × (calls ≡ map (filter_attach volume) names))
      ⊎ ((before after : List (List ℕ)) × (name : List ℕ) × (names ≡ before ++ (name ∷ after))
          × All (λ n. is_attached (attach volume n) ≡ true) before
          × (is_attached (attach volume name) ≡ false)
          × (status ≡ attach volume name)
          × (calls
              ≡ map (filter_attach volume) (before ++ (name ∷ []))
                ++ map (filter_detach volume) before))
unfolding attach_instances
attach_instances_cases attach volume names = attach_instances_loop_cases attach volume [] names
