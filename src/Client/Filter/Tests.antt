-- ===== src/Client/Filter/Tests.antt =====
-- The theorems on the client's calls at concrete results.
use minifilter_monitor.Common.{
  ℕ, zero, suc, ◌*◌, ◌≡◌, refl, true, false, none, List, [], ◌∷◌, ◌++◌, ◌⊎◌, map, length, All,
  arith,
}
use minifilter_monitor.Protocol.{zero_record}
use minifilter_monitor.Driver.Records.{Store, drain}
use minifilter_monitor.Driver.Records.Bounds.{IsCounted}
use minifilter_monitor.Client.Filter.{
  HResult, s_ok, other, instance_name_collision, filter_attach, filter_detach, attach_instances,
  get_records,
}
use minifilter_monitor.Client.Filter.Attaching.{is_attached, attach_instances_cases}
use minifilter_monitor.Client.Filter.Receiving.{get_records-drain}

-- The first instance is there already, the second is attached and the third is refused.
abbrev answer : List ℕ → HResult
answer (suc zero ∷ []) = instance_name_collision
answer (suc (suc zero) ∷ []) = s_ok
answer name = other false 9

abbrev names : List (List ℕ)
names = (1 ∷ []) ∷ (2 ∷ []) ∷ (3 ∷ []) ∷ []

abbrev volume : List ℕ
volume = 7 ∷ []

-- Rolling back detaches the first instance too, which an earlier session may have attached.
attach_instances_run : attach_instances (λ v n. answer n) volume names ≡ (
  other false 9,
  filter_attach volume (1 ∷ [])
      ∷ filter_attach volume (2 ∷ [])
      ∷ filter_attach volume (3 ∷ [])
      ∷ filter_detach volume (1 ∷ [])
      ∷ filter_detach volume (2 ∷ [])
      ∷ [],
)
unfolding attach_instances
attach_instances_run = refl

attach_instances_cases_example :
    let (status, calls) = attach_instances (λ v n. answer n) volume names in
    ((status ≡ s_ok)
      × All (λ n. is_attached (answer n) ≡ true) names
      × (calls ≡ map (filter_attach volume) names))
    ⊎ ((before after : List (List ℕ)) × (name : List ℕ) × (names ≡ before ++ (name ∷ after))
        × All (λ n. is_attached (answer n) ≡ true) before
        × (is_attached (answer name) ≡ false)
        × (status ≡ answer name)
        × (calls
            ≡ map (filter_attach volume) (before ++ (name ∷ []))
              ++ map (filter_detach volume) before))
attach_instances_cases_example = attach_instances_cases (λ v n. answer n) volume names

abbrev listed : Store
listed = record {
  list = zero_record ∷ [];
  allocated = 1;
  dropped = 0;
  sequence = 1;
  created = true;
  max_memory_kb = 9;
}

listed-IsCounted : IsCounted 0 listed
listed-IsCounted = omega arith

get_records-drain_example :
    let d = drain (λ w. none) (1000 * 2920) listed in
    get_records s_ok d.written_size 1000 ≡ (s_ok, length d.written)
get_records-drain_example =
    get_records-drain (λ w. none) 1000 0 listed s_ok (omega arith) listed-IsCounted refl
