-- ===== src/Client/Text/Tests.antt =====
-- Extract on a buffer with text behind its NUL.
use minifilter_monitor.Common.{ℕ, ◌≡◌, ◌≢◌, List, [], ◌∷◌, ◌++◌, ◌⊎◌, All}
use minifilter_monitor.Client.Text.{extract}
use minifilter_monitor.Client.Text.Laws.{extract_lem}

abbrev buffer : List ℕ
buffer = 65 ∷ 66 ∷ 0 ∷ 67 ∷ []

extract_lem_example :
    All (λ c. c ≢ 0) (extract buffer)
    × (rest : List ℕ) × (extract buffer ++ rest ≡ buffer)
    × ((rest ≡ []) ⊎ ((tail : List ℕ) × (rest ≡ 0 ∷ tail)))
extract_lem_example = extract_lem buffer
