-- ===== src/Client/Text/Laws.antt =====
-- text::Extract of MiniMonClient/src/text.h.
use minifilter_monitor.Common.{
  ℕ, ◌≡◌, ◌≢◌, refl, false, List, [], ◌∷◌, ◌++◌, arith, All, ◌==◌, Bool-cases, ==_iff, ap, inl, inr,
  ◌⊎◌,
}
use minifilter_monitor.Client.Text.{extract}

==-ne : (c : ℕ) → (c == 0) ≡ false → c ≢ 0
==-ne c h = ground arith

-- Extract returns the longest prefix with no NUL: what follows it is nothing, or begins with a NUL.
pub extract_lem :
    (buffer : List ℕ)
    → All (λ c. c ≢ 0) (extract buffer)
      × (rest : List ℕ) × (extract buffer ++ rest ≡ buffer)
      × ((rest ≡ []) ⊎ ((tail : List ℕ) × (rest ≡ 0 ∷ tail)))
unfolding extract
extract_lem [] = (tt, [], refl, inl refl)
extract_lem (c ∷ s) =
    let (a, r, e, o) = extract_lem s in
    elim (Bool-cases (c == 0)) [
      | inl z ↦ rw z (tt, c ∷ s, refl, inr (s, ap (λ n. n ∷ s) ((==_iff c 0).0 z)))
      | inr z ↦ rw z ((==-ne c z, a), r, ap (λ l. c ∷ l) e, o)
    ]
