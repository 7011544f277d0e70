-- ===== src/Client/Sink/Files.antt =====
-- MiniMonClient/src/sink.cpp: a line that is written goes to one file.
use minifilter_monitor.Common.{
  ℕ, ◌≡◌, refl, ap, ap₂, subst, Bool, true, false, List, [], ◌∷◌, ◌++◌, inl, inr, Option, some,
  arith, Bool-cases, if◌then◌else◌,
}
use minifilter_monitor.Client.Sink.{File, same_path, find, add_line}

pub same_path_refl : (p : List ℕ) → same_path p p ≡ true
same_path_refl [] = refl
same_path_refl (c ∷ p) = ground (arith, same_path_refl p)

pub same_path_≡ : (p q : List ℕ) → same_path p q ≡ true → p ≡ q
same_path_≡ [] [] h = refl
same_path_≡ [] (d ∷ q) h = absurd (ground (arith, h))
same_path_≡ (c ∷ p) [] h = absurd (ground (arith, h))
same_path_≡ (c ∷ p) (d ∷ q) h =
    ap₂ (λ a l. a ∷ l) (ground (arith, h)) (same_path_≡ p q (ground (arith, h)))

-- What a test that is met, or is not, says of the result of both branches.
taken :
    {b : Bool} {lines : List (List ℕ)} (l : List (List ℕ)) (rest : Option (List (List ℕ)))
    → b ≡ true
    → (if b then some l else rest) ≡ some lines
    → l ≡ lines
taken l rest e h = ground (arith, e, h)

passed :
    {b : Bool} {lines : List (List ℕ)} (l : List (List ℕ)) (rest : Option (List (List ℕ)))
    → b ≡ false
    → (if b then some l else rest) ≡ some lines
    → rest ≡ some lines
passed l rest e h = ground (arith, e, h)

-- The file of the path gets the line.
pub find-add_line :
    (path line : List ℕ) (files : List File) (lines : List (List ℕ))
    → find path files ≡ some lines
    → find path (add_line path line files) ≡ some (lines ++ (line ∷ []))
unfolding find add_line
find-add_line path line [] lines h = absurd (ground (arith, h))
find-add_line path line (f ∷ files) lines h = elim (Bool-cases (same_path path f.path)) [
  | inl here ↦
      rw here
        (rw here (ap (λ l. some (l ++ (line ∷ []))) (taken (f.lines) (find path files) here h)))
  | inr further ↦ rw further (
      rw further (find-add_line path line files lines (passed f.lines (find path files) further h)))
]

-- No other file does.
pub find-add_line_other :
    (q path line : List ℕ) (files : List File)
    → same_path q path ≡ false
    → find q (add_line path line files) ≡ find q files
unfolding find add_line
find-add_line_other q path line [] other = refl
find-add_line_other q path line (f ∷ files) other = elim (Bool-cases (same_path path f.path)) [
  | inl here ↦
      rw here
        (rw (subst (λ p. same_path q p ≡ false) (same_path_≡ path f.path here) other, find) refl)
  | inr further ↦ rw (further, find-add_line_other q path line files other) refl
]
