-- ===== src/Client/Flags/Laws.antt =====
-- RenderFlags of MiniMonClient/src/trace/names.cpp, against what a rendered word of flags tells.
use minifilter_monitor.Common.{
  ℕ, ◌+◌, ◌-◌, ◌≤◌, ◌≡◌, ◌≢◌, refl, ap, sym, ◌∙◌, List, [], ◌∷◌, ◌++◌, map, ◌==◌, ==_iff,
  Bool-cases, inl, inr, arith, bit_and, ones, All, concat_map, join, concat_map-join, take-resize,
  concat_map-append, bit_and_not, bit_and_cleared, bit_and_of_part, append-nil, append_assoc,
  if◌then◌else◌,
}
use minifilter_monitor.Client.Number.{prefixed_hex}
use minifilter_monitor.Client.Flags.{
  FlagName, cleared, flags_loop, with_rest, without_separator, render_flags,
}

-- Some rows of a table, in its order.
pub data Sublist : List FlagName → List FlagName → Type 0 where
  end : Sublist [] []
  keep :
      {n : FlagName} {chosen names : List FlagName}
      → Sublist chosen names
      → Sublist (n ∷ chosen) (n ∷ names)
  skip :
      {n : FlagName} {chosen names : List FlagName}
      → Sublist chosen names
      → Sublist chosen (n ∷ names)

abbrev pub sum_flags : List FlagName → ℕ
sum_flags [] = 0
sum_flags (n ∷ names) = n.flag + sum_flags names

-- Every row has a flag of 32 bits.
abbrev pub AreFlags : List FlagName → Type 0
AreFlags = All (λ n. (n.flag ≢ 0) × (n.flag ≤ ones 32))

-- The rows whose names are printed and the flags that are left.
pub record Reading (flags : ℕ) (names chosen : List FlagName) (rest : ℕ) : Type 0 where
  pub listed : Sublist chosen names
  pub complete : sum_flags chosen + rest ≡ flags
  pub fits : rest ≤ flags
  pub unnamed : All (λ n. bit_and rest n.flag ≢ n.flag) names

-- The rest holds no flag that a part of `flags` does not hold.
abbrev IsPart : ℕ → ℕ → Type 0
IsPart rest flags = (f : ℕ) → bit_and rest f ≡ f → bit_and flags f ≡ f

abbrev text_of : List ℕ → List FlagName → List ℕ
text_of separator chosen = concat_map (λ part. part ++ separator) (map (λ n. n.name) chosen)

abbrev LoopResult : ℕ → List FlagName → List ℕ → List ℕ → Type 0
LoopResult flags names separator result =
    (chosen : List FlagName) × (rest : ℕ) × Reading flags names chosen rest
    × IsPart rest flags
    × (flags_loop flags names separator result ≡ (rest, result ++ text_of separator chosen))

flags_loop_lem :
    (flags : ℕ) (names : List FlagName) (separator result : List ℕ)
    → flags ≤ ones 32
    → AreFlags names
    → LoopResult flags names separator result
unfolding flags_loop
flags_loop_lem flags [] separator result small good = (
  [],
  flags,
  record { listed = end; complete = omega arith; fits = omega arith; unnamed = tt },
  λ f h. h,
  ap (λ r. (flags, r)) (sym (append-nil result)),
)
flags_loop_lem flags (n ∷ names) separator result small good =
    elim (Bool-cases (bit_and flags n.flag == n.flag)) [
      | inl set ↦
          let sum : cleared flags n.flag + n.flag ≡ flags =
            bit_and_not 32 flags n.flag small ((==_iff _ _).0 set) in
          let (chosen, rest, r, part, e) =
            flags_loop_lem (cleared flags n.flag) names separator (result ++ (n.name ++ separator))
              (omega arith) good.1 in
          (
            n ∷ chosen,
            rest,
            record {
              listed = keep r.listed;
              complete = omega arith;
              fits = omega arith;
              unnamed = (
                λ h.
                    good.0.0 (sym (part n.flag h) ∙ bit_and_cleared 32 flags n.flag small good.0.1),
                r.unnamed,
              );
            },
            λ f h. bit_and_of_part 32 flags (ones 32 - n.flag) f small (part f h),
            rw set (e ∙ ap (λ r. (rest, r)) (simp append_assoc)),
          )
      | inr unset ↦
          let (chosen, rest, r, part, e) =
            flags_loop_lem flags names separator result small good.1 in
          (
            chosen,
            rest,
            record {
              listed = skip r.listed;
              complete = r.complete;
              fits = r.fits;
              unnamed = (λ h. cc (unset, (==_iff _ _).1 (part n.flag h)), r.unnamed);
            },
            part,
            rw unset e,
          )
    ]

pub resized : (text separator : List ℕ) → without_separator separator (text ++ separator) ≡ text
resized [] [] = refl
resized [] (c ∷ s) = take-resize [] (c ∷ s)
resized (c ∷ t) separator = take-resize (c ∷ t) separator

-- The parts of the text: the names of the rows and what is left in hexadecimal.
abbrev pub parts : List FlagName → ℕ → List (List ℕ)
parts chosen rest = map (λ n. n.name) chosen ++ (if rest == 0 then [] else prefixed_hex rest ∷ [])

without_separator-join :
    (separator : List ℕ) (ps : List (List ℕ))
    → without_separator separator (concat_map (λ part. part ++ separator) ps) ≡ join separator ps
without_separator-join separator [] = refl
without_separator-join separator (x ∷ ps) =
    rw (concat_map-join separator x ps) (resized (join separator (x ∷ ps)) separator)

with_rest-parts :
    (separator : List ℕ) (chosen : List FlagName) (rest : ℕ)
    → with_rest separator (rest, text_of separator chosen)
      ≡ concat_map (λ part. part ++ separator) (parts chosen rest)
with_rest-parts separator chosen rest = elim (Bool-cases (rest == 0)) [
  | inl none_left ↦ rw none_left (ap (concat_map (λ part. part ++ separator)) (sym (append-nil _)))
  | inr some_left ↦ rw some_left (
      sym (
        concat_map-append (λ part. part ++ separator) (map (λ n. n.name) chosen)
          (prefixed_hex rest ∷ [])
        ∙ ap (λ l. text_of separator chosen ++ l) (append-nil _)))
]

-- A word of flags of 32 bits is printed as the names of some rows of the table, in its order, and
-- what is left in hexadecimal, joined by the separator. The flags of these rows and the rest add up
-- to the word, and the rest holds no row's flag: nothing is lost, doubled or left without its name.
pub render_flags_lem :
    (flags : ℕ) (names : List FlagName) (separator : List ℕ)
    → flags ≤ ones 32
    → AreFlags names
    → (chosen : List FlagName) × (rest : ℕ) × Reading flags names chosen rest
      × (render_flags flags names separator ≡ join separator (parts chosen rest))
unfolding render_flags
render_flags_lem flags names separator small good =
    let (chosen, rest, r, part, e) = flags_loop_lem flags names separator [] small good in
    (
      chosen,
      rest,
      r,
      ap (λ t. without_separator separator (with_rest separator t)) e
          ∙ ap (without_separator separator) (with_rest-parts separator chosen rest)
          ∙ without_separator-join separator (parts chosen rest),
    )
