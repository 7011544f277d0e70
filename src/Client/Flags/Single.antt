-- ===== src/Client/Flags/Single.antt =====
-- CompositesPrecedeComponents of MiniMonClient/src/trace/names.cpp: what the order of a table is for.
use minifilter_monitor.Common.{
  ℕ, ◌≤◌, ◌≡◌, ◌≢◌, refl, ap, ◌∙◌, true, false, List, [], ◌∷◌, ◌++◌, ◌==◌, ==_iff, arith, bit_and,
  ones, All, bit_and_not, bit_and_self, bit_and_comm_of_fits, zero-bit_and,
}
use minifilter_monitor.Client.Flags.{
  FlagName, cleared, precedes, composites_precede_components, flags_loop, with_rest,
  without_separator, render_flags,
}
use minifilter_monitor.Client.Flags.Laws.{AreFlags, resized}

-- Without flags no name is printed.
flags_loop-zero :
    (names : List FlagName) (separator result : List ℕ)
    → AreFlags names
    → flags_loop 0 names separator result ≡ (0, result)
unfolding flags_loop
flags_loop-zero [] separator result good = refl
flags_loop-zero (n ∷ names) separator result good =
    let unset : (bit_and 0 n.flag == n.flag) ≡ false =
      rw (zero-bit_and n.flag) (ground (arith, good.0.0)) in
    rw unset (flags_loop-zero names separator result good.1)

-- A row that stands before `n` and has another flag is no part of `n`.
precedes-apart :
    (m n : FlagName) (before after : List FlagName)
    → precedes m (before ++ (n ∷ after)) ≡ true
    → m.flag ≤ ones 32
    → n.flag ≤ ones 32
    → m.flag ≢ n.flag
    → (bit_and n.flag m.flag == m.flag) ≡ false
unfolding precedes
precedes-apart m n [] after h p q apart =
    ground (arith, h, apart, bit_and_comm_of_fits 32 n.flag m.flag q p)
precedes-apart m n (k ∷ before) after h p q apart =
    precedes-apart m n before after (ground (arith, h)) p q apart

flags_loop-single :
    (before after : List FlagName) (n : FlagName) (separator : List ℕ)
    → composites_precede_components (before ++ (n ∷ after)) ≡ true
    → AreFlags (before ++ (n ∷ after))
    → n.flag ≤ ones 32
    → All (λ m. m.flag ≢ n.flag) before
    → flags_loop n.flag (before ++ (n ∷ after)) separator [] ≡ (0, n.name ++ separator)
unfolding flags_loop composites_precede_components
flags_loop-single [] after n separator h good small apart =
    let whole = bit_and_self 32 n.flag small in
    let empty : cleared n.flag n.flag ≡ 0 =
      omega (arith, bit_and_not 32 n.flag n.flag small whole) in
    rw ((==_iff _ _).1 whole, flags_loop)
      (ap (λ c. flags_loop c after separator (n.name ++ separator)) empty
        ∙ flags_loop-zero after separator (n.name ++ separator) good.1)
flags_loop-single (m ∷ before) after n separator h good small apart =
    rw (precedes-apart m n before after (ground (arith, h)) good.0.1 small apart.0, flags_loop)
      (flags_loop-single before after n separator (ground (arith, h)) good.1 small apart.1)

first-IsFlag :
    (before after : List FlagName) (n : FlagName)
    → AreFlags (before ++ (n ∷ after))
    → n.flag ≤ ones 32
first-IsFlag [] after n good = good.0.1
first-IsFlag (m ∷ before) after n good = first-IsFlag before after n good.1

-- In a table that passes the static assertion each flag alone is printed as its name, that of the
-- first row with the flag.
pub render_flags-single :
    (before after : List FlagName) (n : FlagName) (separator : List ℕ)
    → composites_precede_components (before ++ (n ∷ after)) ≡ true
    → AreFlags (before ++ (n ∷ after))
    → All (λ m. m.flag ≢ n.flag) before
    → render_flags n.flag (before ++ (n ∷ after)) separator ≡ n.name
unfolding render_flags
render_flags-single before after n separator h good apart =
    ap (λ t. without_separator separator (with_rest separator t))
      (flags_loop-single before after n separator h good (first-IsFlag before after n good) apart)
    ∙ resized n.name separator
