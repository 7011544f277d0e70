-- ===== src/Common/Joins.antt =====
-- Lists joined by a separator.
use Prim.Native.Nat.{◌-◌}
use mathlib.Core.Path.{◌≡◌, refl, ap}
use mathlib.Core.List.{List, [], ◌∷◌, ◌++◌, append-nil, append_assoc}
use native.Mathlib.Omega.{arith}
use minifilter_monitor.Common.Lists.{take, length, length-append, concat_map}

module _ {ℓ} {A : Type ℓ} where
  abbrev pub join : List A → List (List A) → List A
  join separator [] = []
  join separator (x ∷ []) = x
  join separator (x ∷ y ∷ parts) = x ++ (separator ++ join separator (y ∷ parts))

  -- Each part followed by the separator is the parts joined and one separator more.
  pub concat_map-join :
      (separator x : List A) (parts : List (List A))
      → concat_map (λ part. part ++ separator) (x ∷ parts) ≡ join separator (x ∷ parts) ++ separator
  concat_map-join separator x [] = append-nil (x ++ separator)
  concat_map-join separator x (y ∷ parts) = simp (concat_map-join separator y parts, append_assoc)

  pub take-length_append : (xs ys : List A) → take (length xs) (xs ++ ys) ≡ xs
  take-length_append [] ys = refl
  take-length_append (x ∷ xs) ys = ap (λ l. x ∷ l) (take-length_append xs ys)

  pub take-resize : (xs ys : List A) → take (length (xs ++ ys) - length ys) (xs ++ ys) ≡ xs
  take-resize xs ys =
      let size : length (xs ++ ys) - length ys ≡ length xs = omega (arith, length-append xs ys) in
      rw size (take-length_append xs ys)

pub concat_map-append {ℓ κ} :
    {A : Type ℓ} {B : Type κ} (f : A → List B) (xs ys : List A)
    → concat_map f (xs ++ ys) ≡ concat_map f xs ++ concat_map f ys
concat_map-append f [] ys = refl
concat_map-append f (x ∷ xs) ys = simp (concat_map-append f xs ys, append_assoc)
