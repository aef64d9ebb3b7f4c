-- ===== src/Prelude/Order.antt =====
-- Go's `sort.Strings` and `sort.SliceStable` by a text key, as a stable insertion sort.
use Prim.Native.String.{String, compare}
use Prim.Native.Nat.{Ordering}
use mathlib.Core.Bool.{Bool, true, false}
use mathlib.Core.List.{List, [], ◌∷◌}
use mathlib.Core.List.{Perm}
use mathlib.Core.List.Perm
use fedeway.Prelude.Tests.{if◌then◌else◌}

-- `a < b` on texts
abbrev pub less : String → String → Bool
less a b = elim (compare a b) [ Ordering.lt ↦ true | _ ↦ false ]

module _ {ℓ} {A : Type ℓ} (key : A → String) where
  abbrev pub insert_by : A → List A → List A
  insert_by x [] = x ∷ []
  insert_by x (y ∷ ys) =
      let rest = y ∷ insert_by x ys in if less (key y) (key x) then rest else x ∷ y ∷ ys

  abbrev pub sort_by : List A → List A
  sort_by [] = []
  sort_by (x ∷ xs) = insert_by x (sort_by xs)

  perm_of_choice :
      (b : Bool) (x y : A) (ys zs : List A)
      → Perm zs (x ∷ ys)
      → Perm (if b then y ∷ zs else x ∷ y ∷ ys) (x ∷ y ∷ ys)
  perm_of_choice true x y ys zs h = Perm.trans (Perm.cons y h) (Perm.swap x y ys)
  perm_of_choice false x y ys zs h = Perm.refl (x ∷ y ∷ ys)

  pub insert_by-perm : (x : A) (ys : List A) → Perm (insert_by x ys) (x ∷ ys)
  insert_by-perm x [] = Perm.refl (x ∷ [])
  insert_by-perm x (y ∷ ys) =
      perm_of_choice (less (key y) (key x)) x y ys (insert_by x ys) (insert_by-perm x ys)

  pub sort_by-perm : (xs : List A) → Perm (sort_by xs) xs
  sort_by-perm [] = Perm.refl []
  sort_by-perm (x ∷ xs) = Perm.trans (insert_by-perm x (sort_by xs)) (Perm.cons x (sort_by-perm xs))

abbrev pub sort_strings : List String → List String
sort_strings = sort_by (λ s. s)
