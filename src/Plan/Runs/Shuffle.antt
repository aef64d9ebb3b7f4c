-- ===== src/Plan/Runs/Shuffle.antt =====
-- The interleavings of two lists, and that they can be regrouped.
use fedeway.Prelude.{List, [], ◌∷◌, ◌≡◌, refl, ap}

pub data Interleaves {ℓ} {A : Type ℓ} : List A → List A → List A → Type ℓ where
  both_done : Interleaves [] [] []
  from_left : {x : A} {xs ys zs : List A} → Interleaves xs ys zs → Interleaves (x ∷ xs) ys (x ∷ zs)
  from_right : {y : A} {xs ys zs : List A} → Interleaves xs ys zs → Interleaves xs (y ∷ ys) (y ∷ zs)

module _ {ℓ} {A : Type ℓ} where
  pub Interleaves-right_only : (xs : List A) → Interleaves [] xs xs
  Interleaves-right_only [] = both_done
  Interleaves-right_only (x ∷ xs) = from_right (Interleaves-right_only xs)

  pub Interleaves-nil : {xs zs : List A} → Interleaves [] xs zs → xs ≡ zs
  Interleaves-nil both_done = refl
  Interleaves-nil (from_right {y = x} i) = ap (λ l. x ∷ l) (Interleaves-nil i)

  pub Interleaves-left_only : (xs : List A) → Interleaves xs [] xs
  Interleaves-left_only [] = both_done
  Interleaves-left_only (x ∷ xs) = from_left (Interleaves-left_only xs)

  pub Interleaves-nil_right : {xs zs : List A} → Interleaves xs [] zs → xs ≡ zs
  Interleaves-nil_right both_done = refl
  Interleaves-nil_right (from_left {x = x} i) = ap (λ l. x ∷ l) (Interleaves-nil_right i)

  pub Interleaves-assoc :
      {xys zs all : List A}
      → Interleaves xys zs all
      → {xs ys : List A} → Interleaves xs ys xys
      → (yzs : List A) × Interleaves ys zs yzs × Interleaves xs yzs all
  Interleaves-assoc both_done both_done = ([], both_done, both_done)
  Interleaves-assoc (from_left j) (from_left i) =
      let (yzs, k, l) = Interleaves-assoc j i in (yzs, k, from_left l)
  Interleaves-assoc (from_left j) (from_right {y = y} i) =
      let (yzs, k, l) = Interleaves-assoc j i in (y ∷ yzs, from_left k, from_right l)
  Interleaves-assoc (from_right {y = z} j) i =
      let (yzs, k, l) = Interleaves-assoc j i in (z ∷ yzs, from_right k, from_right l)

  pub Interleaves-assoc_left :
      {xs yzs all : List A}
      → Interleaves xs yzs all
      → {ys zs : List A} → Interleaves ys zs yzs
      → (xys : List A) × Interleaves xs ys xys × Interleaves xys zs all
  Interleaves-assoc_left both_done both_done = ([], both_done, both_done)
  Interleaves-assoc_left (from_right j) (from_left {x = y} i) =
      let (xys, k, l) = Interleaves-assoc_left j i in (y ∷ xys, from_right k, from_left l)
  Interleaves-assoc_left (from_right j) (from_right i) =
      let (xys, k, l) = Interleaves-assoc_left j i in (xys, k, from_right l)
  Interleaves-assoc_left (from_left {x = x} j) i =
      let (xys, k, l) = Interleaves-assoc_left j i in (x ∷ xys, from_left k, from_left l)
