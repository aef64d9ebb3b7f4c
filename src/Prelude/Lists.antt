-- ===== src/Prelude/Lists.antt =====
-- Lists with Boolean tests, and predicates on lists.
use Prim.Native.Nat.{ℕ, suc}
use mathlib.Core.Path.{◌≡◌, refl}
use mathlib.Core.Logic.{inl, inr}
use mathlib.Core.Bool.{Bool, true, false, ◌&&◌, ◌||◌}
use mathlib.Core.Option.{Option, none, some}
use mathlib.Core.List.{List, [], ◌∷◌, ◌++◌, Memᴰ}
use native.Mathlib.Omega.{arith}
use fedeway.Prelude.Tests.{if◌then◌else◌, Bool-cases}

module _ {ℓ} {A : Type ℓ} where
  abbrev pub length : List A → ℕ
  length [] = 0
  length (x ∷ xs) = suc (length xs)

  -- What a loop keeps that appends the elements which pass a test.
  abbrev pub filter : (A → Bool) → List A → List A
  filter p [] = []
  filter p (x ∷ xs) = let rest = filter p xs in if p x then x ∷ rest else rest

  abbrev pub any : (A → Bool) → List A → Bool
  any p [] = false
  any p (x ∷ xs) = p x || any p xs

  abbrev pub all : (A → Bool) → List A → Bool
  all p [] = true
  all p (x ∷ xs) = p x && all p xs

  -- What a loop finds that breaks at the first element which passes a test.
  abbrev pub find : (A → Bool) → List A → Option A
  find p [] = none
  find p (x ∷ xs) = let rest = find p xs in if p x then some x else rest

  abbrev pub All {κ} : (A → Type κ) → List A → Type κ
  All P [] = Unit
  All P (x ∷ xs) = P x × All P xs

module _ {ℓ} {A : Type ℓ} (p : A → Bool) where
  pub filter-append : (xs ys : List A) → filter p (xs ++ ys) ≡ filter p xs ++ filter p ys
  filter-append [] ys = refl
  filter-append (x ∷ xs) ys = ground (arith, filter-append xs ys)

  pub All-filter : (xs : List A) → All (λ x. p x ≡ true) (filter p xs)
  All-filter [] = tt
  All-filter (x ∷ xs) = ground (arith, All-filter xs)

  pub filter_of_All : (xs : List A) → All (λ x. p x ≡ true) xs → filter p xs ≡ xs
  filter_of_All [] h = refl
  filter_of_All (x ∷ xs) h = ground (arith, filter_of_All xs)

  pub filter-filter : (xs : List A) → filter p (filter p xs) ≡ filter p xs
  filter-filter xs = filter_of_All (filter p xs) (All-filter xs)

  pub filter_none : (xs : List A) → any p xs ≡ false → filter p xs ≡ []
  filter_none [] h = refl
  filter_none (x ∷ xs) h = ground (arith, filter_none xs)

  pub mem-filter : (x : A) (xs : List A) → Memᴰ x xs → p x ≡ true → Memᴰ x (filter p xs)
  mem-filter x [] m h = elim m [ ]
  mem-filter x (y ∷ ys) (Memᴰ.head e) h = ground (arith, Memᴰ.head {xs = filter p ys} e)
  mem-filter x (y ∷ ys) (Memᴰ.tail m) h = elim (Bool-cases (p y)) [
    | inl t ↦ rw t (Memᴰ.tail (mem-filter x ys m h))
    | inr t ↦ rw t (mem-filter x ys m h)
  ]

module _ {ℓ κ} {A : Type ℓ} (P : A → Type κ) where
  pub All-append : (xs ys : List A) → All P xs → All P ys → All P (xs ++ ys)
  All-append [] ys h k = k
  All-append (x ∷ xs) ys h k = (h.0, All-append xs ys h.1 k)

  pub All-mem : (x : A) (xs : List A) → All P xs → Memᴰ x xs → P x
  All-mem x [] h m = elim m [ ]
  All-mem x (y ∷ ys) h (Memᴰ.head e) = rw e h.0
  All-mem x (y ∷ ys) h (Memᴰ.tail m) = All-mem x ys h.1 m

  pub All-filter_of_All : (p : A → Bool) (xs : List A) → All P xs → All P (filter p xs)
  All-filter_of_All p [] h = tt
  All-filter_of_All p (x ∷ xs) h = ground (arith, All-filter_of_All p xs)

pub All-map {ℓ κ μ} :
    {A : Type ℓ} {P : A → Type κ} {Q : A → Type μ} (xs : List A)
    → ((x : A) → P x → Q x)
    → All P xs
    → All Q xs
All-map [] f h = tt
All-map (x ∷ xs) f h = (f x h.0, All-map xs f h.1)
