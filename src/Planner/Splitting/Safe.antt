-- ===== src/Planner/Splitting/Safe.antt =====
-- Planning with fuel, on groups whose levels are below a bound.
pub mod Groups
pub mod Fields
pub mod Subfields
pub mod Parts
pub mod Complete
pub mod Roots
use fedeway.Prelude.{
  ℕ, zero, ◌<◌, ◌≤◌, Bool, true, false, if◌then◌else◌, List, [], ◌++◌, append_assoc, append-nil,
  All, some, ◌≡◌, refl, sym, ap, ◌∙◌, subst,
}
use fedeway.Outcome
use fedeway.Outcome.{Outcome, done, Ends, is_exhausted-bind, bind-eq-done, done_eq}
use fedeway.Planner.Groups.{Store, Planning, ◌>>=◌, return, lift, at_index, references}
use fedeway.Planner.Groups.Levels.{IsLevelled, AreOf, AreOf-grow, at_index-grow}

-- The second list of levels goes on from the first.
abbrev pub Grows : List ℕ → List ℕ → Type 0
Grows ls ms = (new : List ℕ) × (ls ++ new ≡ ms)

pub Grows-refl : (ls : List ℕ) → Grows ls ls
Grows-refl ls = ([], append-nil ls)

pub Grows-trans : (ls ms ns : List ℕ) → Grows ls ms → Grows ms ns → Grows ls ns
Grows-trans ls ms ns (new, e) (more, f) =
    (new ++ more, sym (append_assoc ls new more) ∙ ap (λ xs. xs ++ more) e ∙ f)

pub at-Grows :
    (ls ms : List ℕ) (ref l : ℕ) → Grows ls ms → at_index ref ls ≡ some l → at_index ref ms ≡ some l
at-Grows ls ms ref l (new, e) h =
    subst (λ xs. at_index ref xs ≡ some l) e (at_index-grow ref l ls new h)

-- The group has a level, which is not above `k`.
abbrev pub IsAtMost : ℕ → List ℕ → ℕ → Type 0
IsAtMost k ls ref = (l : ℕ) × (at_index ref ls ≡ some l) × (l ≤ k)

pub IsAtMost-Grows :
    (k : ℕ) (ls ms : List ℕ) (ref : ℕ) → Grows ls ms → IsAtMost k ls ref → IsAtMost k ms ref
IsAtMost-Grows k ls ms ref g (l, at, le) = (l, at-Grows ls ms ref l g at, le)

-- The root groups are of the first level.
abbrev pub HasRoots : List ℕ → Store → Type 0
HasRoots ls s = AreOf ls zero s.root_groups × AreOf ls zero (references s.root_groups_by_service)

pub HasRoots-grow : (ls new : List ℕ) (s : Store) → HasRoots ls s → HasRoots (ls ++ new) s
HasRoots-grow ls new s h = (AreOf-grow ls new zero s.root_groups h.0, AreOf-grow ls new zero _ h.1)

module _ (bound : ℕ) where
  -- The groups have these levels, all below the bound, and the root groups have the first one.
  abbrev pub IsBelow : List ℕ → Store → Type 0
  IsBelow ls s = IsLevelled ls s × All (λ l. l < bound) ls × HasRoots ls s

  -- From groups with the levels `ls`, the call has fuel enough, and if it returns, the levels go on
  -- from these, and `R` holds of them and of the result.
  abbrev pub Safe {ℓ} : List ℕ → {A : Type ℓ} → (List ℕ → A → Type 0) → Planning A → Type ℓ
  Safe ls {A = A} R m =
      (s : Store)
      → IsBelow ls s
      → Ends (m s)
        × ((t : Store) (a : A)
            → m s ≡ done (a, t)
            → (ms : List ℕ) × Grows ls ms × IsBelow ms t × R ms a)

  abbrev pub Anything {ℓ} : {A : Type ℓ} → List ℕ → A → Type 0
  Anything ls a = Unit

  pub bind-Safe {ℓ κ} :
      {A : Type ℓ} {B : Type κ} (ls : List ℕ) (R : List ℕ → A → Type 0) (Q : List ℕ → B → Type 0)
      (m : Planning A) (f : A → Planning B)
      → Safe ls R m
      → ((ms : List ℕ) → Grows ls ms → (a : A) → R ms a → Safe ms Q (f a))
      → Safe ls Q (m >>= f)
  bind-Safe ls R Q m f h k s p = (
    is_exhausted-bind (m s) _ (h s p).0
        (λ r e. let (ms, grows, q, ra) = (h s p).1 r.1 r.0 e in (k ms grows r.0 ra r.1 q).0),
    λ t b e.
        let (r, first, second) = bind-eq-done (m s) _ e in
        let (ms, grows, q, ra) = (h s p).1 r.1 r.0 first in
        let (ns, more, q2, rb) = (k ms grows r.0 ra r.1 q).1 t b second in
        (ns, Grows-trans ls ms ns grows more, q2, rb),
  )

  pub return-Safe {ℓ} :
      {A : Type ℓ} (ls : List ℕ) (R : List ℕ → A → Type 0) (a : A) → R ls a → Safe ls R (return a)
  return-Safe {A = A} ls R a ra s p = (
    refl,
    λ t b e.
        let same = done_eq e in
        (
          ls,
          Grows-refl ls,
          subst (IsBelow ls) (ap (λ (r : A × Store). r.1) same) p,
          subst (R ls) (ap (λ (r : A × Store). r.0) same) ra,
        ),
  )

  pub lift-Safe {ℓ} :
      {A : Type ℓ} (ls : List ℕ) (R : A → Type 0) (o : Outcome A)
      → Ends o
      → ((a : A) → o ≡ done a → R a)
      → Safe ls (λ ms a. R a) (lift o)
  lift-Safe {A = A} ls R o ends h s p = (
    is_exhausted-bind o _ ends (λ a e. refl),
    λ t b e.
        let (a, first, second) = bind-eq-done o _ e in
        let same = done_eq second in
        (
          ls,
          Grows-refl ls,
          subst (IsBelow ls) (ap (λ (r : A × Store). r.1) same) p,
          subst R (ap (λ (r : A × Store). r.0) same) (h a first),
        ),
  )

  pub if-Safe {ℓ} :
      {A : Type ℓ} (ls : List ℕ) (R : List ℕ → A → Type 0) (b : Bool) (m n : Planning A)
      → Safe ls R m
      → Safe ls R n
      → Safe ls R (if b then m else n)
  if-Safe ls R true m n h k = h
  if-Safe ls R false m n h k = k
