-- ===== src/Planner/Groups/Levels/Merging.antt =====
-- `mergeDependentGroups` on groups with levels.
use fedeway.Prelude.{
  ℕ, zero, suc, ◌+◌, ◌≤◌, String, Bool, true, false, ◌&&◌, Option, none, some, some_eq, List, [],
  ◌∷◌, length, ◌==◌, if◌then◌else◌, All, All-append, All-map, ◌<◌, ◌≡◌, refl, sym, ap, ◌∙◌, subst,
  arith,
}
use fedeway.Outcome
use fedeway.Outcome.{Outcome, done, or_panic, bind-eq-done, done_eq}
use fedeway.Plan.{ResponsePath}
use fedeway.Planner.Groups.{
  FetchGroup, Store, Planning, ◌>>=◌, return, at_index, set_at, load, store, dependent_groups,
  find_existing, merge_into, merge_each, merge_dependent_groups,
}
use fedeway.Planner.Groups.Changes.{load-eq}
use fedeway.Planner.Groups.Levels.{AreOf, Links, IsLevelled, All-at, dependent_groups-AreOf}
use fedeway.Planner.Groups.Levels.Steps.{
  IsLevelled-length, IsLevelled-group, IsLevelled-at, IsLevelled-change,
}

-- From a store with `P`, the call returns if `E` holds, and if it returns, `P` holds after it, and
-- `R` of its result.
abbrev Safe {ℓ} : Type 0 → (Store → Type 0) → {A : Type ℓ} → (A → Type 0) → Planning A → Type ℓ
Safe E P {A = A} R m =
    (s : Store)
    → P s
    → (E → (a : A) × (t : Store) × (m s ≡ done (a, t)))
      × ((t : Store) (a : A) → m s ≡ done (a, t) → P t × R a)

module _ (E : Type 0) (P : Store → Type 0) where
  bind-Safe {ℓ κ} :
      {A : Type ℓ} {B : Type κ} (R : A → Type 0) (Q : B → Type 0) (m : Planning A)
      (f : A → Planning B)
      → Safe E P R m
      → ((a : A) → R a → Safe E P Q (f a))
      → Safe E P Q (m >>= f)
  bind-Safe R Q m f h k s p = (
    λ e.
        let (a, t, first) = (h s p).0 e in
        let (q, ra) = (h s p).1 t a first in
        let (b, u, second) = (k a ra t q).0 e in
        (b, u, ap (λ o. Outcome.◌>>=◌ o (λ r. f r.0 r.1)) first ∙ second),
    λ t b eq.
        let (r, first, second) = bind-eq-done (m s) _ eq in
        let (q, ra) = (h s p).1 r.1 r.0 first in (k r.0 ra r.1 q).1 t b second,
  )

  return-Safe {ℓ} : {A : Type ℓ} (R : A → Type 0) (a : A) → R a → Safe E P R (return a)
  return-Safe {A = A} R a ra s p = (
    λ e. (a, s, refl),
    λ t b eq.
        let same = done_eq eq in
        (
          subst P (ap (λ (r : A × Store). r.1) same) p,
          subst R (ap (λ (r : A × Store). r.0) same) ra,
        ),
  )

  if-Safe {ℓ} :
      {A : Type ℓ} (R : A → Type 0) (b : Bool) (m n : Planning A)
      → Safe E P R m
      → Safe E P R n
      → Safe E P R (if b then m else n)
  if-Safe R true m n h k = h
  if-Safe R false m n h k = k

module _ (ls : List ℕ) (E : Type 0) where
  load-Safe :
      (ref l : ℕ) → at_index ref ls ≡ some l → Safe E (IsLevelled ls) (Links ls (suc l)) (load ref)
  unfolding load
  load-Safe ref l h s p = (
    λ e.
        let (g, at) = IsLevelled-group ls s ref l p h in
        (g, s, ap (λ o. Outcome.◌>>=◌ (or_panic o) (λ x. done (x, s))) at),
    λ t g eq.
        let (unchanged, at) = load-eq ref s (g, t) eq in
        let (m, e, links) = IsLevelled-at ls s ref g p at in
        (
          subst (IsLevelled ls) (sym unchanged) p,
          subst (λ n. Links ls (suc n) g) (some_eq (sym e ∙ h)) links,
        ),
  )

  store-Safe :
      (ref l : ℕ) (g : FetchGroup)
      → at_index ref ls ≡ some l
      → Links ls (suc l) g
      → Safe E (IsLevelled ls) (λ u. Unit {0}) (store ref g)
  unfolding store
  store-Safe ref l g h k s p = (
    λ e. (tt, record s { groups = set_at ref g s.groups }, refl),
    λ t u eq. (
      subst (IsLevelled ls) (ap (λ (r : (Unit {0}) × Store). r.1) (done_eq eq))
          (IsLevelled-change ls s ref l g p h k),
      tt,
    ),
  )

  abbrev IsFound : ℕ → Option ℕ → Type 0
  IsFound l none = Unit {0}
  IsFound l (some ref) = at_index ref ls ≡ some l

  module _ (path_string : ResponsePath → String) where
    find_existing-Safe :
        (wanted : FetchGroup) (l : ℕ) (refs : List ℕ)
        → AreOf ls l refs
        → Safe E (IsLevelled ls) (IsFound l) (find_existing path_string wanted refs)
    unfolding find_existing
    find_existing-Safe wanted l [] h = return-Safe E (IsLevelled ls) (IsFound l) none tt
    find_existing-Safe wanted l (ref ∷ refs) h =
        bind-Safe E (IsLevelled ls) (Links ls (suc l)) (IsFound l) _ _ (load-Safe ref l h.0)
          (λ group links.
            if-Safe E (IsLevelled ls) (IsFound l)
              (group.service_name == wanted.service_name
                && path_string group.merge_at == path_string wanted.merge_at)
              (return (some ref)) (find_existing path_string wanted refs)
              (return-Safe E (IsLevelled ls) (IsFound l) (some ref) h.0)
              (find_existing-Safe wanted l refs h.1))

    module _ (merge : ℕ → ℕ → Planning (Unit {0})) (l : ℕ)
        (merges : (fg that : ℕ)
          → at_index fg ls ≡ some (suc l)
          → at_index that ls ≡ some (suc l)
          → Safe E (IsLevelled ls) (λ u. Unit {0}) (merge fg that)) where
      merge_into-Safe :
          (fg dependent : ℕ) (o : Option ℕ)
          → at_index fg ls ≡ some l
          → at_index dependent ls ≡ some (suc l)
          → IsFound (suc l) o
          → Safe E (IsLevelled ls) (λ u. Unit {0}) (merge_into path_string merge fg dependent o)
      merge_into-Safe fg dependent (some existing) at here found =
          merges existing dependent found here
      merge_into-Safe fg dependent none at here found =
          bind-Safe E (IsLevelled ls) (Links ls (suc l)) (λ u. Unit {0}) _ _ (load-Safe fg l at)
            (λ group links. store-Safe fg l _ at (
              links.0,
              All-append (λ r. at_index r ls ≡ some (suc l)) group.other_dependent_groups
                  (dependent ∷ []) links.1 (here, tt),
            ))

      merge_each-Safe :
          (fg : ℕ) (refs : List ℕ)
          → at_index fg ls ≡ some l
          → AreOf ls (suc l) refs
          → Safe E (IsLevelled ls) (λ u. Unit {0}) (merge_each path_string merge fg refs)
      unfolding merge_each
      merge_each-Safe fg [] at h = return-Safe E (IsLevelled ls) (λ u. Unit {0}) tt tt
      merge_each-Safe fg (dependent ∷ others) at h =
          bind-Safe E (IsLevelled ls) (Links ls (suc (suc l))) (λ u. Unit {0}) _ _
            (load-Safe dependent (suc l) h.0)
            (λ wanted _.
              bind-Safe E (IsLevelled ls) (Links ls (suc l)) (λ u. Unit {0}) _ _ (load-Safe fg l at)
                (λ group links.
                  bind-Safe E (IsLevelled ls) (IsFound (suc l)) (λ u. Unit {0}) _ _
                    (find_existing-Safe wanted (suc l) (dependent_groups group)
                      (dependent_groups-AreOf ls (suc l) group links))
                    (λ existing found.
                      bind-Safe E (IsLevelled ls) (λ u. Unit {0}) (λ u. Unit {0}) _ _
                        (merge_into-Safe fg dependent existing at h.0 found)
                        (λ u _. merge_each-Safe fg others at h.1))))

module _ (path_string : ResponsePath → String) (ls : List ℕ) where
  -- The fuel and the level of the groups are `n` together.
  merge_dependent_groups-Safe :
      (n fuel fg that l : ℕ)
      → fuel + l ≡ n
      → at_index fg ls ≡ some l
      → at_index that ls ≡ some l
      → Safe
          (All (λ m. m < n) ls)
          (IsLevelled ls)
          (λ u. Unit {0})
          (merge_dependent_groups path_string fuel fg that)
  unfolding merge_dependent_groups
  merge_dependent_groups-Safe n zero fg that l eq at other = λ s p.
      (λ enough. absurd (omega (arith, All-at (λ m. m < n) fg l ls at enough, eq)), λ t u e. cc)
  merge_dependent_groups-Safe n (suc fuel) fg that l eq at other =
      bind-Safe (All (λ m. m < n) ls) (IsLevelled ls) (Links ls (suc l)) (λ u. Unit {0}) _ _
        (load-Safe ls (All (λ m. m < n) ls) that l other)
        (λ group links.
          merge_each-Safe ls (All (λ m. m < n) ls) path_string
            (merge_dependent_groups path_string fuel) l
            (λ f t. merge_dependent_groups-Safe n fuel f t (suc l) (omega (arith, eq))) fg
            (dependent_groups group) at (dependent_groups-AreOf ls (suc l) group links))

  -- Merging the dependent groups of one group into those of another, where every group has a level
  -- and what depends on it is of the next one, and these two have one level, returns with the groups
  -- on their levels, if the fuel and that level make up the number of the groups.
  pub merge_dependent_groups-IsLevelled :
      (fuel fg that l : ℕ) (s : Store)
      → IsLevelled ls s
      → at_index fg ls ≡ some l
      → at_index that ls ≡ some l
      → length s.groups ≤ fuel + l
      → (t : Store) × (merge_dependent_groups path_string fuel fg that s ≡ done (tt, t))
        × IsLevelled ls t
  merge_dependent_groups-IsLevelled fuel fg that l s p at other enough =
      let (returns, keeps) =
        merge_dependent_groups-Safe (fuel + l) fuel fg that l refl at other s p in
      let size = IsLevelled-length ls s p in
      let (u, t, e) = returns (All-map ls (λ m lt. omega (arith, lt, enough, size)) p.1) in
      (t, e, (keeps t u e).0)

  -- The same without a bound on the fuel, if the call returns.
  pub merge_dependent_groups-unbounded :
      (fuel fg that l : ℕ) (s t : Store) (u : Unit {0})
      → IsLevelled ls s
      → at_index fg ls ≡ some l
      → at_index that ls ≡ some l
      → merge_dependent_groups path_string fuel fg that s ≡ done (u, t)
      → IsLevelled ls t
  merge_dependent_groups-unbounded fuel fg that l s t u p at other e =
      ((merge_dependent_groups-Safe (fuel + l) fuel fg that l refl at other s p).1 t u e).0

  -- The same where the levels have a bound.
  pub merge_dependent_groups-below :
      (fuel fg that l n : ℕ) (s : Store)
      → IsLevelled ls s
      → at_index fg ls ≡ some l
      → at_index that ls ≡ some l
      → All (λ m. m < n) ls
      → n ≤ fuel
      → (t : Store) × (merge_dependent_groups path_string fuel fg that s ≡ done (tt, t))
        × IsLevelled ls t
  merge_dependent_groups-below fuel fg that l n s p at other below enough =
      let (returns, keeps) =
        merge_dependent_groups-Safe (fuel + l) fuel fg that l refl at other s p in
      let (u, t, e) = returns (All-map ls (λ m lt. omega (arith, lt, enough)) below) in
      (t, e, (keeps t u e).0)
