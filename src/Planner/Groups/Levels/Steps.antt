-- ===== src/Planner/Groups/Levels/Steps.antt =====
-- The changes of groups, and levels.
use fedeway.Prelude.{
  ℕ, suc, ◌<◌, String, some, List, [], ◌∷◌, ◌++◌, append_assoc, length, assign, All-append, All-map,
  ◌≡◌, refl, sym, ap, subst, arith,
}
use fedeway.Plan.{ResponsePath}
use fedeway.Planner.Groups.{FetchGroup, Store, at_index, set_at, new_group, references}
use fedeway.Planner.Groups.Changes.{IsClosed, with_dependent}
use fedeway.Planner.Groups.Levels.{
  AreOf, Links, IsLevelled, HasLevels, at_index-grow, at_index-length, All-at,
  All-references_assign, Links-grow, AreLinked-grow, AreLinked-snoc, AreLinked-set,
  AreLinked-length, AreLinked-at, AreLinked-group,
}

length-snoc : (ls : List ℕ) (l : ℕ) → length (ls ++ l ∷ []) ≡ suc (length ls)
length-snoc [] l = refl
length-snoc (m ∷ ls) l = ap suc (length-snoc ls l)

pub IsLevelled-length : (ls : List ℕ) (s : Store) → IsLevelled ls s → length ls ≡ length s.groups
IsLevelled-length ls s h = AreLinked-length ls ls s.groups h.0

-- A group that stands in the store has a level, and what depends on it is of the next one.
pub IsLevelled-at :
    (ls : List ℕ) (s : Store) (ref : ℕ) (g : FetchGroup)
    → IsLevelled ls s
    → at_index ref s.groups ≡ some g
    → (l : ℕ) × (at_index ref ls ≡ some l) × Links ls (suc l) g
IsLevelled-at ls s ref g h e = AreLinked-at ls ls s.groups ref g h.0 e

-- A reference that has a level is of a group in the store.
pub IsLevelled-group :
    (ls : List ℕ) (s : Store) (ref l : ℕ)
    → IsLevelled ls s
    → at_index ref ls ≡ some l
    → (g : FetchGroup) × (at_index ref s.groups ≡ some g)
IsLevelled-group ls s ref l h e = AreLinked-group ls ls s.groups ref l h.0 e

-- A level is less than the number of groups.
pub IsLevelled-lt :
    (ls : List ℕ) (s : Store) (ref l : ℕ)
    → IsLevelled ls s
    → at_index ref ls ≡ some l
    → l < length ls
IsLevelled-lt ls s ref l h e = All-at (λ m. m < length ls) ref l ls e h.1

pub IsLevelled-change :
    (ls : List ℕ) (s : Store) (ref l : ℕ) (g : FetchGroup)
    → IsLevelled ls s
    → at_index ref ls ≡ some l
    → Links ls (suc l) g
    → IsLevelled ls (record s { groups = set_at ref g s.groups })
IsLevelled-change ls s ref l g h e k = (AreLinked-set ls ls s.groups ref l g h.0 e k, h.1)

-- A new group, on which nothing depends.
pub IsLevelled-allocate :
    (ls : List ℕ) (s : Store) (l : ℕ) (service : String) (path : ResponsePath)
    → IsLevelled ls s
    → l < suc (length ls)
    → IsLevelled (ls ++ l ∷ []) (record s { groups = s.groups ++ new_group service path ∷ [] })
IsLevelled-allocate ls s l service path h lt =
    let longer = ls ++ l ∷ [] in
    let len = length-snoc ls l in
    (
      AreLinked-snoc longer ls s.groups l (new_group service path)
          (AreLinked-grow ls (l ∷ []) ls s.groups h.0) (tt, tt),
      All-append (λ m. m < length longer) ls (l ∷ [])
          (All-map ls (λ m k. omega (arith, len, k)) h.1) (omega (arith, len, lt), tt),
    )

-- A new group on which another depends is of its next level.
pub IsLevelled-depends :
    (ls : List ℕ) (s : Store) (fg l : ℕ) (parent : FetchGroup) (service : String)
    → IsLevelled ls s
    → at_index fg ls ≡ some l
    → Links ls (suc l) parent
    → IsLevelled (ls ++ suc l ∷ []) (with_dependent fg service parent s)
IsLevelled-depends ls s fg l parent service h e k =
    let longer = ls ++ suc l ∷ [] in
    let bigger : Store = record s { groups = s.groups ++ new_group service parent.merge_at ∷ [] } in
    let made =
      IsLevelled-allocate ls s (suc l) service parent.merge_at h
        (omega (arith, IsLevelled-lt ls s fg l h e)) in
    let new_level : at_index (length s.groups) longer ≡ some (suc l) =
      subst (λ n. at_index n longer ≡ some (suc l)) (IsLevelled-length ls s h)
        (at_index-length (suc l) ls) in
    let kept = Links-grow ls (suc l ∷ []) (suc l) parent k in
    IsLevelled-change longer bigger fg l
      (record parent {
        dependent_groups_by_service =
            assign service (length s.groups) parent.dependent_groups_by_service;
      })
      made (at_index-grow fg l ls (suc l ∷ []) e)
      (
        All-references_assign (λ r. at_index r longer ≡ some (suc l)) service (length s.groups)
            parent.dependent_groups_by_service new_level kept.0,
        kept.1,
      )

-- Levels go on from those before.
pub HasLevels-snoc :
    (ls new : List ℕ) (l : ℕ) (s : Store) → IsLevelled ((ls ++ new) ++ l ∷ []) s → HasLevels ls s
HasLevels-snoc ls new l s h =
    (new ++ l ∷ [], subst (λ ms. IsLevelled ms s) (append_assoc ls new (l ∷ [])) h)

pub HasLevels-IsClosed : (ls : List ℕ) → IsClosed (HasLevels ls)
HasLevels-IsClosed ls = record {
  changes = λ s ref old new at same p.
      let all_levels = ls ++ p.0 in
      let (l, e, links) = IsLevelled-at all_levels s ref old p.1 at in
      (
        p.0,
        IsLevelled-change all_levels s ref l new p.1 e (
          subst (λ m. AreOf all_levels (suc l) (references m)) (sym same.1) links.0,
          subst (AreOf all_levels (suc l)) (sym same.2) links.1,
        ),
      );
  depends = λ s fg parent service at p.
      let all_levels = ls ++ p.0 in
      let (l, e, links) = IsLevelled-at all_levels s fg parent p.1 at in
      HasLevels-snoc ls p.0 (suc l) (with_dependent fg service parent s)
        (IsLevelled-depends all_levels s fg l parent service p.1 e links);
  known = λ s fragments p. p;
}
