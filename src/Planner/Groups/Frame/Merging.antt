-- ===== src/Planner/Groups/Frame/Merging.antt =====
-- `mergeDependentGroups` keeps what the other operations on the groups keep.
use fedeway.Prelude.{
  ℕ, zero, suc, String, ◌&&◌, Option, none, some, List, [], ◌∷◌, ◌++◌, ◌==◌, refl,
}
use fedeway.Plan.{ResponsePath}
use fedeway.Planner.Groups.{
  FetchGroup, Store, Planning, return, dependent_groups, find_existing, merge_into, merge_each,
  merge_dependent_groups,
}
use fedeway.Planner.Groups.Changes.{Keeps, store-Keeps}
use fedeway.Planner.Groups.Frame.{
  Holds, HoldsAt, bind-Holds, return-Holds, if-Holds, load-Holds, modify-Holds,
}

module _ (P : Store → Type 0) (closed : (s t : Store) → Keeps s t → P s → P t)
    (path_string : ResponsePath → String) where
  -- What holds wherever the group stands holds at the start too.
  weaken {ℓ} :
      {A : Type ℓ} (ref : ℕ) (g : FetchGroup) (m : Planning A) → Holds P m → HoldsAt P ref g m
  weaken ref g m h s t a at e p = h s t a e p

  find_existing-Holds :
      (wanted : FetchGroup) (refs : List ℕ) → Holds P (find_existing path_string wanted refs)
  unfolding find_existing
  find_existing-Holds wanted [] = return-Holds P none
  find_existing-Holds wanted (ref ∷ refs) = load-Holds P ref _ (λ group. weaken ref group _ (
      if-Holds P
        (group.service_name == wanted.service_name
          && path_string group.merge_at == path_string wanted.merge_at)
        (return (some ref)) (find_existing path_string wanted refs) (return-Holds P (some ref))
        (find_existing-Holds wanted refs)))

  module _ (merge : ℕ → ℕ → Planning (Unit {0})) (h : (fg that : ℕ) → Holds P (merge fg that)) where
    merge_into-Holds :
        (fg dependent : ℕ) (o : Option ℕ) → Holds P (merge_into path_string merge fg dependent o)
    merge_into-Holds fg dependent (some existing) = h existing dependent
    merge_into-Holds fg dependent none =
        modify-Holds P fg
          (λ group. record group {
            other_dependent_groups = group.other_dependent_groups ++ dependent ∷ [];
          })
          (λ s g at p. closed s _ (store-Keeps fg s g _ at refl) p)

    merge_each-Holds : (fg : ℕ) (refs : List ℕ) → Holds P (merge_each path_string merge fg refs)
    unfolding merge_each
    merge_each-Holds fg [] = return-Holds P tt
    merge_each-Holds fg (dependent ∷ others) = load-Holds P dependent _ (λ wanted.
        weaken dependent wanted _ (
          load-Holds P fg _ (λ group. weaken fg group _ (
            bind-Holds P _ _ (find_existing-Holds wanted (dependent_groups group)) (λ existing.
              bind-Holds P _ _ (merge_into-Holds fg dependent existing)
                (λ u. merge_each-Holds fg others))))))

  pub merge_dependent_groups-Holds :
      (fuel fg that : ℕ) → Holds P (merge_dependent_groups path_string fuel fg that)
  unfolding merge_dependent_groups
  merge_dependent_groups-Holds zero fg that = λ s t a e p. cc
  merge_dependent_groups-Holds (suc fuel) fg that = load-Holds P that _ (λ group.
      weaken that group _ (
        merge_each-Holds (merge_dependent_groups path_string fuel)
          (merge_dependent_groups-Holds fuel) fg (dependent_groups group)))
