-- ===== src/Planner/Splitting/Safe/Groups.antt =====
-- The operations on single groups, on levels below the bound.
use fedeway.Prelude.{
  ℕ, zero, suc, ◌<◌, ◌≤◌, String, Option, inl, inr, none, some, some_eq, List, [], ◌∷◌, ◌++◌,
  length, lookup, All-append, ◌==◌, Bool-cases, ◌≡◌, refl, sym, ap, ◌∙◌, subst,
}
use fedeway.Outcome.{done, or_panic, is_exhausted-bind, is_exhausted-or_panic, done_eq}
use fedeway.Plan.{ResponsePath}
use fedeway.Planner.Grouping.{Field}
use fedeway.Planner.Groups.{
  FetchGroup, Store, ◌>>=◌, at_index, load, store, allocate, new_group, references, find_or_make,
  require, dependent_group_for_service, merge_dependent_groups,
}
use fedeway.Planner.Groups.Changes.{load-eq, HasSameLinks}
use fedeway.Planner.Groups.Frame.Merging.{merge_dependent_groups-Holds}
use fedeway.Planner.Groups.Levels.{AreOf, Links, at_index-length}
use fedeway.Planner.Groups.Levels.Steps.{
  IsLevelled-length, IsLevelled-at, IsLevelled-change, IsLevelled-allocate, IsLevelled-depends,
}
use fedeway.Planner.Groups.Levels.Merging.{merge_dependent_groups-below}
use fedeway.Planner.Splitting.{append_field}
use fedeway.Planner.Splitting.Safe.{
  Grows-refl, at-Grows, IsBelow, HasRoots, HasRoots-grow, Safe, Anything, bind-Safe, return-Safe,
}

pub lookup-AreOf :
    (ls : List ℕ) (l : ℕ) (k : String) (m : List (String × ℕ)) (ref : ℕ)
    → AreOf ls l (references m)
    → lookup k m ≡ some ref
    → at_index ref ls ≡ some l
lookup-AreOf ls l k [] ref h e = cc
lookup-AreOf ls l k (entry ∷ m) ref h e = elim (Bool-cases (entry.0 == k)) [
  | inl t ↦ subst (λ r. at_index r ls ≡ some l) (some_eq (rw t at e)) h.0
  | inr t ↦ lookup-AreOf ls l k m ref h.1 (rw t at e)
]

module _ (bound : ℕ) where
  pub load-Safe :
      (ls : List ℕ) (ref l : ℕ)
      → at_index ref ls ≡ some l
      → Safe bound ls (λ ms g. Links ms (suc l) g) (load ref)
  unfolding load
  load-Safe ls ref l h s p = (
    is_exhausted-bind (or_panic (at_index ref s.groups)) _
        (is_exhausted-or_panic (at_index ref s.groups)) (λ g e. refl),
    λ t g eq.
        let (unchanged, at) = load-eq ref s (g, t) eq in
        let (m, e, links) = IsLevelled-at ls s ref g p.0 at in
        (
          ls,
          Grows-refl ls,
          subst (IsBelow bound ls) (sym unchanged) p,
          subst (λ n. Links ls (suc n) g) (some_eq (sym e ∙ h)) links,
        ),
  )

  pub store-Safe :
      (ls : List ℕ) (ref l : ℕ) (g : FetchGroup)
      → at_index ref ls ≡ some l
      → Links ls (suc l) g
      → Safe bound ls (Anything bound) (store ref g)
  unfolding store
  store-Safe ls ref l g h k s p = (
    refl,
    λ t u eq. (
      ls,
      Grows-refl ls,
      subst (IsBelow bound ls) (ap (λ (r : (Unit {0}) × Store). r.1) (done_eq eq))
          (IsLevelled-change ls s ref l g p.0 h k, p.1, p.2),
      tt,
    ),
  )

  -- A group is changed, but not what depends on it.
  pub refine-Safe :
      (ls : List ℕ) (ref l : ℕ) (change : FetchGroup → FetchGroup)
      → at_index ref ls ≡ some l
      → ((g : FetchGroup) → HasSameLinks g (change g))
      → Safe bound ls (Anything bound) (load ref >>= λ g. store ref (change g))
  refine-Safe ls ref l change h same =
      bind-Safe bound ls (λ ms g. Links ms (suc l) g) (Anything bound) _ _ (load-Safe ls ref l h)
        (λ ms grows g links. store-Safe ms ref l (change g) (at-Grows ls ms ref l grows h) (
          subst (λ m. AreOf ms (suc l) (references m)) (sym (same g).1) links.0,
          subst (AreOf ms (suc l)) (sym (same g).2) links.1,
        ))

  pub append_field-Safe :
      (ls : List ℕ) (ref l : ℕ) (field : Field)
      → at_index ref ls ≡ some l
      → Safe bound ls (Anything bound) (append_field ref field)
  append_field-Safe ls ref l field h =
      refine-Safe ls ref l (λ group. record group { fields = group.fields ++ field ∷ [] }) h
        (λ g. (refl, refl, refl))

  pub allocate-Safe :
      (ls : List ℕ) (l : ℕ) (service : String) (path : ResponsePath)
      → l < suc (length ls)
      → l < bound
      → Safe bound ls (λ ms ref. at_index ref ms ≡ some l) (allocate (new_group service path))
  unfolding allocate
  allocate-Safe ls l service path lt below s p =
      let longer = ls ++ l ∷ [] in
      let after : Store = record s { groups = s.groups ++ new_group service path ∷ [] } in
      (
        refl,
        λ t ref e.
            let same = done_eq e in
            (
              longer,
              (l ∷ [], refl),
              subst (IsBelow bound longer) (ap (λ (r : ℕ × Store). r.1) same) (
                IsLevelled-allocate ls s l service path p.0 lt,
                All-append (λ m. m < bound) ls (l ∷ []) p.1 (below, tt),
                HasRoots-grow ls (l ∷ []) s p.2,
              ),
              subst (λ r. at_index r longer ≡ some l) (ap (λ (r : ℕ × Store). r.0) same)
                  (subst (λ n. at_index n longer ≡ some l) (IsLevelled-length ls s p.0)
                    (at_index-length l ls)),
            ),
      )

  find_or_make-Safe :
      (ls : List ℕ) (fg l : ℕ) (service : String) (parent : FetchGroup) (o : Option ℕ)
      → at_index fg ls ≡ some l
      → Links ls (suc l) parent
      → suc l < bound
      → lookup service parent.dependent_groups_by_service ≡ o
      → Safe bound ls (λ ms ref. at_index ref ms ≡ some (suc l)) (find_or_make fg service parent o)
  unfolding allocate store
  find_or_make-Safe ls fg l service parent (some ref) h links below e =
      return-Safe bound ls (λ ms r. at_index r ms ≡ some (suc l)) ref
        (lookup-AreOf ls (suc l) service parent.dependent_groups_by_service ref links.0 e)
  find_or_make-Safe ls fg l service parent none h links below e = λ s p.
      let longer = ls ++ suc l ∷ [] in
      (
        refl,
        λ t ref eq.
            let same = done_eq eq in
            (
              longer,
              (suc l ∷ [], refl),
              subst (IsBelow bound longer) (ap (λ (r : ℕ × Store). r.1) same) (
                IsLevelled-depends ls s fg l parent service p.0 h links,
                All-append (λ m. m < bound) ls (suc l ∷ []) p.1 (below, tt),
                HasRoots-grow ls (suc l ∷ []) s p.2,
              ),
              subst (λ r. at_index r longer ≡ some (suc l)) (ap (λ (r : ℕ × Store). r.0) same)
                  (subst (λ n. at_index n longer ≡ some (suc l)) (IsLevelled-length ls s p.0)
                    (at_index-length (suc l) ls)),
            ),
      )

  require-Safe :
      (ls : List ℕ) (fg ref l m : ℕ) (fields : List Field)
      → at_index fg ls ≡ some l
      → at_index ref ls ≡ some m
      → Safe bound ls (Anything bound) (require fg ref fields)
  require-Safe ls fg ref l m [] h k = return-Safe bound ls (Anything bound) tt tt
  require-Safe ls fg ref l m (f ∷ fields) h k =
      bind-Safe bound ls (λ ms g. Links ms (suc m) g) (Anything bound) _ _ (load-Safe ls ref m k)
        (λ ms grows group links.
          bind-Safe bound ms (Anything bound) (Anything bound) _ _
            (store-Safe ms ref m _ (at-Grows ls ms ref m grows k) links)
            (λ ns more u _.
              refine-Safe ns fg l (λ parent. record parent { fields = parent.fields ++ f ∷ fields })
                (at-Grows ms ns fg l more (at-Grows ls ms fg l grows h)) (λ g. (refl, refl, refl))))

  pub dependent_group_for_service-Safe :
      (ls : List ℕ) (fg l : ℕ) (service : String) (required : List Field)
      → at_index fg ls ≡ some l
      → suc l < bound
      → Safe bound ls
          (λ ms ref. at_index ref ms ≡ some (suc l))
          (dependent_group_for_service fg service required)
  unfolding dependent_group_for_service
  dependent_group_for_service-Safe ls fg l service required h below =
      bind-Safe bound ls (λ ms g. Links ms (suc l) g) (λ ms ref. at_index ref ms ≡ some (suc l)) _ _
        (load-Safe ls fg l h)
        (λ ms grows parent links.
          let at_fg = at-Grows ls ms fg l grows h in
          bind-Safe bound ms (λ ns ref. at_index ref ns ≡ some (suc l))
            (λ ns ref. at_index ref ns ≡ some (suc l)) _ _
            (find_or_make-Safe ms fg l service parent
              (lookup service parent.dependent_groups_by_service) at_fg links below refl)
            (λ ns more ref here.
              bind-Safe bound ns (Anything bound) (λ os r. at_index r os ≡ some (suc l)) _ _
                (require-Safe ns fg ref l (suc l) required (at-Grows ms ns fg l more at_fg) here)
                (λ os last_ones u _.
                  return-Safe bound os (λ os r. at_index r os ≡ some (suc l)) ref
                    (at-Grows ns os ref (suc l) last_ones here))))

  merge-HasRoots :
      (path_string : ResponsePath → String) (ls : List ℕ) (fuel fg that : ℕ) (s t : Store)
      → merge_dependent_groups path_string fuel fg that s ≡ done (tt, t)
      → HasRoots ls s
      → HasRoots ls t
  merge-HasRoots path_string ls fuel fg that s t e h =
      merge_dependent_groups-Holds (HasRoots ls)
        (λ u v k r. (
          subst (AreOf ls zero) (sym k.roots) r.0,
          subst (λ m. AreOf ls zero (references m)) (sym k.by_service) r.1,
        ))
        path_string fuel fg that s t tt e h

  pub merge_dependent_groups-Safe :
      (path_string : ResponsePath → String) (ls : List ℕ) (fuel fg that l : ℕ)
      → at_index fg ls ≡ some l
      → at_index that ls ≡ some l
      → bound ≤ fuel
      → Safe bound ls (Anything bound) (merge_dependent_groups path_string fuel fg that)
  merge_dependent_groups-Safe path_string ls fuel fg that l h k enough s p =
      let (after, e, levelled) =
        merge_dependent_groups-below path_string ls fuel fg that l bound s p.0 h k p.1 enough in
      (
        rw e refl,
        λ t u eq. (
          ls,
          Grows-refl ls,
          subst (IsBelow bound ls) (ap (λ (r : (Unit {0}) × Store). r.1) (done_eq (sym e ∙ eq)))
              (levelled, p.1, merge-HasRoots path_string ls fuel fg that s after e p.2),
          tt,
        ),
      )
