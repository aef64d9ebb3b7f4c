-- ===== src/Planner/Splitting/Roots/Levels.antt =====
-- The levels of the groups of a split.
use fedeway.Prelude.{
  ℕ, zero, String, Bool, true, false, if◌then◌else◌, Option, none, some, List, [], ◌∷◌, ◌++◌,
  append_assoc, append-nil, length, lookup, ◌==◌, ◌≡◌, sym, ap, ◌∙◌, subst, arith,
}
use fedeway.Outcome.{Outcome, done, done_eq, bind-eq-done}
use fedeway.Ast.{GqlType, SelectionSet}
use fedeway.Plan.{ResponsePath}
use fedeway.Planner.Scope.{Scope}
use fedeway.Planner.Grouping.{Field}
use fedeway.Planner.Context.{PlanningContext}
use fedeway.Planner.Groups.{Store, Planning, at_index, allocate, new_group}
use fedeway.Planner.Groups.Frame.{Holds, load-Holds, return-Holds, if-Holds}
use fedeway.Planner.Groups.Levels.{IsLevelled, HasLevels, at_index-grow, at_index-length}
use fedeway.Planner.Groups.Levels.Steps.{
  IsLevelled-at, IsLevelled-lt, IsLevelled-length, IsLevelled-allocate, HasLevels-snoc,
  HasLevels-IsClosed,
}
use fedeway.Planner.Groups.Levels.Merging.{merge_dependent_groups-unbounded}
use fedeway.Planner.Splitting.{split_fields}
use fedeway.Planner.Splitting.Frame.{split_fields-Holds}
use fedeway.Planner.Splitting.Frame.Complete.{Nests, complete_field-Holds}
use fedeway.Planner.Splitting.Complete.{complete_field}
use fedeway.Planner.Splitting.Roots.{
  append_group, last_or_new, last, group_in_order, known_or_new, group_for_service,
  group_for_root_field, split_root_fields, split_root_fields_serially,
}
use fedeway.Planner.Splitting.Roots.Serial.{group_for_root_field-Holds}

-- The group of a field's selections has the level of the field's own group.
HasLevels-Nests : (path_string : ResponsePath → String) → Nests HasLevels path_string
HasLevels-Nests path_string ls s ref parent path at p =
    let known = ls ++ p.0 in
    let (l, here, links) = IsLevelled-at known s ref parent p.1 at in
    let longer = known ++ l ∷ [] in
    let bigger : Store = record s {
      groups = s.groups ++ new_group parent.service_name path ∷ [];
    } in
    let made =
      IsLevelled-allocate known s l parent.service_name path p.1
        (omega (arith, IsLevelled-lt known s ref l p.1 here)) in
    (
      longer,
      ([], subst (λ ms. IsLevelled ms bigger) (sym (append-nil longer)) made),
      λ fuel t u v e q.
          let all_levels = longer ++ q.0 in
          let at_parent =
            at_index-grow ref l longer q.0 (at_index-grow ref l known (l ∷ []) here) in
          let at_sub : at_index (length s.groups) all_levels ≡ some l =
            at_index-grow (length s.groups) l longer q.0 (
              subst (λ n. at_index n longer ≡ some l) (IsLevelled-length known s p.1)
                (at_index-length l known)) in
          let merged =
            merge_dependent_groups-unbounded path_string all_levels fuel ref (length s.groups) l t u
              v q.1 at_parent at_sub e in
          (
            p.0 ++ (l ∷ q.0),
            subst (λ ms. IsLevelled ms u)
                (append_assoc known (l ∷ []) q.0 ∙ append_assoc ls p.0 (l ∷ q.0)) merged,
          ),
    )

-- A new root group is of the first level.
root-HasLevels :
    (ls : List ℕ) (s : Store) (service : String)
    → HasLevels ls s
    → HasLevels ls (record s { groups = s.groups ++ new_group service [] ∷ [] })
root-HasLevels ls s service p =
    HasLevels-snoc ls p.0 zero (record s { groups = s.groups ++ new_group service [] ∷ [] })
      (IsLevelled-allocate (ls ++ p.0) s zero service [] p.1 (omega arith))

module _ (ls : List ℕ) where
  append_group-Holds : (service : String) → Holds (HasLevels ls) (append_group service)
  unfolding append_group
  append_group-Holds service s t a e p =
      subst (HasLevels ls) (ap (λ (r : ℕ × Store). r.1) (done_eq e)) (root-HasLevels ls s service p)

  last_or_new-Holds :
      (service : String) (o : Option ℕ) → Holds (HasLevels ls) (last_or_new service o)
  last_or_new-Holds service none = append_group-Holds service
  last_or_new-Holds service (some ref) = load-Holds (HasLevels ls) ref _ (λ group s t a at.
      if-Holds (HasLevels ls) (group.service_name == service) _ _ (return-Holds (HasLevels ls) ref)
        (append_group-Holds service) s t a)

  group_in_order-Holds : (service : String) → Holds (HasLevels ls) (group_in_order service)
  unfolding group_in_order
  group_in_order-Holds service s t a e p = last_or_new-Holds service (last s.root_groups) s t a e p

  known_or_new-Holds :
      (service : String) (o : Option ℕ) → Holds (HasLevels ls) (known_or_new service o)
  unfolding allocate
  known_or_new-Holds service (some ref) = return-Holds (HasLevels ls) ref
  known_or_new-Holds service none = λ s t a e p.
      subst (HasLevels ls) (ap (λ (r : ℕ × Store). r.1) (done_eq e)) (root-HasLevels ls s service p)

  group_for_service-Holds : (service : String) → Holds (HasLevels ls) (group_for_service service)
  unfolding group_for_service
  group_for_service-Holds service s t a e p =
      known_or_new-Holds service (lookup service s.root_groups_by_service) s t a e p

module _ (qpctx : PlanningContext) (type_name : GqlType → String)
    (path_string : ResponsePath → String) (key : Scope → Option String)
    (marshal : SelectionSet → Outcome String) (fuel depth : ℕ) (fields : List Field) where
  split_roots-HasLevels :
      (group_for : String → Planning ℕ)
      → ((service : String) → Holds (HasLevels []) (group_for service))
      → (s t : Store) (u : Unit {0}) → s.groups ≡ []
      → split_fields qpctx type_name
          (group_for_root_field qpctx group_for)
          (complete_field qpctx type_name path_string key marshal fuel depth)
          []
          key
          fields
          s
        ≡ done (u, t)
      → HasLevels [] t
  split_roots-HasLevels group_for holds s t u start e =
      split_fields-Holds (HasLevels []) (HasLevels-IsClosed []) qpctx type_name
        (group_for_root_field qpctx group_for)
        (complete_field qpctx type_name path_string key marshal fuel depth) []
        (group_for_root_field-Holds (HasLevels []) qpctx group_for holds)
        (complete_field-Holds HasLevels HasLevels-IsClosed path_string (HasLevels-Nests path_string)
          qpctx fuel type_name key marshal depth [])
        key fields s t u e ([], (rw start tt, tt))

  split_root_fields-HasLevels :
      (s t : Store) (refs : List ℕ)
      → s.groups ≡ []
      → split_root_fields qpctx type_name path_string key marshal fuel depth fields s
        ≡ done (refs, t)
      → HasLevels [] t
  unfolding split_root_fields
  split_root_fields-HasLevels s t refs start e =
      let (r, split, last_step) = bind-eq-done _ _ e in
      subst (HasLevels []) (ap (λ (q : List ℕ × Store). q.1) (done_eq last_step))
        (split_roots-HasLevels group_for_service (group_for_service-Holds []) s r.1 r.0 start split)

  split_root_fields_serially-HasLevels :
      (s t : Store) (refs : List ℕ)
      → s.groups ≡ []
      → split_root_fields_serially qpctx type_name path_string key marshal fuel depth fields s
        ≡ done (refs, t)
      → HasLevels [] t
  unfolding split_root_fields_serially
  split_root_fields_serially-HasLevels s t refs start e =
      let (r, split, last_step) = bind-eq-done _ _ e in
      subst (HasLevels []) (ap (λ (q : List ℕ × Store). q.1) (done_eq last_step))
        (split_roots-HasLevels group_in_order (group_in_order-Holds []) s r.1 r.0 start split)

  -- One of the two splits, as `BuildQueryPlan` chooses.
  abbrev pub split_groups : Bool → Planning (List ℕ)
  split_groups serially =
      if serially
      then split_root_fields_serially qpctx type_name path_string key marshal fuel depth fields
      else split_root_fields qpctx type_name path_string key marshal fuel depth fields

  pub split_groups-HasLevels :
      (serially : Bool) (s t : Store) (refs : List ℕ)
      → s.groups ≡ []
      → split_groups serially s ≡ done (refs, t)
      → HasLevels [] t
  split_groups-HasLevels true = split_root_fields_serially-HasLevels
  split_groups-HasLevels false = split_root_fields-HasLevels
