-- ===== src/Planner/Splitting/Roots.antt =====
-- `splitRootFieldsSerially` and `splitRootFields`: the groups of a mutation, in the order of its
-- fields, and those of a query, one for each service.
pub mod Serial
pub mod Indexed
pub mod Levels
pub mod Acyclic
use fedeway.Prelude.{
  ℕ, String, Bool, Option, none, some, List, [], ◌∷◌, ◌++◌, lookup, assign, sort_by, ◌==◌,
  if◌then◌else◌, concat,
}
use fedeway.Outcome.{Outcome, failed}
use fedeway.Ast.{GqlType, FieldDefinition, SelectionSet}
use fedeway.Plan.{ResponsePath}
use fedeway.Planner.Scope.{Scope, parent_type}
use fedeway.Planner.Grouping.{Field}
use fedeway.Planner.Context.{PlanningContext}
use fedeway.Planner.Context.Services.{get_owning_service}
use fedeway.Planner.Groups.{
  FetchGroup, Store, Planning, ◌>>=◌, ◌>>◌, return, lift, load, allocate, new_group, references,
}
use fedeway.Planner.Splitting.{split_fields}
use fedeway.Planner.Splitting.Complete.{complete_field}

-- `fetchGroups[len(fetchGroups)-1]`
abbrev pub last : List ℕ → Option ℕ
last [] = none
last (x ∷ []) = some x
last (x ∷ y ∷ xs) = last (y ∷ xs)

-- a new group at the end of `fetchGroups`
unfoldable pub append_group : String → Planning ℕ
unfolding allocate
append_group service = do
  ref ← allocate (new_group service [])
  λ s. Outcome.done (ref, record s { root_groups = s.root_groups ++ ref ∷ [] })

-- the last group if it is one of the service, or a new one
abbrev pub last_or_new : String → Option ℕ → Planning ℕ
last_or_new service none = append_group service
last_or_new service (some ref) = do
  group ← load ref
  if group.service_name == service then return ref else append_group service

-- `groupForField` of `splitRootFieldsSerially`
unfoldable pub group_in_order : String → Planning ℕ
unfolding load append_group
group_in_order service = λ s. last_or_new service (last s.root_groups) s

-- a new group in `groupsByService`
abbrev pub known_or_new : String → Option ℕ → Planning ℕ
known_or_new service (some ref) = return ref
known_or_new service none = do
  ref ← allocate (new_group service [])
  λ s.
      Outcome.done
        (ref, record s { root_groups_by_service = assign service ref s.root_groups_by_service })

-- `groupForService` of `splitRootFields`
unfoldable pub group_for_service : String → Planning ℕ
unfolding allocate
group_for_service service = λ s. known_or_new service (lookup service s.root_groups_by_service) s

-- the error of both
abbrev pub no_owner : Field → Outcome ℕ
no_owner field = failed (
    concat (
      "couldn't find owning service for field "
      ∷ (parent_type field.scope).name
      ∷ "."
      ∷ field.field_def.name
      ∷ []))

module _ (qpctx : PlanningContext) where
  -- the function that both pass to `splitFields`, given the group for a service
  unfoldable pub group_for_root_field : (String → Planning ℕ) → Field → Planning ℕ
  unfolding get_owning_service
  group_for_root_field group_for field =
      let parent = parent_type field.scope in
      do
        owning ← lift (get_owning_service qpctx parent field.field_def)
        if owning == "" then lift (no_owner field) else group_for owning

  module _ (type_name : GqlType → String) (path_string : ResponsePath → String)
      (key : Scope → Option String) (marshal : SelectionSet → Outcome String) (fuel depth : ℕ) where
    abbrev split_roots : (String → Planning ℕ) → List Field → Planning (Unit {0})
    split_roots group_for =
        split_fields qpctx type_name (group_for_root_field group_for)
          (complete_field qpctx type_name path_string key marshal fuel depth) [] key

    -- `splitRootFieldsSerially`
    unfoldable pub split_root_fields_serially : List Field → Planning (List ℕ)
    unfolding split_fields complete_field group_for_root_field group_in_order
    split_root_fields_serially fields = do
      split_roots group_in_order fields
      λ s. Outcome.done (s.root_groups, s)

    -- `splitRootFields`
    unfoldable pub split_root_fields : List Field → Planning (List ℕ)
    unfolding split_fields complete_field group_for_root_field group_for_service
    split_root_fields fields = do
      split_roots group_for_service fields
      λ s. Outcome.done (references (sort_by (λ entry. entry.0) s.root_groups_by_service), s)
