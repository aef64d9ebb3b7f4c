-- ===== src/Planner/Splitting/Frame.antt =====
-- What `splitFields` keeps, if the function that finds a group and `completeField` do.
pub mod Subfields
pub mod Complete
use fedeway.Prelude.{
  ℕ, String, Bool, true, false, ◌&&◌, ◌||◌, Option, List, [], ◌∷◌, ◌++◌, if◌then◌else◌, ◌≡◌, refl,
}
use fedeway.Outcome.{Outcome, done}
use fedeway.Ast.{GqlType, Definition, FieldDefinition}
use fedeway.Plan.{ResponsePath}
use fedeway.Planner.Scope.{Scope, parent_type, refine, possible_runtime_types, contains_type}
use fedeway.Planner.Grouping.{Field, group_by_response_name}
use fedeway.Planner.FieldSets.{group_by_scope}
use fedeway.Planner.Context.{PlanningContext, field_def_of}
use fedeway.Planner.Groups.{FetchGroup, Store, Planning, ◌>>=◌, ◌>>◌, return, lift}
use fedeway.Planner.Groups.Changes.{IsClosed}
use fedeway.Planner.Groups.Frame.{
  Holds, bind-Holds, return-Holds, lift-Holds, if-Holds, refine-Holds,
}
use fedeway.Planner.Splitting.{
  is_introspection_type, is_typename_of_root, is_object, append_field, add_runtime_type,
  is_extended, split_directly, groups_for_types, with_field_def, complete_for_types,
  complete_for_groups, split_by_type, split_if_extended, split_scope, split_scopes, split_names,
  split_fields,
}

module _ (P : Store → Type 0) (closed : IsClosed P) where
  pub append_field-Holds : (ref : ℕ) (field : Field) → Holds P (append_field ref field)
  append_field-Holds ref field =
      refine-Holds P closed ref (λ group. record group { fields = group.fields ++ field ∷ [] })
        (λ g. (refl, refl, refl))

  module _ (qpctx : PlanningContext) (type_name : GqlType → String) (group_for : Field → Planning ℕ)
      (complete : Scope → ℕ → ResponsePath → List Field → Planning Field) (path : ResponsePath)
      (finds : (f : Field) → Holds P (group_for f))
      (completes : (scope : Scope) (ref : ℕ) (at : ResponsePath) (fields : List Field)
        → Holds P (complete scope ref at fields)) where
    split_directly-Holds :
        (field : Field) (fields : List Field)
        → Holds P (split_directly qpctx type_name group_for complete path field fields)
    unfolding split_directly
    split_directly-Holds field fields = bind-Holds P _ _ (finds field) (λ group.
        bind-Holds P _ _ (completes field.scope group path (field ∷ fields))
          (λ completed. append_field-Holds group completed))

    groups_for_types-Holds :
        (field : Field) (types : List Definition) (index : List (ℕ × List Definition))
        → Holds P (groups_for_types qpctx type_name group_for complete path field types index)
    unfolding groups_for_types
    groups_for_types-Holds field [] index = return-Holds P index
    groups_for_types-Holds field (typ ∷ types) index =
        bind-Holds P _ _ (lift-Holds P (field_def_of qpctx typ field.field_node)) (λ def.
          bind-Holds P _ _ (finds _)
            (λ group. groups_for_types-Holds field types (add_runtime_type group typ index)))

    complete_for_types-Holds :
        (field : Field) (fields : List Field) (group : ℕ) (types : List Definition)
        → Holds P
            (complete_for_types qpctx type_name group_for complete path field fields group types)
    unfolding complete_for_types
    complete_for_types-Holds field fields group [] = return-Holds P tt
    complete_for_types-Holds field fields group (typ ∷ types) =
        bind-Holds P _ _ (lift-Holds P (field_def_of qpctx typ field.field_node)) (λ def.
          bind-Holds P _ _ (completes _ group path _) (λ completed.
            bind-Holds P _ _ (append_field-Holds group completed)
              (λ u. complete_for_types-Holds field fields group types)))

    complete_for_groups-Holds :
        (field : Field) (fields : List Field) (entries : List (ℕ × List Definition))
        → Holds P (complete_for_groups qpctx type_name group_for complete path field fields entries)
    unfolding complete_for_groups
    complete_for_groups-Holds field fields [] = return-Holds P tt
    complete_for_groups-Holds field fields (entry ∷ entries) =
        bind-Holds P _ _ (complete_for_types-Holds field fields entry.0 entry.1)
          (λ u. complete_for_groups-Holds field fields entries)

    split_if_extended-Holds :
        (field : Field) (fields : List Field) (types : List Definition)
        → Holds P (split_if_extended qpctx type_name group_for complete path field fields types)
    split_if_extended-Holds field fields types =
        bind-Holds P _ _ (lift-Holds P (is_extended qpctx type_name field.field_node types))
          (λ extended.
            if-Holds P extended _ _
              (bind-Holds P _ _ (groups_for_types-Holds field types [])
                (λ index. complete_for_groups-Holds field fields index))
              (split_directly-Holds field fields))

    split_scope-Holds :
        (fields : List Field) → Holds P (split_scope qpctx type_name group_for complete path fields)
    unfolding split_scope
    split_scope-Holds [] = λ s t a e p. cc
    split_scope-Holds (field ∷ fields) =
        let types = possible_runtime_types qpctx.schema field.scope in
        if-Holds P
          (is_typename_of_root qpctx.schema field
            || is_introspection_type (type_name field.field_def.type))
          _ _ (return-Holds P tt)
          (if-Holds P
            (is_object (parent_type field.scope).kind
              && contains_type types (parent_type field.scope))
            _ _ (split_directly-Holds field fields) (split_if_extended-Holds field fields types))

    split_scopes-Holds :
        (groups : List (List Field))
        → Holds P (split_scopes qpctx type_name group_for complete path groups)
    unfolding split_scopes
    split_scopes-Holds [] = return-Holds P tt
    split_scopes-Holds (fields ∷ groups) =
        bind-Holds P _ _ (split_scope-Holds fields) (λ u. split_scopes-Holds groups)

    split_names-Holds :
        (key : Scope → Option String) (groups : List (List Field))
        → Holds P (split_names qpctx type_name group_for complete path key groups)
    unfolding split_names
    split_names-Holds key [] = return-Holds P tt
    split_names-Holds key (fields ∷ groups) =
        bind-Holds P _ _ (lift-Holds P (group_by_scope key fields)) (λ scopes.
          bind-Holds P _ _ (split_scopes-Holds scopes) (λ u. split_names-Holds key groups))

    pub split_fields-Holds :
        (key : Scope → Option String) (fields : List Field)
        → Holds P (split_fields qpctx type_name group_for complete path key fields)
    unfolding split_fields
    split_fields-Holds key fields = split_names-Holds key (group_by_response_name fields)
