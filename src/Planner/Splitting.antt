-- ===== src/Planner/Splitting.antt =====
-- How internal/planner/build_query_plan.go splits fields into fetch groups: `splitFields`.
-- Parameters: gqlparser's `(*Type).Name` and `(ast.Path).String`, what the identity key of a scope
-- calls, and `json.Marshal` of a selection set.
pub mod Frame
pub mod Safe
pub mod Subfields
pub mod Complete
pub mod Roots
use fedeway.Prelude.{
  ℕ, zero, suc, String, Bool, true, false, ◌&&◌, ◌||◌, not, Option, none, some, is_some, List, [],
  ◌∷◌, ◌++◌, length, any, all, lookup, assign, contains, ◌==◌, same, if◌then◌else◌, concat, sort_by,
}
use fedeway.Outcome
use fedeway.Outcome.{Outcome, done, failed, panicked, exhausted, or_panic}
use fedeway.Ast.{
  Kind, object, GqlType, leaf, wrapper, Definition, FieldDefinition, Schema, Selection,
  fragment_spread, FieldNode, with_selection_set, selection_set_of, SelectionSet, empty, select,
  is_empty, FragmentDefinition,
}
use fedeway.Plan.{ResponsePath}
use fedeway.Planner.Scope.{
  Scope, outermost, parent_type, refine, possible_runtime_types, contains_type, is_abstract_type,
}
use fedeway.Planner.Grouping.{Field, get_response_name, group_by_response_name}
use fedeway.Planner.FieldSets.{
  matches_field, is_composite_type, group_by_scope, selection_set_from_field_set,
}
use fedeway.Planner.Context.{
  PlanningContext, FieldMetadata, TypeMetadata, collect_fields, field_def_of, typename_field,
  typename_meta_field_def,
}
use fedeway.Planner.Context.Services.{
  metadata_for_type, metadata_for_field, get_base_service, get_owning_service, get_key_fields,
  get_required_fields, get_provided_fields,
}
use fedeway.Planner.Groups.{
  FetchGroup, InternalFragment, Store, Planning, ◌>>=◌, ◌>>◌, return, lift, load, store, allocate,
  new_group, dependent_group_for_service, merge_dependent_groups,
}

-- `addPath`
abbrev list_marks : GqlType → ResponsePath
list_marks (leaf name non_null) = []
list_marks (wrapper name elem non_null) = if name == "" then "@" ∷ list_marks elem else []

unfoldable pub add_path : ResponsePath → String → GqlType → ResponsePath
add_path path name typ = path ++ name ∷ list_marks typ

-- `IsIntrospectionType` of internal/graphql
abbrev pub is_introspection_type : String → Bool
is_introspection_type = contains (
    "__Schema" ∷ "__Directive" ∷ "__DirectiveLocation" ∷ "__Type" ∷ "__Field" ∷ "__InputValue"
    ∷ "__EnumValue" ∷ "__TypeKind" ∷ [])

abbrev is_named : Option Definition → String → Bool
is_named none name = false
is_named (some def) name = def.name == name

-- the test for `__typename` on a root type
unfoldable pub is_typename_of_root : Schema → Field → Bool
is_typename_of_root schema field =
    let parent = (parent_type field.scope).name in
    field.field_def.name == "__typename"
    && (is_named schema.query parent
        || is_named schema.mutation parent
        || is_named schema.subscription parent)

-- the groups in the order of `groupsIndex`, each with its run-time types
abbrev add_runtime_type : ℕ → Definition → List (ℕ × List Definition) → List (ℕ × List Definition)
add_runtime_type ref typ [] = (ref, typ ∷ []) ∷ []
add_runtime_type ref typ (entry ∷ entries) =
    if same entry.0 ref
    then (ref, entry.1 ++ typ ∷ []) ∷ entries
    else entry ∷ add_runtime_type ref typ entries

abbrev pub is_object : Kind → Bool
is_object object = true
is_object _ = false

-- `append(group.Fields, field)`
abbrev pub append_field : ℕ → Field → Planning (Unit {0})
append_field ref field = do
  group ← load ref
  store ref (record group { fields = group.fields ++ field ∷ [] })

module _ (qpctx : PlanningContext) (type_name : GqlType → String) where
  -- Some possible run-time type has the field from a service of its own.
  abbrev pub is_extended : FieldNode → List Definition → Outcome Bool
  is_extended node [] = done false
  is_extended node (typ ∷ types) = Outcome.◌>>=◌ (field_def_of qpctx typ node) (λ def.
      Outcome.◌>>=◌ (is_extended node types) (λ rest. done (elim (metadata_for_field qpctx def) [
        | none ↦ rest
        | some meta ↦ not (meta.graph_name == "") || rest
      ])))

  module _ (group_for_field : Field → Planning ℕ)
      (complete : Scope → ℕ → ResponsePath → List Field → Planning Field)
      (path : ResponsePath) where
    -- the case in which the fields are fetched under their own scope
    unfoldable pub split_directly : Field → List Field → Planning (Unit {0})
    unfolding load store
    split_directly field fields = do
      group ← group_for_field field
      completed ← complete field.scope group path (field ∷ fields)
      append_field group completed

    -- the groups for the possible run-time types
    unfoldable pub groups_for_types :
        Field → List Definition → List (ℕ × List Definition) → Planning (List (ℕ × List Definition))
    unfolding refine field_def_of
    groups_for_types field [] index = return index
    groups_for_types field (typ ∷ types) index = do
      def ← lift (field_def_of qpctx typ field.field_node)
      group ←
          group_for_field
            (record field { scope = refine qpctx.schema field.scope typ []; field_def = def })
      groups_for_types field types (add_runtime_type group typ index)

    abbrev pub with_field_def : FieldDefinition → List Field → List Field
    with_field_def def [] = []
    with_field_def def (f ∷ fs) = record f { field_def = def } ∷ with_field_def def fs

    -- the field for each run-time type of one group
    unfoldable pub complete_for_types :
        Field → List Field → ℕ → List Definition → Planning (Unit {0})
    unfolding refine field_def_of load store
    complete_for_types field fields group [] = return tt
    complete_for_types field fields group (typ ∷ types) = do
      def ← lift (field_def_of qpctx typ field.field_node)
      completed ←
          complete (refine qpctx.schema field.scope typ []) group path
            (with_field_def def (field ∷ fields))
      append_field group completed
      complete_for_types field fields group types

    unfoldable pub complete_for_groups :
        Field → List Field → List (ℕ × List Definition) → Planning (Unit {0})
    unfolding complete_for_types
    complete_for_groups field fields [] = return tt
    complete_for_groups field fields (entry ∷ entries) = do
      complete_for_types field fields entry.0 entry.1
      complete_for_groups field fields entries

    -- the case of an interface with a field that some type has from a service of its own
    abbrev pub split_by_type : Field → List Field → List Definition → Planning (Unit {0})
    split_by_type field fields types = do
      index ← groups_for_types field types []
      complete_for_groups field fields index

    -- type explosion only where some type has the field from a service of its own
    abbrev pub split_if_extended : Field → List Field → List Definition → Planning (Unit {0})
    split_if_extended field fields types = do
      extended ← lift (is_extended field.field_node types)
      if extended then split_by_type field fields types else split_directly field fields

    -- the body of the inner loop; `continue` leaves the store as it is
    unfoldable pub split_scope : List Field → Planning (Unit {0})
    unfolding is_typename_of_root contains_type possible_runtime_types split_directly
        groups_for_types complete_for_groups
    split_scope [] = λ s. panicked
    split_scope (field ∷ fields) =
        let parent = parent_type field.scope in
        let types = possible_runtime_types qpctx.schema field.scope in
        if is_typename_of_root qpctx.schema field
          || is_introspection_type (type_name field.field_def.type)
        then return tt
        else if is_object parent.kind && contains_type types parent
        then split_directly field fields
        else split_if_extended field fields types

    unfoldable pub split_scopes : List (List Field) → Planning (Unit {0})
    unfolding split_scope
    split_scopes [] = return tt
    split_scopes (fields ∷ groups) = do split_scope fields; split_scopes groups

    unfoldable pub split_names : (Scope → Option String) → List (List Field) → Planning (Unit {0})
    unfolding group_by_scope split_scopes
    split_names key [] = return tt
    split_names key (fields ∷ groups) = do
      scopes ← lift (group_by_scope key fields)
      split_scopes scopes
      split_names key groups

    -- `splitFields`
    unfoldable pub split_fields : (Scope → Option String) → List Field → Planning (Unit {0})
    unfolding group_by_response_name split_names
    split_fields key fields = split_names key (group_by_response_name fields)
