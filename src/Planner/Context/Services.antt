-- ===== src/Planner/Context/Services.antt =====
-- The rest of query_planning_context.go: which service owns a field, and the fields that it needs
-- before it can be fetched.
pub mod Defined
pub mod Ends
pub mod Variables
use fedeway.Prelude.{
  ℕ, String, Bool, true, false, Option, none, some, List, [], ◌∷◌, ◌++◌, lookup, if◌then◌else◌,
}
use fedeway.Outcome.{Outcome, done, panicked, or_panic, ◌>>=◌}
use fedeway.Ast.{
  GqlType, FieldDefinition, Definition, Selection, SelectionSet, empty, select, is_empty,
}
use fedeway.Planner.Scope.{Scope, outermost, refine, possible_runtime_types}
use fedeway.Planner.Grouping.{Field}
use fedeway.Planner.FieldSets.{is_composite_type}
use fedeway.Planner.Context.{
  PlanningContext, TypeMetadata, FieldMetadata, typename_field, typename_meta_field_def,
  collect_fields,
}

module _ (qpctx : PlanningContext) where
  -- `getFederationMetadataForType`, `getFederationMetadataForField`
  abbrev pub metadata_for_type : Definition → Option TypeMetadata
  metadata_for_type def = qpctx.type_metadata def.ptr

  abbrev pub metadata_for_field : FieldDefinition → Option FieldMetadata
  metadata_for_field def = qpctx.field_metadata def.ptr

  -- `getBaseService`
  unfoldable pub get_base_service : Definition → String
  get_base_service parent = elim (metadata_for_type parent) [
    | none ↦ ""
    | some meta ↦ if meta.is_value_type then "" else meta.graph_name
  ]

  -- `getBaseType`, which panics at a type without metadata
  abbrev pub get_base_type : Definition → Outcome String
  get_base_type parent = elim (metadata_for_type parent) [
    | none ↦ panicked
    | some meta ↦ done meta.graph_name
  ]

  -- `getOwningService`
  unfoldable pub get_owning_service : Definition → FieldDefinition → Outcome String
  get_owning_service parent def = elim (metadata_for_field def) [
    | none ↦ get_base_type parent
    | some meta ↦ done meta.graph_name
  ]

  -- `typ.Keys[serviceName]` of an entity
  abbrev pub keys_of : Option TypeMetadata → String → SelectionSet
  keys_of none service = empty
  keys_of (some meta) service = elim (lookup service meta.keys) [
    | none ↦ empty
    | some keys ↦ if meta.is_value_type then empty else keys
  ]

  module _ (fuel : ℕ) where
    -- the loop over all the keys
    unfoldable pub collect_keys : Scope → SelectionSet → Outcome (List Field)
    unfolding refine collect_fields
    collect_keys scope empty = done []
    collect_keys scope (select key keys) = do
      fields ← collect_fields qpctx fuel scope (select key empty)
      others ← collect_keys scope keys
      done (fields ++ others)

    -- the first key, or all
    abbrev pub chosen_keys : Bool → SelectionSet → SelectionSet
    chosen_keys true keys = keys
    chosen_keys false empty = empty
    chosen_keys false (select key keys) = select key empty

    -- the loop over the possible run-time types
    unfoldable pub keys_for_types : Scope → String → Bool → List Definition → Outcome (List Field)
    unfolding collect_keys
    keys_for_types scope service fetch_all [] = done []
    keys_for_types scope service fetch_all (typ ∷ types) = do
      fields ←
          collect_keys (refine qpctx.schema scope typ [])
            (chosen_keys fetch_all (keys_of (metadata_for_type typ) service))
      others ← keys_for_types scope service fetch_all types
      done (fields ++ others)

    -- `getKeyFields`
    unfoldable pub get_key_fields : Scope → String → Bool → Outcome (List Field)
    unfolding keys_for_types
    get_key_fields scope service fetch_all = do
      fields ← keys_for_types scope service fetch_all (possible_runtime_types qpctx.schema scope)
      done (
          record { scope = scope; field_node = typename_field; field_def = typename_meta_field_def }
          ∷ fields)

    -- the fields of `@requires` or of `@provides`, if the field has any
    abbrev pub more_fields : Scope → SelectionSet → List Field → Outcome (List Field)
    more_fields scope selections fields = do
      others ← collect_fields qpctx fuel scope selections
      done (fields ++ others)

    abbrev pub requires_of : Option FieldMetadata → SelectionSet
    requires_of none = empty
    requires_of (some meta) = meta.requires

    abbrev pub provides_of : Option FieldMetadata → SelectionSet
    provides_of none = empty
    provides_of (some meta) = meta.provides

    -- `getRequiredFields`
    unfoldable pub get_required_fields : Scope → FieldDefinition → String → Outcome (List Field)
    unfolding get_key_fields
    get_required_fields scope def service = do
      fields ← get_key_fields scope service false
      more_fields scope (requires_of (metadata_for_field def)) fields

    -- `getProvidedFields`, which panics at a type that the schema does not have
    unfoldable pub get_provided_fields :
        (GqlType → String) → FieldDefinition → String → Outcome (List Field)
    unfolding get_key_fields is_composite_type
    get_provided_fields type_name def service = do
      return_type ← or_panic (qpctx.schema.types (type_name def.type))
      let provided = do
        fields ← get_key_fields (outermost return_type []) service true
        more_fields (outermost return_type []) (provides_of (metadata_for_field def)) fields
      if is_composite_type return_type then provided else done []
