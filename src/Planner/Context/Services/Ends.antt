-- ===== src/Planner/Context/Services/Ends.antt =====
-- The fuel of the look-ups of owners, keys, required and provided fields.
use fedeway.Prelude.{ℕ, String, Bool, true, false, Option, none, some, List, [], ◌∷◌, refl}
use fedeway.Outcome.{
  Outcome, done, or_panic, Ends, is_exhausted-bind, is_exhausted-or_panic, is_exhausted-or_fail,
  is_exhausted-if,
}
use fedeway.Ast.{
  GqlType, FieldDefinition, Definition, FieldNode, name_of, SelectionSet, empty, select,
}
use fedeway.Planner.Scope.{Scope, outermost, refine, possible_runtime_types}
use fedeway.Planner.Grouping.{Field}
use fedeway.Planner.FieldSets.{is_composite_type}
use fedeway.Planner.Context.{
  PlanningContext, TypeMetadata, FieldMetadata, get_field_def, field_def_of, collect_fields,
}
use fedeway.Planner.Context.Fuel.{SpreadsBelow, IsRanked, collect_fields-Returns}
use fedeway.Planner.Context.Services.{
  metadata_for_type, metadata_for_field, get_base_type, get_owning_service, keys_of, collect_keys,
  chosen_keys, keys_for_types, get_key_fields, more_fields, requires_of, provides_of,
  get_required_fields, get_provided_fields,
}

module _ (qpctx : PlanningContext) where
  pub field_def_of-Ends :
      (parent : Definition) (node : FieldNode) → Ends (field_def_of qpctx parent node)
  unfolding field_def_of
  field_def_of-Ends parent node = is_exhausted-or_fail _ (get_field_def qpctx parent (name_of node))

  base_type-Ends :
      (o : Option TypeMetadata)
      → Ends (elim o [ none ↦ Outcome.panicked | some meta ↦ done meta.graph_name ])
  base_type-Ends none = refl
  base_type-Ends (some meta) = refl

  owner-Ends :
      (parent : Definition) (o : Option FieldMetadata)
      → Ends (elim o [ none ↦ get_base_type qpctx parent | some meta ↦ done meta.graph_name ])
  owner-Ends parent none = base_type-Ends (metadata_for_type qpctx parent)
  owner-Ends parent (some meta) = refl

  pub get_owning_service-Ends :
      (parent : Definition) (def : FieldDefinition) → Ends (get_owning_service qpctx parent def)
  unfolding get_owning_service
  get_owning_service-Ends parent def = owner-Ends parent (metadata_for_field qpctx def)

  -- The selections of the metadata spread fragments of rank below the fuel only, if any.
  pub record HasKnownSpreads (rank : String → ℕ) (fuel : ℕ) : Type 0 where
    pub keys :
        (def : Definition) (service : String)
        → SpreadsBelow qpctx rank fuel (keys_of qpctx (metadata_for_type qpctx def) service)
    pub requires :
        (def : FieldDefinition)
        → SpreadsBelow qpctx rank fuel (requires_of qpctx fuel (metadata_for_field qpctx def))
    pub provides :
        (def : FieldDefinition)
        → SpreadsBelow qpctx rank fuel (provides_of qpctx fuel (metadata_for_field qpctx def))

  module _ (rank : String → ℕ) (ranked : IsRanked qpctx rank) (fuel : ℕ)
      (known : HasKnownSpreads rank fuel) where
    pub collect-Ends :
        (scope : Scope) (selections : SelectionSet)
        → SpreadsBelow qpctx rank fuel selections
        → Ends (collect_fields qpctx fuel scope selections)
    collect-Ends scope selections h =
        collect_fields-Returns qpctx rank ranked fuel scope selections h

    collect_keys-Ends :
        (scope : Scope) (selections : SelectionSet)
        → SpreadsBelow qpctx rank fuel selections
        → Ends (collect_keys qpctx fuel scope selections)
    unfolding collect_keys SpreadsBelow
    collect_keys-Ends scope empty h = refl
    collect_keys-Ends scope (select key keys) h =
        is_exhausted-bind (collect_fields qpctx fuel scope (select key empty)) _
          (collect-Ends scope (select key empty) (h.0, tt))
          (λ fields e.
            is_exhausted-bind (collect_keys qpctx fuel scope keys) _
              (collect_keys-Ends scope keys h.1) (λ others f. refl))

    chosen_keys-SpreadsBelow :
        (all_keys : Bool) (selections : SelectionSet)
        → SpreadsBelow qpctx rank fuel selections
        → SpreadsBelow qpctx rank fuel (chosen_keys qpctx fuel all_keys selections)
    unfolding SpreadsBelow
    chosen_keys-SpreadsBelow true selections h = h
    chosen_keys-SpreadsBelow false empty h = tt
    chosen_keys-SpreadsBelow false (select key keys) h = (h.0, tt)

    keys_for_types-Ends :
        (scope : Scope) (service : String) (fetch_all : Bool) (types : List Definition)
        → Ends (keys_for_types qpctx fuel scope service fetch_all types)
    unfolding keys_for_types
    keys_for_types-Ends scope service fetch_all [] = refl
    keys_for_types-Ends scope service fetch_all (typ ∷ types) =
        is_exhausted-bind
          (collect_keys qpctx fuel (refine qpctx.schema scope typ []) (
            chosen_keys qpctx fuel fetch_all (keys_of qpctx (metadata_for_type qpctx typ) service)))
          _
          (collect_keys-Ends (refine qpctx.schema scope typ []) _
            (chosen_keys-SpreadsBelow fetch_all _ (known.keys typ service)))
          (λ fields e.
            is_exhausted-bind (keys_for_types qpctx fuel scope service fetch_all types) _
              (keys_for_types-Ends scope service fetch_all types) (λ others f. refl))

    pub get_key_fields-Ends :
        (scope : Scope) (service : String) (fetch_all : Bool)
        → Ends (get_key_fields qpctx fuel scope service fetch_all)
    unfolding get_key_fields
    get_key_fields-Ends scope service fetch_all =
        is_exhausted-bind
          (keys_for_types qpctx fuel scope service fetch_all
            (possible_runtime_types qpctx.schema scope))
          _
          (keys_for_types-Ends scope service fetch_all (possible_runtime_types qpctx.schema scope))
          (λ fields e. refl)

    more_fields-Ends :
        (scope : Scope) (selections : SelectionSet) (fields : List Field)
        → SpreadsBelow qpctx rank fuel selections
        → Ends (more_fields qpctx fuel scope selections fields)
    more_fields-Ends scope selections fields h =
        is_exhausted-bind (collect_fields qpctx fuel scope selections) _
          (collect-Ends scope selections h) (λ others e. refl)

    pub get_required_fields-Ends :
        (scope : Scope) (def : FieldDefinition) (service : String)
        → Ends (get_required_fields qpctx fuel scope def service)
    unfolding get_required_fields
    get_required_fields-Ends scope def service =
        is_exhausted-bind (get_key_fields qpctx fuel scope service false) _
          (get_key_fields-Ends scope service false)
          (λ fields e. more_fields-Ends scope _ fields (known.requires def))

    pub get_provided_fields-Ends :
        (type_name : GqlType → String) (def : FieldDefinition) (service : String)
        → Ends (get_provided_fields qpctx fuel type_name def service)
    unfolding get_provided_fields
    get_provided_fields-Ends type_name def service =
        is_exhausted-bind (or_panic (qpctx.schema.types (type_name def.type))) _
          (is_exhausted-or_panic (qpctx.schema.types (type_name def.type)))
          (λ return_type e.
            is_exhausted-if (is_composite_type return_type) _ _
              (is_exhausted-bind (get_key_fields qpctx fuel (outermost return_type []) service true)
                _ (get_key_fields-Ends (outermost return_type []) service true)
                (λ fields f.
                  more_fields-Ends (outermost return_type []) _ fields (known.provides def)))
              refl)
