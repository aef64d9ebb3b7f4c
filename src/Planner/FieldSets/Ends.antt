-- ===== src/Planner/FieldSets/Ends.antt =====
-- `selectionSetFromFieldSet` and its parts, which have no fuel of their own.
use fedeway.Prelude.{String, Option, List, [], ◌∷◌, refl}
use fedeway.Outcome.{Ends, or_panic, is_exhausted-bind, is_exhausted-or_panic, is_exhausted-if}
use fedeway.Ast.{GqlType, Definition, Schema}
use fedeway.Planner.Scope.{Scope}
use fedeway.Planner.Grouping.{Field, group_by_response_name}
use fedeway.Planner.FieldSets.{
  is_composite_type, merge_selection_sets, node_list, sub_selections, with_keys, group_by_scope,
  combine_fields, combine_all, select_scopes, selection_set_from_field_set,
}
use fedeway.Planner.FieldSets.Merging.{merge_field_node_selection_sets-done}

merge_selection_sets-Ends : (fields : List Field) → Ends (merge_selection_sets (node_list fields))
unfolding merge_selection_sets
merge_selection_sets-Ends fields =
    let (merged, e) = merge_field_node_selection_sets-done (sub_selections (node_list fields)) in
    rw e refl

module _ (key : Scope → Option String) where
  with_keys-Ends : (fields : List Field) → Ends (with_keys key fields)
  with_keys-Ends [] = refl
  with_keys-Ends (f ∷ fields) =
      is_exhausted-bind (or_panic (key f.scope)) _ (is_exhausted-or_panic (key f.scope)) (λ name e.
        is_exhausted-bind (with_keys key fields) _ (with_keys-Ends fields) (λ rest h. refl))

  pub group_by_scope-Ends : (fields : List Field) → Ends (group_by_scope key fields)
  unfolding group_by_scope
  group_by_scope-Ends fields =
      is_exhausted-bind (with_keys key fields) _ (with_keys-Ends fields) (λ named e. refl)

  module _ (schema : Schema) (type_name : GqlType → String) where
    combine_fields-Ends : (fields : List Field) → Ends (combine_fields schema type_name key fields)
    unfolding combine_fields
    combine_fields-Ends [] = refl
    combine_fields-Ends (first ∷ others) =
        let named = schema.types (type_name first.field_def.type) in
        is_exhausted-bind (or_panic named) _ (is_exhausted-or_panic named) (λ return_type e.
          is_exhausted-if (is_composite_type return_type) _ _
            (is_exhausted-bind (merge_selection_sets (node_list (first ∷ others))) _
              (merge_selection_sets-Ends (first ∷ others)) (λ selections h. refl))
            refl)

    combine_all-Ends : (groups : List (List Field)) → Ends (combine_all schema type_name key groups)
    unfolding combine_all
    combine_all-Ends [] = refl
    combine_all-Ends (g ∷ gs) =
        is_exhausted-bind (combine_fields schema type_name key g) _ (combine_fields-Ends g)
          (λ combined e.
            is_exhausted-bind (combine_all schema type_name key gs) _ (combine_all-Ends gs)
              (λ rest h. refl))

    select_scopes-Ends :
        (parent : Option Definition) (groups : List (List Field))
        → Ends (select_scopes schema type_name key parent groups)
    unfolding select_scopes
    select_scopes-Ends parent [] = refl
    select_scopes-Ends parent ([] ∷ gs) = refl
    select_scopes-Ends parent ((f ∷ fs) ∷ gs) =
        is_exhausted-bind (combine_all schema type_name key (group_by_response_name (f ∷ fs))) _
          (combine_all-Ends (group_by_response_name (f ∷ fs)))
          (λ selections e.
            is_exhausted-bind (select_scopes schema type_name key parent gs) _
              (select_scopes-Ends parent gs) (λ rest h. refl))

    pub selection_set_from_field_set-Ends :
        (fields : List Field) (parent : Option Definition)
        → Ends (selection_set_from_field_set schema type_name key fields parent)
    unfolding selection_set_from_field_set
    selection_set_from_field_set-Ends fields parent =
        is_exhausted-bind (group_by_scope key fields) _ (group_by_scope-Ends fields)
          (λ groups e. select_scopes-Ends parent groups)
