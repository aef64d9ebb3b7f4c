-- ===== src/Planner/Build/Fetches.antt =====
-- The fetch of one group in `executionNodeForGroup`, which has no fuel of its own.
use fedeway.Prelude.{String, Option, none, some, List, [], ◌∷◌, refl, lookup}
use fedeway.Outcome.{
  Ends, Outcome, or_panic, is_exhausted-bind, is_exhausted-or_panic, is_exhausted-if,
}
use fedeway.Ast.{GqlType, Value, Definition, SelectionSet, FragmentDefinition}
use fedeway.Plan.{ResponsePath}
use fedeway.Plan.Trim.{trim_selection_nodes}
use fedeway.Planner.Scope.{Scope}
use fedeway.Planner.FieldSets.{selection_set_from_field_set}
use fedeway.Planner.Context.{PlanningContext}
use fedeway.Planner.Context.Services.Variables.{
  VariableDefinition, variable_named, is_used, observe, observe_all, get_variable_usages,
  index_by_name,
}
use fedeway.Planner.Groups.{FetchGroup}
use fedeway.Planner.Build.{QueryDocument, fetch_for_group}
use fedeway.Planner.FieldSets.Ends.{selection_set_from_field_set-Ends}

module _ (m : List (String × VariableDefinition)) where
  observe-Ends :
      (usages : List VariableDefinition) (name : Option String) → Ends (observe m usages name)
  unfolding observe
  observe-Ends usages none = refl
  observe-Ends usages (some name) = is_exhausted-if (is_used usages name) _ _ refl (
      is_exhausted-bind (or_panic (lookup name m)) _ (is_exhausted-or_panic (lookup name m))
        (λ def e. refl))

  observe_all-Ends :
      (usages : List VariableDefinition) (values : List Value) → Ends (observe_all m usages values)
  unfolding observe_all
  observe_all-Ends usages [] = refl
  observe_all-Ends usages (v ∷ values) =
      is_exhausted-bind (observe m usages (variable_named v)) _
        (observe-Ends usages (variable_named v)) (λ next e. observe_all-Ends next values)

  get_variable_usages-Ends : (values : List Value) → Ends (get_variable_usages m values)
  unfolding get_variable_usages
  get_variable_usages-Ends values = observe_all-Ends [] values

module _ (qpctx : PlanningContext) (type_name : GqlType → String)
    (path_string : ResponsePath → String) (key : Scope → Option String)
    (marshal : SelectionSet → Outcome String) (print : QueryDocument → String)
    (walk : SelectionSet → List FragmentDefinition → List Value)
    (definitions : List VariableDefinition) where
  pub fetch_for_group-Ends :
      (group : FetchGroup) (parent : Option Definition)
      → Ends (
          fetch_for_group qpctx type_name path_string key marshal print walk definitions group
            parent)
  unfolding fetch_for_group
  fetch_for_group-Ends group parent =
      let selected = selection_set_from_field_set-Ends key qpctx.schema type_name in
      is_exhausted-bind
        (selection_set_from_field_set qpctx.schema type_name key group.fields parent) _
        (selected group.fields parent)
        (λ selections e.
          is_exhausted-bind
            (selection_set_from_field_set qpctx.schema type_name key group.required_fields none) _
            (selected group.required_fields none)
            (λ requires h.
              is_exhausted-bind
                (get_variable_usages (index_by_name [] definitions)
                  (walk selections group.internal_fragments))
                _
                (get_variable_usages-Ends (index_by_name [] definitions)
                  (walk selections group.internal_fragments))
                (λ usages k.
                  is_exhausted-bind (or_panic (trim_selection_nodes requires)) _
                    (is_exhausted-or_panic (trim_selection_nodes requires)) (λ trimmed j. refl))))
