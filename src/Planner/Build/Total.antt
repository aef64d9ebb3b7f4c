-- ===== src/Planner/Build/Total.antt =====
-- The fuel of `BuildQueryPlan`.
use fedeway.Prelude.{
  ℕ, zero, ◌<◌, ◌+◌, String, Bool, true, false, Option, some, List, [], All-map, refl, arith,
}
use fedeway.Outcome
use fedeway.Outcome.{
  Outcome, done, failed, or_panic, or_fail, Ends, is_exhausted-bind, is_exhausted-or_panic,
  is_exhausted-or_fail,
}
use fedeway.Ast.{
  Operation, query, mutation, subscription, other_operation, GqlType, Value, Definition, Schema,
  SelectionSet, FragmentDefinition,
}
use fedeway.Plan.{ResponsePath, PlanNode, Nodes, no_nodes, node}
use fedeway.Plan.Wrap.{flat_wrap_sequence, flat_wrap_parallel}
use fedeway.Planner.Scope.{Scope, outermost}
use fedeway.Planner.Grouping.{Field}
use fedeway.Planner.Context.{PlanningContext, collect_fields}
use fedeway.Planner.Context.Fuel.{IsRanked}
use fedeway.Planner.Context.Depth.{Fits, HasDepths, Fits-SpreadsBelow, collect_fields-AllFit}
use fedeway.Planner.Context.Services.Ends.{HasKnownSpreads, collect-Ends}
use fedeway.Planner.Context.Services.Variables.{VariableDefinition}
use fedeway.Planner.Splitting.Roots.Levels.{split_groups}
use fedeway.Planner.Splitting.Safe.{IsBelow}
use fedeway.Planner.Splitting.Safe.Parts.{FitsBelow, fitting}
use fedeway.Planner.Splitting.Safe.Roots.{split_groups-Safe}
use fedeway.Planner.Build.{
  QueryDocument, get_operation_root_type, execution_node_for_group, nodes_for, empty_store,
  is_mutation, wrap_roots, plan_for_root, build_query_plan,
}
use fedeway.Planner.Build.Returns.{node_for-Ends, nodes_for-Ends}

root_type-Ends : (schema : Schema) (o : Operation) → Ends (get_operation_root_type schema o)
unfolding get_operation_root_type
root_type-Ends schema query = refl
root_type-Ends schema mutation = refl
root_type-Ends schema subscription = refl
root_type-Ends schema (other_operation name) = refl

unless_subscription-Ends :
    (o : Operation) (planned : Outcome (Option PlanNode))
    → Ends planned
    → Ends (elim o as (λ o. Outcome (Option PlanNode)) [
      | subscription ↦ failed "subscription is not supported"
      | _ ↦ planned
    ])
unless_subscription-Ends query planned h = h
unless_subscription-Ends mutation planned h = h
unless_subscription-Ends subscription planned h = refl
unless_subscription-Ends (other_operation name) planned h = h

module _ (qpctx : PlanningContext) (type_name : GqlType → String)
    (path_string : ResponsePath → String) (key : Scope → Option String)
    (marshal : SelectionSet → Outcome String) (print : QueryDocument → String)
    (walk : SelectionSet → List FragmentDefinition → List Value)
    (definitions : List VariableDefinition) where
  wrap_roots-Ends :
      (serially : Bool) (nodes : Nodes)
      → Ends
          (wrap_roots qpctx type_name path_string key marshal print walk definitions serially nodes)
  wrap_roots-Ends serially no_nodes = refl
  wrap_roots-Ends true (node n ns) =
      is_exhausted-bind (or_fail "nodes is 0 length" (flat_wrap_sequence (node n ns))) _
        (is_exhausted-or_fail "nodes is 0 length" (flat_wrap_sequence (node n ns))) (λ w e. refl)
  wrap_roots-Ends false (node n ns) =
      is_exhausted-bind (or_fail "nodes is 0 length" (flat_wrap_parallel (node n ns))) _
        (is_exhausted-or_fail "nodes is 0 length" (flat_wrap_parallel (node n ns))) (λ w e. refl)

  module _ (rank depth : String → ℕ) (ranked : IsRanked qpctx rank) (fuel : ℕ)
      (depths : HasDepths qpctx rank depth fuel) (known : HasKnownSpreads qpctx rank fuel)
      (marshals : (selections : SelectionSet) → Ends (marshal selections)) (d : ℕ)
      (room : d + d < fuel) where
    -- the nodes of the groups of a split
    split_nodes-Ends :
        (serially : Bool) (root_type : Definition) (fields : List Field)
        → FitsBelow qpctx rank depth ranked fuel depths known d fields
        → Ends (
            Outcome.◌>>=◌
              (split_groups qpctx type_name path_string key marshal fuel fuel fields serially
                (empty_store qpctx type_name path_string key marshal print walk definitions))
              (λ planned.
                Outcome.◌>>=◌
                  (nodes_for qpctx type_name path_string key marshal print walk definitions
                    (execution_node_for_group qpctx type_name path_string key marshal print walk
                      definitions fuel planned.1.groups
                      (some root_type))
                    planned.0)
                  (wrap_roots qpctx type_name path_string key marshal print walk definitions
                    serially)))
    split_nodes-Ends serially root_type fields fit =
        let start : IsBelow fuel []
            (empty_store qpctx type_name path_string key marshal print walk definitions) =
          ((tt, tt), tt, (tt, tt)) in
        let (ends, post) =
          split_groups-Safe fuel (omega (arith, room)) qpctx rank depth ranked fuel depths known
            (omega arith) type_name path_string key marshal marshals fuel d (omega (arith, room))
            room fields fit serially
            (empty_store qpctx type_name path_string key marshal print walk definitions) start in
        is_exhausted-bind _ _ ends (λ planned e.
          let (ms, grows, below, refs) = post planned.1 planned.0 e in
          is_exhausted-bind _ _
            (nodes_for-Ends qpctx type_name path_string key marshal print walk definitions _
              planned.0
              (All-map planned.0
                (λ ref at.
                  node_for-Ends qpctx type_name path_string key marshal print walk definitions ms
                    planned.1 below.0 fuel below.1 fuel zero (some root_type) ref at (omega arith))
                refs))
            (λ nodes h. wrap_roots-Ends serially nodes))

    plan_for_root-Ends :
        (root_type : Definition) (selections : SelectionSet)
        → Fits qpctx rank depth fuel d selections
        → Ends (
            plan_for_root qpctx type_name path_string key marshal print walk definitions fuel
              root_type selections)
    unfolding plan_for_root
    plan_for_root-Ends root_type selections fits =
        let collected = collect_fields qpctx fuel (outermost root_type []) selections in
        is_exhausted-bind collected _
          (collect-Ends qpctx rank ranked fuel known (outermost root_type []) selections
            (Fits-SpreadsBelow qpctx rank depth fuel d selections fits))
          (λ fields e.
            split_nodes-Ends
              (is_mutation qpctx type_name path_string key marshal print walk definitions
                qpctx.operation)
              root_type fields
              (fitting qpctx rank depth ranked fuel depths known d collected fields
                (collect_fields-AllFit qpctx rank depth fuel depths fuel d (outermost root_type [])
                  selections fits)
                e))

    -- `BuildQueryPlan` ends, with a plan, an error or a panic, if every fragment has a rank above
    -- those of the fragments that it spreads, the selections of the operation nest in at most `d`
    -- fields, with the fragments they spread, the metadata spread known fragments only, `marshal`
    -- ends, and the fuel is more than `d + d` and than the rank of every fragment that is spread.
    pub build_query_plan-Ends :
        (selections : SelectionSet)
        → Fits qpctx rank depth fuel d selections
        → Ends (
            build_query_plan qpctx type_name path_string key marshal print walk definitions fuel
              selections)
    unfolding build_query_plan
    build_query_plan-Ends selections fits = unless_subscription-Ends qpctx.operation _ (
        is_exhausted-bind (get_operation_root_type qpctx.schema qpctx.operation) _
          (root_type-Ends qpctx.schema qpctx.operation)
          (λ root_type e.
            is_exhausted-bind (or_panic root_type) _ (is_exhausted-or_panic root_type)
              (λ defined h. plan_for_root-Ends defined selections fits)))
