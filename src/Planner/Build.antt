-- ===== src/Planner/Build.antt =====
-- `BuildQueryPlan` of internal/planner/build_query_plan.go, and the plan of one fetch group.
-- Parameters beside those of `Splitting`: gqlparser's formatter, as the text of a document, and
-- what `validator.Walk` shows to an observer of values.
pub mod Fetches
pub mod Returns
pub mod Total
use fedeway.Prelude.{
  ℕ, zero, suc, String, Bool, true, false, Option, none, some, List, [], ◌∷◌, ◌==◌, if◌then◌else◌,
  concat,
}
use fedeway.Outcome.{Outcome, done, failed, exhausted, or_panic, or_fail, ◌>>=◌}
use fedeway.Ast.{
  Operation, query, mutation, subscription, other_operation, GqlType, leaf, wrapper, Value, value,
  variable, childless, Definition, Schema, field, field_node, SelectionSet, empty, select, is_empty,
  FragmentDefinition,
}
use fedeway.Plan.{ResponsePath, PlanNode, fetch, flatten, Nodes, no_nodes, node}
use fedeway.Plan.Trim.{trim_selection_nodes}
use fedeway.Plan.Wrap.{flat_wrap_sequence, flat_wrap_parallel}
use fedeway.Planner.Scope.{Scope, outermost}
use fedeway.Planner.FieldSets.{selection_set_from_field_set}
use fedeway.Planner.Context.{PlanningContext, collect_fields}
use fedeway.Planner.Context.Services.Variables.{
  VariableDefinition, get_variable_usages, index_by_name,
}
use fedeway.Planner.Groups.{FetchGroup, Store, at_index, dependent_groups}
use fedeway.Planner.Splitting.Roots.{split_root_fields, split_root_fields_serially}

-- the part of `ast.OperationDefinition` that planning reads
pub record OperationDefinition : Type 0 where
  pub operation : Operation
  pub name : String
  pub variable_definitions : List VariableDefinition
  pub selection_set : SelectionSet

-- `ast.QueryDocument`
pub record QueryDocument : Type 0 where
  pub operations : List OperationDefinition
  pub fragments : List FragmentDefinition

-- `OperationContext`, whose schema and metadata are in the planning context
pub record OperationContext : Type 0 where
  pub query_document : QueryDocument
  pub operation_name : String

-- `BuildOperationContext`, where gqlparser's `ForName` finds an operation
unfoldable pub build_operation_context :
    (for_name : List OperationDefinition → String → Option OperationDefinition)
    → QueryDocument
    → String
    → Outcome OperationContext
build_operation_context for_name document name =
    let context : OperationContext = record { query_document = document; operation_name = name } in
    if name == ""
    then the_only document.operations context
    else elim (for_name document.operations name) [
      | none ↦ failed (concat ("Unknown operation named \"" ∷ name ∷ "\"" ∷ []))
      | some o ↦ done context
    ]
  where
    the_only : List OperationDefinition → OperationContext → Outcome OperationContext
    the_only (o ∷ []) context = done context
    the_only _ context = failed "must provide operation name if query contains multiple operations"

-- `getOperationRootType`; a type that the schema does not have is nil
unfoldable pub get_operation_root_type : Schema → Operation → Outcome (Option Definition)
get_operation_root_type schema query = done schema.query
get_operation_root_type schema mutation = done schema.mutation
get_operation_root_type schema subscription = done schema.subscription
get_operation_root_type schema (other_operation name) =
    failed (concat ("unexpected operation: " ∷ name ∷ []))

-- `operationForRootFetch`; an empty operation is a query
unfoldable pub operation_for_root_fetch :
    SelectionSet → List VariableDefinition → List FragmentDefinition → Operation → QueryDocument
operation_for_root_fetch selections usages fragments operation = record {
  operations =
      record {
        operation = elim operation [
          | other_operation s ↦ (if s == "" then query else other_operation s)
          | o ↦ o
        ];
        name = "";
        variable_definitions = usages;
        selection_set = selections;
      }
      ∷ [];
  fragments = fragments;
}

-- `operationForEntitiesFetch`
unfoldable pub operation_for_entities_fetch :
    SelectionSet → List VariableDefinition → List FragmentDefinition → QueryDocument
operation_for_entities_fetch selections usages fragments = record {
  operations =
      record {
        operation = query;
        name = "";
        variable_definitions =
            record { variable = "representations"; type = wrapper "" (leaf "_Any" true) true }
            ∷ usages;
        selection_set =
            select
              (field (
                field_node "" "_entities"
                  (record {
                    name = "representations";
                    value = value variable "representations" childless;
                  }
                    ∷ [])
                  [] selections))
              empty;
      }
      ∷ [];
  fragments = fragments;
}

module _ (qpctx : PlanningContext) (type_name : GqlType → String)
    (path_string : ResponsePath → String) (key : Scope → Option String)
    (marshal : SelectionSet → Outcome String) (print : QueryDocument → String)
    (walk : SelectionSet → List FragmentDefinition → List Value)
    (definitions : List VariableDefinition) where
  abbrev variables_of : List VariableDefinition → List String
  variables_of [] = []
  variables_of (d ∷ ds) = d.variable ∷ variables_of ds

  -- the document that a group sends
  abbrev document_for :
      FetchGroup → SelectionSet → SelectionSet → List VariableDefinition → QueryDocument
  document_for group selections requires usages =
      if is_empty requires
      then operation_for_root_fetch selections usages group.internal_fragments qpctx.operation
      else operation_for_entities_fetch selections usages group.internal_fragments

  abbrev is_root : ResponsePath → Bool
  is_root [] = true
  is_root (name ∷ path) = false

  -- the fetch of `executionNodeForGroup`, without the dependent groups
  unfoldable pub fetch_for_group : FetchGroup → Option Definition → Outcome PlanNode
  unfolding selection_set_from_field_set get_variable_usages trim_selection_nodes
      operation_for_root_fetch operation_for_entities_fetch
  fetch_for_group group parent = do
    selections ← selection_set_from_field_set qpctx.schema type_name key group.fields parent
    requires ← selection_set_from_field_set qpctx.schema type_name key group.required_fields none
    usages ←
        get_variable_usages (index_by_name [] definitions)
          (walk selections group.internal_fragments)
    trimmed ← or_panic (trim_selection_nodes requires)
    let fetch_node = fetch (record {
      service_name = group.service_name;
      variable_usages = variables_of usages;
      requires = trimmed;
      operation = print (document_for group selections requires usages);
    })
    done (if is_root group.merge_at then fetch_node else flatten group.merge_at fetch_node)

  -- the node of a group and, after it, those of its dependent groups
  abbrev pub with_dependent_nodes : PlanNode → Nodes → Outcome PlanNode
  with_dependent_nodes first no_nodes = done first
  with_dependent_nodes first (node n ns) = do
    dependent ← or_fail "nodes is 0 length" (flat_wrap_parallel (node n ns))
    or_fail "nodes is 0 length" (flat_wrap_sequence (node first (node dependent no_nodes)))

  abbrev pub nodes_for : (ℕ → Outcome PlanNode) → List ℕ → Outcome Nodes
  nodes_for node_for [] = done no_nodes
  nodes_for node_for (ref ∷ refs) = do
    n ← node_for ref
    rest ← nodes_for node_for refs
    done (node n rest)

  -- `executionNodeForGroup`; the fuel bounds how deep the dependent groups go
  unfoldable pub execution_node_for_group :
      ℕ → List FetchGroup → Option Definition → ℕ → Outcome PlanNode
  unfolding fetch_for_group flat_wrap_parallel flat_wrap_sequence dependent_groups
  execution_node_for_group zero groups parent ref = exhausted
  execution_node_for_group (suc fuel) groups parent ref = do
    group ← or_panic (at_index ref groups)
    first ← fetch_for_group group parent
    dependent ← nodes_for (execution_node_for_group fuel groups none) (dependent_groups group)
    with_dependent_nodes first dependent

  abbrev pub empty_store : Store
  empty_store = record {
    groups = [];
    fragments = [];
    root_groups = [];
    root_groups_by_service = [];
  }

  abbrev pub is_mutation : Operation → Bool
  is_mutation mutation = true
  is_mutation _ = false

  -- the plan of the root's groups: no node at all for a query of introspection only
  abbrev pub wrap_roots : Bool → Nodes → Outcome (Option PlanNode)
  wrap_roots serially no_nodes = done none
  wrap_roots serially (node n ns) = do
    wrapped ←
        or_fail "nodes is 0 length"
          (if serially then flat_wrap_sequence (node n ns) else flat_wrap_parallel (node n ns))
    done (some wrapped)

  -- `BuildQueryPlan` for an operation that is no subscription, from its root type on
  unfoldable pub plan_for_root : ℕ → Definition → SelectionSet → Outcome (Option PlanNode)
  unfolding collect_fields split_root_fields split_root_fields_serially execution_node_for_group
  plan_for_root fuel root_type selections = do
    fields ← collect_fields qpctx fuel (outermost root_type []) selections
    let split =
        if is_mutation qpctx.operation
        then split_root_fields_serially qpctx type_name path_string key marshal fuel fuel fields
        else split_root_fields qpctx type_name path_string key marshal fuel fuel fields
    planned ← split empty_store
    nodes ← nodes_for (execution_node_for_group fuel planned.1.groups (some root_type)) planned.0
    wrap_roots (is_mutation qpctx.operation) nodes

  -- `BuildQueryPlan`; the scope of a root type that the schema does not have panics
  unfoldable pub build_query_plan : ℕ → SelectionSet → Outcome (Option PlanNode)
  unfolding get_operation_root_type plan_for_root
  build_query_plan fuel selections =
      let planned = (do
        root_type ← get_operation_root_type qpctx.schema qpctx.operation
        defined ← or_panic root_type
        plan_for_root fuel defined selections) in
      elim qpctx.operation as (λ o. Outcome (Option PlanNode)) [
        | subscription ↦ failed "subscription is not supported"
        | _ ↦ planned
      ]
