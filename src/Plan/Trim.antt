-- ===== src/Plan/Trim.antt =====
-- `TrimSelectionNodes` of query_plan.go: what a plan keeps of a required selection set.
use fedeway.Prelude.{Option, none, some, ◌>>=◌}
use fedeway.Ast.{
  Selection, field, inline_fragment, fragment_spread, FieldNode, field_node, SelectionSet, empty,
  select,
}
use fedeway.Plan.{PlanSelection, plan_field, plan_fragment, PlanSelections, none_selected, selected}

-- `none` is the panic at a fragment spread.
unfoldable mutual
  pub trim_selection_nodes : SelectionSet → Option PlanSelections
  trim_selection_nodes empty = some none_selected
  trim_selection_nodes (select s rest) =
      trim_selection s >>= λ t. trim_selection_nodes rest >>= λ ts. some (selected t ts)

  pub trim_selection : Selection → Option PlanSelection
  trim_selection (field f) = trim_field f
  trim_selection (inline_fragment cond ds sels) =
      trim_selection_nodes sels >>= λ ts. some (plan_fragment cond ts)
  trim_selection (fragment_spread name ds) = none

  pub trim_field : FieldNode → Option PlanSelection
  trim_field (field_node alias name args ds sels) =
      trim_selection_nodes sels >>= λ ts. some (plan_field "" name ts)
