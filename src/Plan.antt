-- ===== src/Plan.antt =====
-- internal/plan/query_plan.go: the plan that the planner builds and the engine runs.
pub mod Wrap
pub mod Runs
pub mod Trim
use fedeway.Prelude.{String, List, Bool, true, false}

-- an `ast.Path` of response names, "@" for a list
abbrev pub ResponsePath : Type 0
ResponsePath = List String

-- `QueryPlanSelectionNode` and its two implementations
mutual
  pub data PlanSelection : Type 0 where
    plan_field : (alias name : String) → PlanSelections → PlanSelection
    plan_fragment : (type_condition : String) → PlanSelections → PlanSelection

  pub data PlanSelections : Type 0 where
    none_selected : PlanSelections
    selected : PlanSelection → PlanSelections → PlanSelections

-- `FetchNode`
pub record FetchNode : Type 0 where
  pub service_name : String
  pub variable_usages : List String
  pub requires : PlanSelections
  pub operation : String

-- `PlanNode` and its four implementations
mutual
  pub data PlanNode : Type 0 where
    sequence parallel : Nodes → PlanNode
    fetch : FetchNode → PlanNode
    flatten : ResponsePath → PlanNode → PlanNode

  pub data Nodes : Type 0 where
    no_nodes : Nodes
    node : PlanNode → Nodes → Nodes

infixr 65 ◌<+>◌
-- `append(xs, ys...)`
abbrev pub ◌<+>◌ : Nodes → Nodes → Nodes
no_nodes <+> ys = ys
(node x xs) <+> ys = node x (xs <+> ys)
