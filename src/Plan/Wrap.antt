-- ===== src/Plan/Wrap.antt =====
-- `flatWrapSequence` and `flatWrapParallel` of internal/planner/build_query_plan.go.
use fedeway.Prelude.{Option, none, some}
use fedeway.Plan.{PlanNode, sequence, parallel, Nodes, no_nodes, node, ◌<+>◌}

-- the two loops: the nodes of a node of the same kind are taken out of it
unfoldable pub flat_sequence : Nodes → Nodes
flat_sequence no_nodes = no_nodes
flat_sequence (node (sequence ms) ns) = ms <+> flat_sequence ns
flat_sequence (node n ns) = node n (flat_sequence ns)

unfoldable pub flat_parallel : Nodes → Nodes
flat_parallel no_nodes = no_nodes
flat_parallel (node (parallel ms) ns) = ms <+> flat_parallel ns
flat_parallel (node n ns) = node n (flat_parallel ns)

-- `none` is the error "nodes is 0 length".
unfoldable pub flat_wrap_sequence : Nodes → Option PlanNode
unfolding flat_sequence
flat_wrap_sequence no_nodes = none
flat_wrap_sequence (node n no_nodes) = some n
flat_wrap_sequence (node n (node m ns)) = some (sequence (flat_sequence (node n (node m ns))))

unfoldable pub flat_wrap_parallel : Nodes → Option PlanNode
unfolding flat_parallel
flat_wrap_parallel no_nodes = none
flat_wrap_parallel (node n no_nodes) = some n
flat_wrap_parallel (node n (node m ns)) = some (parallel (flat_parallel (node n (node m ns))))
