-- ===== src/Examples/Plans.antt =====
-- Plans of two fetches.
use fedeway.Prelude.{[], ◌↔◌, refl}
use fedeway.Plan.{none_selected, PlanNode, sequence, parallel, fetch, Nodes, no_nodes, node}
use fedeway.Plan.Wrap.{flat_wrap_sequence, flat_wrap_parallel}
use fedeway.Plan.Runs.{Runs, RunsInOrder, RunsTogether}
use fedeway.Plan.Runs.Flat.{flat_wrap_sequence-Runs, flat_wrap_parallel-Runs}

abbrev books_fetch : PlanNode
books_fetch = fetch (record {
  service_name = "books";
  variable_usages = [];
  requires = none_selected;
  operation = "{books{isbn}}";
})

abbrev nested : Nodes
nested = node (sequence (node books_fetch (node books_fetch no_nodes))) (node books_fetch no_nodes)

abbrev nested_parallel : Nodes
nested_parallel =
    node (parallel (node books_fetch (node books_fetch no_nodes))) (node books_fetch no_nodes)

abbrev three : Nodes
three = node books_fetch (node books_fetch (node books_fetch no_nodes))

flat_wrap_sequence-Runs_example : Runs [] (sequence three) [] ↔ RunsInOrder [] nested []
unfolding flat_wrap_sequence
flat_wrap_sequence-Runs_example = flat_wrap_sequence-Runs nested (sequence three) [] [] refl

flat_wrap_parallel-Runs_example : Runs [] (parallel three) [] ↔ RunsTogether [] nested_parallel []
unfolding flat_wrap_parallel
flat_wrap_parallel-Runs_example =
    flat_wrap_parallel-Runs nested_parallel (parallel three) [] [] refl
