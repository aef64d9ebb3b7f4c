-- ===== src/Plan/Runs.antt =====
-- How `executeNode` of internal/engine/execute_query_plan.go walks a plan: the orders in which it
-- can make its fetches. A fetch holds the lock on the results from start to end, and so does the
-- descent to a path, so a run is a list of such events. The children of a parallel node run in
-- goroutines and their events are interleaved.
pub mod Shuffle
pub mod Flat
use fedeway.Prelude.{List, [], ◌∷◌, ◌++◌, ◌≡◌}
use fedeway.Plan.{
  ResponsePath, FetchNode, PlanNode, sequence, parallel, fetch, flatten, Nodes, no_nodes, node,
}
use Shuffle.{Interleaves}

-- what a goroutine does under the lock
pub data Event : Type 0 where
  descended : (from path : ResponsePath) → Event
  fetched : (path : ResponsePath) → FetchNode → Event

mutual
  -- `Runs path n trace`: executing `n` at `path` can make the events of `trace`, in this order.
  pub data Runs : ResponsePath → PlanNode → List Event → Type 0 where
    run_fetch :
        {path : ResponsePath} {f : FetchNode} {t : List Event}
        → t ≡ fetched path f ∷ []
        → Runs path (fetch f) t
    run_flatten :
        {path sub : ResponsePath} {n : PlanNode} {t u : List Event}
        → Runs (path ++ sub) n t
        → u ≡ descended path sub ∷ t
        → Runs path (flatten sub n) u
    run_sequence :
        {path : ResponsePath} {ns : Nodes} {t : List Event}
        → RunsInOrder path ns t
        → Runs path (sequence ns) t
    run_parallel :
        {path : ResponsePath} {ns : Nodes} {t : List Event}
        → RunsTogether path ns t
        → Runs path (parallel ns) t

  -- the loop over the children of a sequence node
  pub data RunsInOrder : ResponsePath → Nodes → List Event → Type 0 where
    in_order_done : {path : ResponsePath} {t : List Event} → t ≡ [] → RunsInOrder path no_nodes t
    in_order :
        {path : ResponsePath} {n : PlanNode} {ns : Nodes} {t u v : List Event}
        → Runs path n t
        → RunsInOrder path ns u
        → v ≡ t ++ u
        → RunsInOrder path (node n ns) v

  -- the goroutines of a parallel node
  pub data RunsTogether : ResponsePath → Nodes → List Event → Type 0 where
    together_done : {path : ResponsePath} {t : List Event} → t ≡ [] → RunsTogether path no_nodes t
    together :
        {path : ResponsePath} {n : PlanNode} {ns : Nodes} {t u v : List Event}
        → Runs path n t
        → RunsTogether path ns u
        → Interleaves t u v
        → RunsTogether path (node n ns) v
