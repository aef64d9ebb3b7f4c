-- ===== src/Engine/Execute.antt =====
-- `executeNode` and `ExecuteQueryPlan` of internal/engine/execute_query_plan.go. The children of a
-- parallel node are run in the order of the list, which is one of the orders of Plan/Runs. What
-- `execute.Execute` answers is an argument.
pub mod Reach
pub mod Shapes
use fedeway.Prelude.{String, Bool, true, false, Option, none, some, List, [], ◌∷◌, ◌++◌}
use fedeway.Outcome.{Outcome, done, failed, panicked, exhausted, ◌>>=◌}
use fedeway.Ast.{Schema}
use fedeway.Json.{Json, null, obj, end}
use fedeway.Plan.{
  ResponsePath, FetchNode, PlanNode, sequence, parallel, fetch, flatten, Nodes, no_nodes, node,
}
use fedeway.Engine.Fetch.{GqlError, Response, Fetched, execute_fetch}
use fedeway.Engine.Flatten.{flatten_at, restore_at}

-- `ec.Errors` and the results
pub record Execution : Type 0 where
  pub errors : List GqlError
  pub results : Json

-- what is made of a fetch: a `gqlerror` is appended, after the errors of the service
abbrev pub after_fetch : Execution → List GqlError → Outcome Json → Outcome Execution
after_fetch e errors (done results) =
    done (record { errors = e.errors ++ errors; results = results })
after_fetch e errors (failed message) = done (record e {
  errors = (e.errors ++ errors) ++ record { message = message; path = []; extensions = [] } ∷ [];
})
after_fetch e errors panicked = panicked
after_fetch e errors exhausted = exhausted

-- the errors of `execute.Execute` come alone; else the response has those of the fetches
abbrev pub respond : List GqlError × Json → List GqlError → List GqlError × Json
respond ([], response) errors = (errors, response)
respond (problem ∷ problems, response) errors = (problem ∷ problems, null)

module _ (schema : Schema) (answer : String → String → List (String × Json) → Outcome Response)
    (has_service : String → Bool) (variables : List (String × Json)) where
  unfoldable mutual
    unfolding execute_fetch flatten_at restore_at

    pub execute_node : PlanNode → ResponsePath → Execution → Outcome Execution
    execute_node (sequence ns) path e = execute_nodes ns path e
    execute_node (parallel ns) path e = execute_nodes ns path e
    execute_node (flatten sub n) path e = do
      found ← flatten_at sub e.results
      after ← execute_node n (path ++ sub) (record e { results = found })
      done (record after { results = restore_at sub e.results after.results })
    execute_node (fetch f) path e =
        let fetched = execute_fetch schema answer has_service f path variables e.results in
        after_fetch e fetched.errors fetched.outcome

    pub execute_nodes : Nodes → ResponsePath → Execution → Outcome Execution
    execute_nodes no_nodes path e = done e
    execute_nodes (node n ns) path e = execute_node n path e >>= execute_nodes ns path

  -- the part of `ExecuteQueryPlan` before the response is shaped
  unfoldable pub run_plan : Option PlanNode → Outcome Execution
  unfolding execute_node
  run_plan none = done (record { errors = []; results = obj end })
  run_plan (some n) = execute_node n [] (record { errors = []; results = obj end })

  -- `ExecuteQueryPlan`; `shape_response` is `execute.Execute` on the merged results
  unfoldable pub execute_query_plan :
      (Json → List GqlError × Json) → Option PlanNode → Outcome (List GqlError × Json)
  unfolding run_plan
  execute_query_plan shape_response plan = do
    e ← run_plan plan
    done (respond (shape_response e.results) e.errors)
