-- ===== src/Examples/Executing.antt =====
-- A flatten node at the users of a result: one entity is found, asked for and put back.
use fedeway.Prelude.{String, Bool, true, some, List, [], ◌∷◌, ◌++◌, ◌≡◌, refl}
use fedeway.Outcome.{Outcome, done}
use fedeway.Json.{Json, num, arr, obj, end, member}
use fedeway.Plan.{ResponsePath, PlanNode, fetch, flatten}
use fedeway.Engine.Fetch.{Response}
use fedeway.Engine.Flatten.{flatten_at}
use fedeway.Engine.Execute.{Execution, execute_node, run_plan}
use fedeway.Engine.Execute.Reach.{value_at, spares, execute_node-spares}
use fedeway.Engine.Execute.Shapes.{flatten_node_lem}
use fedeway.Examples.Fetching.{no_schema, entities, merged, required, received}

abbrev answer : String → String → List (String × Json) → Outcome Response
answer service operation variables =
    done (record { errors = []; decoded = done (some (member "_entities" (arr received) end)) })

abbrev known : String → Bool
known service = true

abbrev names : PlanNode
names = fetch (record {
  service_name = "names";
  variable_usages = [];
  requires = required;
  operation = "query($representations:[_Any!]!){...}";
})

abbrev users_path : ResponsePath
users_path = "users" ∷ "@" ∷ []

abbrev before : Execution
before = record {
  errors = [];
  results = obj (member "users" (arr entities) (member "total" (num "2") end));
}

abbrev later : Execution
later = record {
  errors = [];
  results = obj (member "users" (arr merged) (member "total" (num "2") end));
}

execute_test :
    execute_node no_schema answer known [] (flatten users_path names) [] before ≡ done later
unfolding execute_node
execute_test = refl

unreachable_test :
    execute_node no_schema answer known [] (flatten ("total" ∷ "@" ∷ []) names) [] before
    ≡ Outcome.panicked
unfolding execute_node
unreachable_test = refl

run_plan_test :
    run_plan no_schema answer known [] (some (flatten ("users" ∷ []) names))
    ≡ done (record { errors = []; results = obj end })
unfolding run_plan
run_plan_test = refl

execute_node-spares_example :
    value_at ("total" ∷ []) later.results ≡ value_at ("total" ∷ []) before.results
unfolding execute_node spares
execute_node-spares_example =
    execute_node-spares no_schema answer known [] (flatten users_path names) [] before later
      ("total" ∷ []) refl refl

flatten_node_lem_example :
    (found : Json) × (inner : Execution) × (flatten_at users_path before.results ≡ done found)
    × (execute_node no_schema answer known [] names
          ([] ++ users_path)
          (record before { results = found })
        ≡ done inner)
    × (flatten_at users_path later.results ≡ done inner.results)
    × (later.errors ≡ inner.errors)
unfolding execute_node
flatten_node_lem_example =
    flatten_node_lem no_schema answer known [] users_path [] names before later refl
