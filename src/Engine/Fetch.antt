-- ===== src/Engine/Fetch.antt =====
-- `executeFetch` of internal/engine/execute_query_plan.go, over the entities to which a path leads.
-- What gqlparser parses, what the data source answers and what `encoding/json` decodes are one
-- parameter, the answer to an operation and its variables. A `gqlerror` that ends the fetch is
-- `failed`, and leaves the results as they are.
pub mod Merging
pub mod Shapes
use fedeway.Prelude
use fedeway.Prelude.{
  ℕ, zero, suc, String, Bool, true, false, not, Option, none, some, is_some, List, [], ◌∷◌, ◌++◌,
  length, lookup, assign, same, ◌==◌, if◌then◌else◌, concat,
}
use fedeway.Outcome.{Outcome, done, failed, panicked, exhausted, or_panic, or_fail, ◌>>=◌}
use fedeway.Ast.{Schema}
use fedeway.Json.{
  Json, null, bool, num, str, arr, obj, Items, nil, cons, Members, end, member, size, get,
}
use fedeway.DeepMerge.{deep_merge}
use fedeway.Plan.{ResponsePath, FetchNode, PlanSelections, none_selected, selected}
use fedeway.Engine.Representation.{execute_selection_set, has_selections}

-- the parts of a `gqlerror.Error` that the engine sets
pub record GqlError : Type 0 where
  pub message : String
  pub path : ResponsePath
  pub extensions : List (String × Json)

-- What a service answers: its errors, and what its data, if it sends any, are decoded into.
pub record Response : Type 0 where
  pub errors : List GqlError
  pub decoded : Outcome (Option Members)

-- How a fetch ends: the errors of the service, which stay whatever follows, and the results.
pub record Fetched (A : Type 0) : Type 0 where
  pub errors : List GqlError
  pub outcome : Outcome A

-- `sendOperation`, and what is done with the data
abbrev pub after_answer : {A : Type 0} → Outcome Response → (Option Members → Outcome A) → Fetched A
after_answer (done response) use_data = record {
  errors = response.errors;
  outcome = response.decoded >>= use_data;
}
after_answer (failed message) use_data = record { errors = []; outcome = failed message }
after_answer panicked use_data = record { errors = []; outcome = panicked }
after_answer exhausted use_data = record { errors = []; outcome = exhausted }

abbrev pub without_errors : {A : Type 0} → Outcome A → Fetched A
without_errors o = record { errors = []; outcome = o }

abbrev add_extensions : List (String × Json) → List (String × Json) → List (String × Json)
add_extensions extensions [] = extensions
add_extensions extensions (e ∷ es) = add_extensions (assign e.0 e.1 extensions) es

-- `downstreamServiceError`
unfoldable pub downstream_service_error : GqlError → String → ResponsePath → GqlError
downstream_service_error original service path = record {
  message =
      if original.message == ""
      then concat ("error while fetching subquery from service \"" ∷ service ∷ "\"" ∷ [])
      else original.message;
  path = path;
  extensions =
      add_extensions (("code", str "DOWNSTREAM_SERVICE_ERROR") ∷ ("serviceName", str service) ∷ [])
        original.extensions;
}

abbrev downstream_errors : String → ResponsePath → List GqlError → List GqlError
downstream_errors service path [] = []
downstream_errors service path (e ∷ es) =
    downstream_service_error e service path ∷ downstream_errors service path es

-- `entities`
abbrev pub entities_of : Json → Items
entities_of (arr xs) = xs
entities_of v = cons v nil

abbrev pub is_empty_list : Items → Bool
is_empty_list nil = true
is_empty_list (cons x xs) = false

-- the variables of the request that the fetch uses
abbrev pub provided_variables : List String → List (String × Json) → List (String × Json)
provided_variables [] variables = []
provided_variables (name ∷ names) variables =
    let rest = provided_variables names variables in
    elim (lookup name variables) [ none ↦ rest | some v ↦ assign name v rest ]

-- `representations` with `representationToEntity`
abbrev pub Representations : Type 0
Representations = List (Members × ℕ)

abbrev has_typename : Members → Bool
has_typename ms = elim (get "__typename" ms) [
  | none ↦ false
  | some v ↦ elim v [ null ↦ false | _ ↦ true ]
]

module _ (schema : Schema) where
  -- the loop that makes them, from the entity at an index on
  unfoldable pub represent : PlanSelections → ℕ → Items → Outcome Representations
  unfolding execute_selection_set
  represent requires index nil = done []
  represent requires index (cons null xs) = represent requires (suc index) xs
  represent requires index (cons (obj ms) xs) = do
    representation ← execute_selection_set schema ms requires
    rest ← represent requires (suc index) xs
    done (if has_typename representation then (representation, index) ∷ rest else rest)
  represent requires index (cons _ xs) = failed "unexpected entity type"

-- `DeepMerge(entities[i], received)`
unfoldable pub merge_at : ℕ → Json → Items → Option Items
unfolding deep_merge
merge_at i received nil = none
merge_at zero received (cons x xs) = Prelude.◌>>=◌ (deep_merge x received) (λ y. some (cons y xs))
merge_at (suc i) received (cons x xs) =
    Prelude.◌>>=◌ (merge_at i received xs) (λ ys. some (cons x ys))

-- the loop over `receivedEntities`
unfoldable pub merge_received : Representations → Items → Items → Outcome Items
unfolding merge_at
merge_received [] received entities = done entities
merge_received (r ∷ rest) nil entities = done entities
merge_received (r ∷ rest) (cons x xs) entities = do
  next ← or_panic (merge_at r.1 x entities)
  merge_received rest xs next

-- the loop over the entities for a fetch of the root
unfoldable pub merge_all : Members → Items → Outcome Items
unfolding deep_merge
merge_all received nil = done nil
merge_all received (cons x xs) = do
  here ← or_panic (deep_merge x (obj received))
  rest ← merge_all received xs
  done (cons here rest)

-- the entities in place of those that the results are, or have
abbrev pub with_entities : Json → Items → Json
with_entities (arr xs) ys = arr ys
with_entities v (cons y ys) = y
with_entities v nil = v

abbrev list_of : Representations → Items
list_of [] = nil
list_of (r ∷ rest) = cons (obj r.0) (list_of rest)

abbrev members_of : Option Members → Members
members_of none = end
members_of (some ms) = ms

-- `data._entities` of an answer, which must be an array
abbrev pub array_of : Option Json → Outcome Items
array_of (some (arr xs)) = done xs
array_of _ = failed "expected \"data._entities\" in response to be an array"

-- the answer for the representations, merged into the entities
abbrev pub merge_answer : Representations → Items → Option Members → Outcome Items
merge_answer representations entities none = done entities
merge_answer representations entities (some ms) = do
  received ← array_of (get "_entities" ms)
  if same (size received) (length representations)
      then merge_received representations received entities
      else failed "expected \"data._entities\" to contain as many elements"

module _ (schema : Schema)
    (answer : String → String → List (String × Json) → Outcome Response) where
  -- the case of a fetch that requires nothing
  abbrev pub fetch_root : FetchNode → List (String × Json) → Items → Fetched Items
  fetch_root node variables entities =
      after_answer (answer node.service_name node.operation variables)
        (λ received. merge_all (members_of received) entities)

  -- the case of a fetch of entities, after their representations are made
  abbrev pub ask_entities :
      FetchNode → List (String × Json) → Items → Representations → Fetched Items
  ask_entities node variables entities [] = without_errors (done entities)
  ask_entities node variables entities (r ∷ rest) =
      if is_some (lookup "representations" variables)
      then without_errors (failed "variables cannot contain key \"representations\"")
      else after_answer
          (answer node.service_name node.operation
            (assign "representations" (arr (list_of (r ∷ rest))) variables))
          (merge_answer (r ∷ rest) entities)

  abbrev pub fetch_entities :
      FetchNode → List (String × Json) → Items → Outcome Representations → Fetched Items
  fetch_entities node variables entities (done representations) =
      ask_entities node variables entities representations
  fetch_entities node variables entities (failed message) = without_errors (failed message)
  fetch_entities node variables entities panicked = without_errors panicked
  fetch_entities node variables entities exhausted = without_errors exhausted

  -- `executeFetch`; the service map has no service of the name, or one
  unfoldable pub execute_fetch :
      (String → Bool) → FetchNode → ResponsePath → List (String × Json) → Json → Fetched Json
  unfolding represent merge_received merge_all downstream_service_error
  execute_fetch has_service node path request_variables results =
      let entities = entities_of results in
      let variables = provided_variables node.variable_usages request_variables in
      let fetched =
        if has_selections node.requires
        then fetch_entities node variables entities (represent schema node.requires 0 entities)
        else fetch_root node variables entities in
      if not (has_service node.service_name)
      then without_errors
          (failed (concat ("couldn't find service with name \"" ∷ node.service_name ∷ "\"" ∷ [])))
      else if is_empty_list entities
      then without_errors (done results)
      else record {
        errors = downstream_errors node.service_name path fetched.errors;
        outcome = fetched.outcome >>= λ after. done (with_entities results after);
      }
