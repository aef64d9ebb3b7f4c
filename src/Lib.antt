-- ===== src/Lib.antt =====
-- fedeway: an Apollo Federation gateway in Go, and what of it is modelled here.
--
-- The program. Services send their schema documents. internal/federation checks each document
-- (pre_normalization.go), normalises it (normalize.go), checks it again (pre_composition.go),
-- composes one schema of all of them and checks that. For a query, internal/planner collects the
-- fields in their scopes, splits them into fetch groups by the services that own them, and builds a
-- plan of fetches (internal/plan). internal/engine runs the plan: it makes the representations that
-- a fetch requires, asks the service and merges the answer into the results (internal/utils), and
-- internal/execute shapes the results by the query.
--
-- The files, and the code that they model:
--   Ast                 the structs of gqlparser's `ast` that the program reads and builds
--   Outcome             how a call that may fail ends
--   Json, DeepMerge     decoded values, and `DeepMerge` of internal/utils/utils.go
--   Plan                internal/plan/query_plan.go; Plan/Wrap is `flatWrapSequence` and
--                       `flatWrapParallel`; Plan/Runs is the walk of `executeNode`
--   Planner/Scope       internal/planner/scope.go, and the sub-type test of internal/utils/utils.go
--   Planner/Grouping, Planner/FieldSets
--                       internal/planner/field_set.go
--   Planner/Context     internal/planner/query_planning_context.go and utils.go
--   Planner/Groups      `FetchGroup` of internal/planner/build_query_plan.go with its methods;
--                       Groups/Changes, Frame and Levels are about its changes
--   Planner/Splitting   `splitFields`; Splitting/Subfields, Splitting/Complete and Splitting/Roots
--                       are `splitSubfields`, `completeField` and the two root splits
--   Planner/Build       `BuildQueryPlan`, `executionNodeForGroup` and the operations of fetches
--   Engine              internal/engine/execute_query_plan.go: Engine/Representation is
--                       `executeSelectionSet` and `doesTypeConditionMatch`, Engine/Fetch
--                       `executeFetch`, Engine/Flatten `flattenResultsAtPath`, and Engine/Execute
--                       `executeNode` and `ExecuteQueryPlan`
--   Federation/Document, Federation/Normalize
--                       schema documents, and internal/federation/normalize.go
--   Federation/Utils    internal/federation/utils.go
--   Federation/Rules    internal/federation/pre_normalization.go and pre_composition.go
--   Federation/Compose  internal/federation/compose.go: Compose and Compose/Maps are
--                       `buildMapsFromServiceList`
--   Federation/Join     `getJoinGraphEnum` of internal/federation/join_spec.go
--   Examples            the theorems at concrete inputs, and tests
--
-- State. A `*ast.Definition` or a `*ast.FieldDefinition` that Go compares or looks up by its address
-- carries the address, `ptr`. Fetch groups are shared by pointer in Go and changed through each
-- reference, so they live in a store and a reference is an index into it. A pass over a document
-- changes it in place in Go and returns it here. Results are values of which no part is shared; where
-- Go holds references to the entities at a path, the model puts what became of them back at the path.
-- The children of a parallel node are run in the order of the list, one of the orders of Plan/Runs.
--
-- Failure. An error is its message, where it is returned, a panic is a value of its own (`none`, or
-- `panicked`), and a call without fuel is `exhausted`. Fuel bounds three depths: how deep fragments
-- spread fragments, how deep selections nest, and how deep groups depend on groups. Enough are the
-- rank of the fragments and twice the depth of the selections, as `Planner.Build.Total` has it.
--
-- Parameters. What the program calls of gqlparser and of the network is an argument: the name and
-- the text of a type, `ForName` and `ForNames`, the possible types of a schema, the text of a value,
-- of a path and of a document, `json.Marshal` of a selection set, the walk over the values of a
-- document, and the answer of a service. `strconv.Quote`, `strings.ToLower` and `ToUpper` are
-- arguments too.
--
-- Not modelled: source positions, descriptions and logs; composition beyond its maps and the names
-- of the services, and the checks after it; the joined metadata of a composed schema;
-- internal/execute; printing of plans; introspection beyond the names of its types; network,
-- handlers and the generated example services.
pub mod Prelude
pub mod Outcome
pub mod Ast
pub mod Json
pub mod DeepMerge
pub mod Plan
pub mod Planner
pub mod Engine
pub mod Federation
pub mod Examples
