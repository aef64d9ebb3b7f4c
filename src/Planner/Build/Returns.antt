-- ===== src/Planner/Build/Returns.antt =====
-- The fuel of `executionNodeForGroup`.
use fedeway.Prelude.{
  ℕ, zero, suc, ◌+◌, ◌≤◌, String, Option, none, some, some_eq, List, [], ◌∷◌, All, All-map, ◌<◌,
  ◌≡◌, refl, sym, ap, ◌∙◌, subst, arith,
}
use fedeway.Outcome.{
  Ends, Outcome, done, or_panic, or_fail, is_exhausted-bind, is_exhausted-or_panic,
  is_exhausted-or_fail, done_eq,
}
use fedeway.Ast.{GqlType, Value, Definition, SelectionSet, FragmentDefinition}
use fedeway.Plan.{ResponsePath, PlanNode, Nodes, no_nodes, node}
use fedeway.Plan.Wrap.{flat_wrap_parallel, flat_wrap_sequence}
use fedeway.Planner.Scope.{Scope}
use fedeway.Planner.Context.{PlanningContext}
use fedeway.Planner.Context.Services.Variables.{VariableDefinition}
use fedeway.Planner.Groups.{FetchGroup, Store, at_index, dependent_groups}
use fedeway.Planner.Groups.Levels.{Links, IsLevelled, All-at, dependent_groups-AreOf}
use fedeway.Planner.Groups.Levels.Steps.{IsLevelled-at}
use fedeway.Planner.Build.{
  QueryDocument, fetch_for_group, with_dependent_nodes, nodes_for, execution_node_for_group,
}
use fedeway.Planner.Build.Fetches.{fetch_for_group-Ends}

found_at : {A : Type 0} (o : Option A) (a : A) → or_panic o ≡ done a → o ≡ some a
found_at none a e = cc
found_at (some b) a e = ap some (done_eq e)

module _ (qpctx : PlanningContext) (type_name : GqlType → String)
    (path_string : ResponsePath → String) (key : Scope → Option String)
    (marshal : SelectionSet → Outcome String) (print : QueryDocument → String)
    (walk : SelectionSet → List FragmentDefinition → List Value)
    (definitions : List VariableDefinition) where
  abbrev node_for : ℕ → List FetchGroup → Option Definition → ℕ → Outcome PlanNode
  node_for = execution_node_for_group qpctx type_name path_string key marshal print walk definitions

  with_dependent_nodes-Ends :
      (first : PlanNode) (nodes : Nodes)
      → Ends (
          with_dependent_nodes qpctx type_name path_string key marshal print walk definitions first
            nodes)
  with_dependent_nodes-Ends first no_nodes = refl
  with_dependent_nodes-Ends first (node n ns) =
      is_exhausted-bind (or_fail "nodes is 0 length" (flat_wrap_parallel (node n ns))) _
        (is_exhausted-or_fail "nodes is 0 length" (flat_wrap_parallel (node n ns)))
        (λ dependent e.
          is_exhausted-or_fail "nodes is 0 length"
            (flat_wrap_sequence (node first (node dependent no_nodes))))

  pub nodes_for-Ends :
      (make : ℕ → Outcome PlanNode) (refs : List ℕ)
      → All (λ ref. Ends (make ref)) refs
      → Ends (nodes_for qpctx type_name path_string key marshal print walk definitions make refs)
  nodes_for-Ends make [] h = refl
  nodes_for-Ends make (ref ∷ refs) h = is_exhausted-bind (make ref) _ h.0 (λ n e.
      is_exhausted-bind
        (nodes_for qpctx type_name path_string key marshal print walk definitions make refs) _
        (nodes_for-Ends make refs h.1) (λ rest k. refl))

  module _ (ls : List ℕ) (s : Store) (levelled : IsLevelled ls s) (bound : ℕ)
      (below : All (λ m. m < bound) ls) where
    pub node_for-Ends :
        (fuel l : ℕ) (parent : Option Definition) (ref : ℕ)
        → at_index ref ls ≡ some l
        → bound ≤ fuel + l
        → Ends (node_for fuel s.groups parent ref)
    unfolding execution_node_for_group
    node_for-Ends zero l parent ref at enough =
        absurd (omega (arith, All-at (λ m. m < bound) ref l ls at below, enough))
    node_for-Ends (suc fuel) l parent ref at enough =
        is_exhausted-bind (or_panic (at_index ref s.groups)) _
          (is_exhausted-or_panic (at_index ref s.groups))
          (λ group e.
            let (m, here, links) =
              IsLevelled-at ls s ref group levelled (found_at (at_index ref s.groups) group e) in
            let same : m ≡ l = some_eq (sym here ∙ at) in
            let refs =
              dependent_groups-AreOf ls (suc l) group
                (subst (λ k. Links ls (suc k) group) same links) in
            is_exhausted-bind
              (fetch_for_group qpctx type_name path_string key marshal print walk definitions group
                parent)
              _
              (fetch_for_group-Ends qpctx type_name path_string key marshal print walk definitions
                group parent)
              (λ first h.
                is_exhausted-bind
                  (nodes_for qpctx type_name path_string key marshal print walk definitions
                    (node_for fuel s.groups none) (dependent_groups group))
                  _
                  (nodes_for-Ends (node_for fuel s.groups none) (dependent_groups group) (
                    All-map (dependent_groups group)
                      (λ d lower. node_for-Ends fuel (suc l) none d lower (omega (arith, enough)))
                      refs))
                  (λ dependent k. with_dependent_nodes-Ends first dependent)))
