-- ===== src/Planner/FieldSets/Merging.antt =====
-- `mergeFieldNodeSelectionSets`: its map from names to nodes groups them as `groupByResponseName`
-- groups fields, and it never meets a name without a node.
use fedeway.Prelude.{
  String, true, false, Option, none, some, List, [], ◌∷◌, ◌++◌, map, append-nil, append_assoc,
  contains, lookup, lookup-assign, ◌==◌, eq_iff, filter-append, All, if◌then◌else◌, Bool-cases, inl,
  inr, ◌≡◌, refl, sym, ap, ap₂, ◌∙◌, arith,
}
use fedeway.Outcome.{Outcome, done, ◌>>=◌}
use fedeway.Ast.{
  FieldNode, field, SelectionSet, empty, select, selection_set_of, with_selection_set, is_empty,
  ◌<>◌,
}
use fedeway.Planner.Grouping.{get_response_name, group_by}
use fedeway.Planner.Grouping.Laws.{columns, first_keys, with_key, group_by_lem}
use fedeway.Planner.Grouping.Uniform.{group_by-IsUniform, IsUniform}
use fedeway.Planner.FieldSets.{
  Groups, nodes_named, add_node, add_nodes, merge_nodes, merge_named, field_nodes, fragment_nodes,
  sub_selections, merge_field_node_selection_sets,
}

-- the names in the order in which they were met
abbrev in_order : List String → List String
in_order [] = []
in_order (r ∷ rs) = in_order rs ++ r ∷ []

-- The map when the nodes `before` have been added under the names `rs`, newest first.
record IsGrouped (before : List FieldNode) (rs : List String) (g : Groups) : Type 0 where
  names : g.names ≡ in_order rs
  found :
      (k : String)
      → lookup k g.grouped
        ≡ (if contains rs k then some (with_key get_response_name k before) else none)

abbrev next_names : List String → String → List String
next_names rs k = if contains rs k then rs else k ∷ rs

with_key-snoc :
    (k : String) (before : List FieldNode) (x : FieldNode)
    → with_key get_response_name k (before ++ x ∷ []) ≡ (
        if get_response_name x == k
        then with_key get_response_name k before ++ x ∷ []
        else with_key get_response_name k before)
with_key-snoc k before x =
    filter-append (λ n. get_response_name n == k) before (x ∷ [])
    ∙ ground (arith, append-nil (with_key get_response_name k before))

-- A name that was not met has no node.
abbrev IsKnown : List String → List FieldNode → Type 0
IsKnown rs before = (k : String) → contains rs k ≡ false → with_key get_response_name k before ≡ []

contains-next_names :
    (rs : List String) (k j : String)
    → contains (next_names rs k) j ≡ (if k == j then true else contains rs j)
contains-next_names rs k j = ground (arith, eq_iff k j)

nodes_named_lem :
    (before : List FieldNode) (rs : List String) (g : Groups) (k : String)
    → IsKnown rs before
    → IsGrouped before rs g
    → nodes_named g k ≡ with_key get_response_name k before
nodes_named_lem before rs g k known p =
    ap (λ (o : Option (List FieldNode)). elim o [ none ↦ [] | some nodes ↦ nodes ]) (p.found k)
    ∙ elim (Bool-cases (contains rs k)) [
      | inl old ↦ rw old refl
      | inr new ↦ rw new (sym (known k new))
    ]

add_node-found :
    (before : List FieldNode) (rs : List String) (g : Groups) (x : FieldNode)
    → IsKnown rs before
    → IsGrouped before rs g
    → (j : String)
    → lookup j (add_node g x).grouped ≡ (
        if contains (next_names rs (get_response_name x)) j
        then some (with_key get_response_name j (before ++ x ∷ []))
        else none)
unfolding add_node
add_node-found before rs g x known p j =
    let k = get_response_name x in
    let nodes = nodes_named_lem before rs g k known p in
    let grown = with_key-snoc j before x in
    let stored = lookup-assign k j (nodes_named g k ++ x ∷ []) g.grouped in
    elim (Bool-cases (k == j)) [
      | inl e ↦
          rw (stored, grown, contains-next_names, e)
            (ap (λ ns. some (ns ++ x ∷ []))
              (nodes ∙ ap (λ i. with_key get_response_name i before) ((eq_iff k j).0 e)))
      | inr e ↦ rw (stored, grown, contains-next_names, e) (p.found j)
    ]

add_node-IsGrouped :
    (before : List FieldNode) (rs : List String) (g : Groups) (x : FieldNode)
    → IsKnown rs before
    → IsGrouped before rs g
    → IsGrouped (before ++ x ∷ []) (next_names rs (get_response_name x)) (add_node g x)
unfolding add_node
add_node-IsGrouped before rs g x known p =
    let k = get_response_name x in
    record {
      names = elim (Bool-cases (contains rs k)) [
        | inl old ↦ rw (p.found k, old) p.names
        | inr new ↦ rw (p.found k, new) (ap (λ ns. ns ++ k ∷ []) p.names)
      ];
      found = add_node-found before rs g x known p;
    }

next-IsKnown :
    (before : List FieldNode) (rs : List String) (x : FieldNode)
    → IsKnown rs before
    → IsKnown (next_names rs (get_response_name x)) (before ++ x ∷ [])
next-IsKnown before rs x known k new =
    ground (arith, with_key-snoc k before x, known k, eq_iff (get_response_name x) k)

add_nodes-IsGrouped :
    (before nodes : List FieldNode) (rs : List String) (g : Groups)
    → IsKnown rs before
    → IsGrouped before rs g
    → IsGrouped (before ++ nodes) (first_keys get_response_name rs nodes) (add_nodes g nodes)
      × IsKnown (first_keys get_response_name rs nodes) (before ++ nodes)
unfolding add_nodes
add_nodes-IsGrouped before [] rs g known p = rw append-nil (p, known)
add_nodes-IsGrouped before (x ∷ nodes) rs g known p = rw (← append_assoc before (x ∷ []) nodes) (
    add_nodes-IsGrouped (before ++ x ∷ []) nodes (next_names rs (get_response_name x))
      (add_node g x) (next-IsKnown before rs x known) (add_node-IsGrouped before rs g x known p))

-- One node for each group.
abbrev pub merge_groups : List (List FieldNode) → Outcome SelectionSet
merge_groups [] = done empty
merge_groups (nodes ∷ groups) = do
  node ← merge_nodes nodes
  rest ← merge_groups groups
  done (select (field node) rest)

merge_named_lem :
    (g : Groups) (names : List String)
    → merge_named g names ≡ merge_groups (map (nodes_named g) names)
unfolding merge_named
merge_named_lem g [] = refl
merge_named_lem g (name ∷ names) = rw (merge_named_lem g names) refl

map-snoc :
    {A B : Type 0} (f : A → B) (xs : List A) (x : A) → map f (xs ++ x ∷ []) ≡ map f xs ++ f x ∷ []
map-snoc f [] x = refl
map-snoc f (y ∷ ys) x = ap (λ zs. f y ∷ zs) (map-snoc f ys x)

in_order-columns :
    (nodes : List FieldNode) (g : Groups) (rs : List String)
    → ((k : String) → nodes_named g k ≡ with_key get_response_name k nodes)
    → map (nodes_named g) (in_order rs) ≡ columns get_response_name nodes rs
in_order-columns nodes g [] h = refl
in_order-columns nodes g (r ∷ rs) h =
    map-snoc (nodes_named g) (in_order rs) r
    ∙ ap₂ (λ gs n. gs ++ n ∷ []) (in_order-columns nodes g rs h) (h r)

pub merge_field_node_selection_sets_lem :
    (selections : SelectionSet)
    → merge_field_node_selection_sets selections ≡ (
        merge_groups (group_by get_response_name (field_nodes selections)) >>= λ merged.
        done (merged <> fragment_nodes selections))
unfolding merge_field_node_selection_sets
merge_field_node_selection_sets_lem selections =
    let nodes = field_nodes selections in
    let start : Groups = record { names = []; grouped = [] } in
    let g = add_nodes start nodes in
    let (p, known) =
      add_nodes-IsGrouped [] nodes [] start (λ k h. refl)
        (record { names = refl; found = λ k. refl }) in
    let grouped : merge_named g g.names ≡ merge_groups (group_by get_response_name nodes) =
      ap (merge_named g) p.names
      ∙ merge_named_lem g (in_order (first_keys get_response_name [] nodes))
      ∙ ap merge_groups (
          in_order-columns nodes g (first_keys get_response_name [] nodes)
            (λ k. nodes_named_lem nodes (first_keys get_response_name [] nodes) g k known p)
          ∙ sym (group_by_lem get_response_name nodes)) in
    ap (λ o. o >>= λ merged. done (merged <> fragment_nodes selections)) grouped

merge_groups-done :
    (groups : List (List FieldNode))
    → All (IsUniform get_response_name) groups
    → (merged : SelectionSet) × (merge_groups groups ≡ done merged)
unfolding merge_nodes
merge_groups-done [] h = (empty, refl)
merge_groups-done ([] ∷ groups) h = elim h.0 [ ]
merge_groups-done ((x ∷ xs) ∷ groups) h =
    let (rest, e) = merge_groups-done groups h.1 in
    let node =
      if is_empty (selection_set_of x) then x else with_selection_set x (sub_selections (x ∷ xs)) in
    (select (field node) rest, ap (λ o. o >>= λ r. done (select (field node) r)) e)

-- It returns, whatever the selections: no group is without a node.
pub merge_field_node_selection_sets-done :
    (selections : SelectionSet)
    → (merged : SelectionSet) × (merge_field_node_selection_sets selections ≡ done merged)
merge_field_node_selection_sets-done selections =
    let (merged, e) =
      merge_groups-done _ (group_by-IsUniform get_response_name (field_nodes selections)) in
    (merged <> fragment_nodes selections, rw (merge_field_node_selection_sets_lem, e) refl)
