-- ===== src/Planner/FieldSets.antt =====
-- The rest of internal/planner/field_set.go: the selection set that fetches a set of fields.
-- gqlparser's `(*Type).Name` is a parameter, and so is what the identity key of a scope calls.
pub mod Merging
pub mod Ends
pub mod Parts
use fedeway.Prelude.{
  String, Bool, true, false, ◌||◌, not, Option, none, some, List, [], ◌∷◌, ◌++◌, lookup, assign,
  ◌==◌, if◌then◌else◌, is_some,
}
use fedeway.Outcome.{Outcome, done, panicked, or_panic, ◌>>=◌}
use fedeway.Ast.{
  object, interface, union, Kind, GqlType, Value, Directive, Definition, FieldDefinition, Schema,
  Selection, field, inline_fragment, fragment_spread, FieldNode, SelectionSet, empty, select,
  selection_set_of, with_selection_set, is_empty, ◌<>◌,
}
use fedeway.Planner.Scope.{
  Scope, outermost, within, is_strictly_refining, directives_of, parent_type,
}
use fedeway.Planner.Scope.Identity.{compute_identity_key}
use fedeway.Planner.Grouping.{Field, get_response_name, group_by, group_by_response_name}

-- `matchesField`
unfoldable pub matches_field : Field → Field → Bool
matches_field a b = a.field_def.name == b.field_def.name

-- `isCompositeType`
unfoldable pub is_composite_type : Definition → Bool
is_composite_type def = elim def.kind [
  | object ↦ true
  | interface ↦ true
  | union ↦ true
  | _ ↦ false
]

-- The two lists into which `mergeFieldNodeSelectionSets` divides the selections.
abbrev pub field_nodes : SelectionSet → List FieldNode
field_nodes empty = []
field_nodes (select (field node) rest) = node ∷ field_nodes rest
field_nodes (select _ rest) = field_nodes rest

abbrev pub fragment_nodes : SelectionSet → SelectionSet
fragment_nodes empty = empty
fragment_nodes (select (field node) rest) = fragment_nodes rest
fragment_nodes (select s rest) = select s (fragment_nodes rest)

-- The variables `names` and `grouped` of its loop.
pub record Groups : Type 0 where
  pub names : List String
  pub grouped : List (String × List FieldNode)

abbrev pub nodes_named : Groups → String → List FieldNode
nodes_named g name = elim (lookup name g.grouped) [ none ↦ [] | some nodes ↦ nodes ]

-- The name is computed in place there, as `getResponseName` does.
unfoldable pub add_node : Groups → FieldNode → Groups
add_node g node =
    let name = get_response_name node in
    record {
      names = if is_some (lookup name g.grouped) then g.names else g.names ++ name ∷ [];
      grouped = assign name (nodes_named g name ++ node ∷ []) g.grouped;
    }

unfoldable pub add_nodes : Groups → List FieldNode → Groups
unfolding add_node
add_nodes g [] = g
add_nodes g (node ∷ nodes) = add_nodes (add_node g node) nodes

-- `append` of the selection sets of all the nodes
abbrev pub sub_selections : List FieldNode → SelectionSet
sub_selections [] = empty
sub_selections (node ∷ nodes) = selection_set_of node <> sub_selections nodes

-- One node for those of one name: a copy of the first with the selections of all.
unfoldable pub merge_nodes : List FieldNode → Outcome FieldNode
merge_nodes [] = panicked
merge_nodes (first ∷ others) = done (
    if is_empty (selection_set_of first)
    then first
    else with_selection_set first (sub_selections (first ∷ others)))

unfoldable pub merge_named : Groups → List String → Outcome SelectionSet
unfolding merge_nodes
merge_named g [] = done empty
merge_named g (name ∷ names) = do
  node ← merge_nodes (nodes_named g name)
  rest ← merge_named g names
  done (select (field node) rest)

-- `mergeFieldNodeSelectionSets`
unfoldable pub merge_field_node_selection_sets : SelectionSet → Outcome SelectionSet
unfolding add_nodes merge_named
merge_field_node_selection_sets selections =
    let groups = add_nodes (record { names = []; grouped = [] }) (field_nodes selections) in
    do merged ← merge_named groups groups.names; done (merged <> fragment_nodes selections)

-- `mergeSelectionSets`
unfoldable pub merge_selection_sets : List FieldNode → Outcome SelectionSet
unfolding merge_field_node_selection_sets
merge_selection_sets nodes = merge_field_node_selection_sets (sub_selections nodes)

-- `wrapInInlineFragment`
abbrev pub wrap_in_inline_fragment : SelectionSet → Definition → List Directive → SelectionSet
wrap_in_inline_fragment selections condition directives =
    select (inline_fragment condition.name directives selections) empty

abbrev field_node_of : Field → FieldNode
field_node_of f = f.field_node

abbrev pub node_list : List Field → List FieldNode
node_list [] = []
node_list (f ∷ fs) = f.field_node ∷ node_list fs

-- the fields with the identity keys of their scopes, and without
abbrev pub with_keys : (Scope → Option String) → List Field → Outcome (List (String × Field))
with_keys key [] = done []
with_keys key (f ∷ fs) = do
  name ← or_panic (key f.scope)
  rest ← with_keys key fs
  done ((name, f) ∷ rest)

abbrev pub without_keys : List (String × Field) → List Field
without_keys [] = []
without_keys (f ∷ fs) = f.1 ∷ without_keys fs

abbrev pub all_without_keys : List (List (String × Field)) → List (List Field)
all_without_keys [] = []
all_without_keys (g ∷ gs) = without_keys g ∷ all_without_keys gs

-- `groupByScope`: the loop of `groupByResponseName` with the identity key of the scope for a name
unfoldable pub group_by_scope : (Scope → Option String) → List Field → Outcome (List (List Field))
unfolding group_by
group_by_scope key fields = do
  named ← with_keys key fields
  done (all_without_keys (group_by (λ f. f.0) named))

module _ (schema : Schema) where
  -- `wrapInInlineFragmentIfNeeded`
  unfoldable pub wrap_in_inline_fragment_if_needed :
      SelectionSet → Scope → Option Definition → SelectionSet
  unfolding is_strictly_refining
  wrap_in_inline_fragment_if_needed selections (outermost typ ds) parent =
      let wrapped = wrap_in_inline_fragment selections typ ds in
      elim parent [
        | none ↦ wrapped
        | some p ↦ if is_strictly_refining schema (outermost typ ds) p then wrapped else selections
      ]
  wrap_in_inline_fragment_if_needed selections (within typ ds outer) parent =
      wrap_in_inline_fragment_if_needed (wrap_in_inline_fragment selections typ ds) outer parent

module _ (schema : Schema) (type_name : GqlType → String) (key : Scope → Option String) where
  -- `getNamedType`
  abbrev pub get_named_type : GqlType → Option Definition
  get_named_type typ = schema.types (type_name typ)

  -- `combineFields`
  unfoldable pub combine_fields : List Field → Outcome Field
  unfolding is_composite_type merge_selection_sets
  combine_fields [] = panicked
  combine_fields (first ∷ others) = do
    return_type ← or_panic (get_named_type first.field_def.type)
    let merged = do
      selections ← merge_selection_sets (node_list (first ∷ others))
      done (record first { field_node = with_selection_set first.field_node selections })
    if is_composite_type return_type then merged else done first

  -- the inner loop of `selectionSetFromFieldSet`
  unfoldable pub combine_all : List (List Field) → Outcome SelectionSet
  unfolding combine_fields
  combine_all [] = done empty
  combine_all (g ∷ gs) = do
    combined ← combine_fields g
    rest ← combine_all gs
    done (select (field combined.field_node) rest)

  -- the outer loop
  unfoldable pub select_scopes : Option Definition → List (List Field) → Outcome SelectionSet
  unfolding combine_all group_by_response_name wrap_in_inline_fragment_if_needed
  select_scopes parent [] = done empty
  select_scopes parent ([] ∷ gs) = panicked
  select_scopes parent ((f ∷ fs) ∷ gs) = do
    selections ← combine_all (group_by_response_name (f ∷ fs))
    rest ← select_scopes parent gs
    done (wrap_in_inline_fragment_if_needed schema selections f.scope parent <> rest)

  -- `selectionSetFromFieldSet`
  unfoldable pub selection_set_from_field_set :
      List Field → Option Definition → Outcome SelectionSet
  unfolding group_by_scope select_scopes
  selection_set_from_field_set fields parent = do
    groups ← group_by_scope key fields
    select_scopes parent groups
