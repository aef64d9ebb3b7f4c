-- ===== src/Planner/Context.antt =====
-- internal/planner/query_planning_context.go, utils.go and the metadata that they look up.
-- The parts of a `queryPlanningContext` that no operation changes are a record; the fragments that
-- it makes are in `Planner.Groups`. Metadata are kept under the address of a definition.
pub mod Fields
pub mod Fuel
pub mod Depth
pub mod Services
use fedeway.Prelude.{
  ℕ, zero, suc, String, Bool, true, false, ◌&&◌, ◌||◌, not, Option, none, some, is_some, List, [],
  ◌∷◌, ◌++◌, lookup, find, ◌==◌, same, if◌then◌else◌, concat,
}
use fedeway.Outcome.{Outcome, done, failed, panicked, exhausted, or_panic, or_fail, ◌>>=◌}
use fedeway.Ast.{
  Kind, object, interface, union, GqlType, leaf, ArgumentDefinition, Directive, FieldDefinition,
  Definition, Operation, Schema, Selection, field, inline_fragment, fragment_spread, FieldNode,
  field_node, name_of, SelectionSet, empty, select, FragmentDefinition,
}
use fedeway.Planner.Scope.{Scope, new_scope, parent_type, refine, possible_runtime_types, same_type}
use fedeway.Planner.Grouping.{Field}
use fedeway.Planner.FieldSets.{is_composite_type}

-- `FederationTypeMetadata`
pub record TypeMetadata : Type 0 where
  pub is_value_type : Bool
  pub graph_name : String
  pub keys : List (String × SelectionSet)

-- `FederationFieldMetadata`
pub record FieldMetadata : Type 0 where
  pub graph_name : String
  pub requires : SelectionSet
  pub provides : SelectionSet

-- `queryPlanningContext`
pub record PlanningContext : Type 0 where
  pub schema : Schema
  pub operation : Operation
  pub type_metadata : ℕ → Option TypeMetadata
  pub field_metadata : ℕ → Option FieldMetadata
  -- what gqlparser's `ForName` finds among the fragments, and among the fields of a type
  pub fragment_for_name : String → Option FragmentDefinition
  pub field_for_name : Definition → String → Option FieldDefinition
  pub auto_fragmentation : Bool

-- `SchemaMetaFieldDef`, `TypeMetaFieldDef` and `TypeNameMetaFieldDef` of internal/graphql, at the
-- addresses 0, 1 and 2
abbrev pub schema_meta_field_def : FieldDefinition
schema_meta_field_def = record {
  ptr = 0;
  name = "__schema";
  arguments = [];
  type = leaf "__Schema" false;
  directives = [];
}

abbrev pub type_meta_field_def : FieldDefinition
type_meta_field_def = record {
  ptr = 1;
  name = "__type";
  arguments =
      record { name = "name"; type = leaf "String" true; default_value = none; directives = [] }
      ∷ [];
  type = leaf "__Type" false;
  directives = [];
}

abbrev pub typename_meta_field_def : FieldDefinition
typename_meta_field_def = record {
  ptr = 2;
  name = "__typename";
  arguments = [];
  type = leaf "String" false;
  directives = [];
}

-- `typenameField`
abbrev pub typename_field : FieldNode
typename_field = field_node "__typename" "__typename" [] [] empty

abbrev is_query_type : Schema → Definition → Bool
is_query_type schema typ = elim schema.query [ none ↦ false | some q ↦ same_type q typ ]

-- `getFieldDef` of utils.go
unfoldable pub get_field_def : PlanningContext → Definition → String → Option FieldDefinition
unfolding is_composite_type
get_field_def qpctx parent name =
    if name == "__schema" && is_query_type qpctx.schema parent
    then some schema_meta_field_def
    else if name == "__type" && is_query_type qpctx.schema parent
    then some type_meta_field_def
    else if name == "__typename" && is_composite_type parent
    then some typename_meta_field_def
    else elim parent.kind [
      | object ↦ qpctx.field_for_name parent name
      | interface ↦ qpctx.field_for_name parent name
      | _ ↦ none
    ]

-- `len(xs) == 0`
abbrev pub is_nil {ℓ} : {A : Type ℓ} → List A → Bool
is_nil [] = true
is_nil (x ∷ xs) = false

module _ (qpctx : PlanningContext) where
  -- `getFieldDef` of the context
  unfoldable pub field_def_of : Definition → FieldNode → Outcome FieldDefinition
  unfolding get_field_def
  field_def_of parent node =
      or_fail
        (concat ("cannot query field '" ∷ name_of node ∷ "' on type '" ∷ parent.name ∷ "'" ∷ []))
        (get_field_def qpctx parent (name_of node))

  -- `getFragmentCondition` and `getInlineFragmentCondition`
  abbrev pub get_condition : Definition → String → Definition
  get_condition parent condition = elim (qpctx.schema.types condition) [
    | none ↦ parent
    | some d ↦ d
  ]

  -- `scopeForFragment` and `scopeForInlineFragment`
  unfoldable pub scope_for_fragment : Scope → String → List Directive → Option Scope
  unfolding refine possible_runtime_types
  scope_for_fragment current condition directives =
      let refined =
        refine qpctx.schema current (get_condition (parent_type current) condition) directives in
      if is_nil (possible_runtime_types qpctx.schema refined) then none else some refined

  -- the call of `collectFields` for a fragment, unless its scope is nil
  abbrev pub in_scope : Option Scope → (Scope → Outcome (List Field)) → Outcome (List Field)
  in_scope none collect = done []
  in_scope (some scope) collect = collect scope

  -- the case of a fragment that is spread
  abbrev pub in_fragment :
      Option FragmentDefinition
      → Scope
      → List Directive
      → (Scope → SelectionSet → Outcome (List Field))
      → Outcome (List Field)
  in_fragment none scope directives spread = done []
  in_fragment (some fragment) scope directives spread =
      in_scope (scope_for_fragment scope fragment.type_condition directives)
        (λ refined. spread refined fragment.selection_set)

  -- `collectFields`, given the call for the selections of a fragment that is spread
  module _ (spread : Scope → SelectionSet → Outcome (List Field)) where
    unfoldable mutual
      pub collect_set : Scope → SelectionSet → Outcome (List Field)
      collect_set scope empty = done []
      collect_set scope (select s rest) = do
        found ← collect_selection scope s
        others ← collect_set scope rest
        done (found ++ others)

      pub collect_selection : Scope → Selection → Outcome (List Field)
      collect_selection scope (field node) = do
        def ← field_def_of (parent_type scope) node
        done (record { scope = scope; field_node = node; field_def = def } ∷ [])
      collect_selection scope (inline_fragment condition directives selections) =
          in_scope (scope_for_fragment scope condition directives)
            (λ refined. collect_set refined selections)
      collect_selection scope (fragment_spread name directives) =
          in_fragment (qpctx.fragment_for_name name) scope directives spread

  -- `collectFields`; the fuel bounds how deep fragments spread fragments
  unfoldable pub collect_fields : ℕ → Scope → SelectionSet → Outcome (List Field)
  unfolding collect_set
  collect_fields zero = collect_set (λ scope selections. exhausted)
  collect_fields (suc fuel) = collect_set (collect_fields fuel)
