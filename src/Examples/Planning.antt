-- ===== src/Examples/Planning.antt =====
-- Planning over a small schema: `me` and `name` of the service "accounts", `top` of "products".
use fedeway.Prelude.{
  arith, ℕ, String, true, false, none, some, List, [], ◌∷◌, find, ◌==◌, same, if◌then◌else◌, join,
  ◌≡◌, refl,
}
use fedeway.Outcome.{Outcome, done}
use fedeway.Ast.{
  Kind, object, query, GqlType, leaf, wrapper, Value, value, variable, childless, FieldDefinition,
  Definition, field, fragment_spread, field_node, SelectionSet, empty, select, FragmentDefinition,
}
use fedeway.Planner.Scope.{outermost, possible_runtime_types}
use fedeway.Planner.Scope.Identity.{compute_identity_key}
use fedeway.Planner.Grouping.{Field}
use fedeway.Planner.FieldSets.{merge_field_node_selection_sets}
use fedeway.Planner.FieldSets.Merging.{merge_field_node_selection_sets-done}
use fedeway.Planner.Context.{PlanningContext, FieldMetadata, collect_fields}
use fedeway.Planner.Context.Fields.{AreSelected, collect_fields-AreSelected}
use fedeway.Planner.Context.Services.Variables.{
  VariableDefinition, HasDistinctNames, is_used, is_mentioned, get_variable_usages,
  get_variable_usages_lem, index_by_name,
}
use fedeway.Planner.Context.Services.Defined.{get_variable_usages-done}
use fedeway.Planner.Groups.{Store}
use fedeway.Planner.Groups.Changes.{services}
use fedeway.Planner.Splitting.Roots.{split_root_fields, split_root_fields_serially}
use fedeway.Planner.Splitting.Roots.Serial.{Alternates, split_root_fields_serially-Alternates}
use fedeway.Planner.Splitting.Roots.Indexed.{Serves, IsDistinct, split_root_fields-Serves}

abbrev pub text_field : ℕ → String → FieldDefinition
text_field ptr name = record {
  ptr = ptr;
  name = name;
  arguments = [];
  type = leaf "String" false;
  directives = [];
}

abbrev pub text_type : Definition
text_type = record {
  ptr = 10;
  kind = Kind.scalar;
  name = "String";
  directives = [];
  interfaces = [];
  fields = [];
  types = [];
  enum_values = [];
}

abbrev query_type : Definition
query_type = record {
  ptr = 11;
  kind = object;
  name = "Query";
  directives = [];
  interfaces = [];
  fields = text_field 3 "me" ∷ text_field 4 "top" ∷ text_field 5 "name" ∷ [];
  types = [];
  enum_values = [];
}

abbrev pub served_by : String → FieldMetadata
served_by service = record { graph_name = service; requires = empty; provides = empty }

abbrev user_fragment : FragmentDefinition
user_fragment = record {
  name = "User";
  type_condition = "Query";
  selection_set = select (field (field_node "name" "name" [] [] empty)) empty;
}

abbrev shop_context : PlanningContext
shop_context = record {
  schema = record {
    query = some query_type;
    mutation = none;
    subscription = none;
    types = λ name.
        if name == "Query"
        then some query_type
        else if name == "String"
        then some text_type
        else none;
    possible_types = λ def. [];
  };
  operation = query;
  type_metadata = λ ptr. none;
  field_metadata = λ ptr. some (served_by (if same ptr 4 then "products" else "accounts"));
  fragment_for_name = λ name. if name == "User" then some user_fragment else none;
  field_for_name = λ def name. find (λ d. d.name == name) def.fields;
  auto_fragmentation = false;
}

abbrev pub named : GqlType → String
named (leaf name non_null) = name
named (wrapper name elem non_null) = named elem

abbrev pub no_quote : String → String
no_quote s = s

abbrev pub no_value : Value → String
no_value v = ""

abbrev pub no_marshal : SelectionSet → Outcome String
no_marshal selections = done ""

abbrev in_query : String → ℕ → Field
in_query name ptr = record {
  scope = outermost query_type [];
  field_node = field_node name name [] [] empty;
  field_def = text_field ptr name;
}

abbrev root_fields : List Field
root_fields = in_query "me" 3 ∷ in_query "top" 4 ∷ in_query "name" 5 ∷ []

abbrev pub nothing_planned : Store
nothing_planned = record {
  groups = [];
  fragments = [];
  root_groups = [];
  root_groups_by_service = [];
}

abbrev pub result_of : Outcome (List ℕ × Store) → List ℕ × Store
result_of (done r) = r
result_of _ = ([], nothing_planned)

abbrev serially : List ℕ × Store
unfolding split_root_fields_serially compute_identity_key
serially = result_of (
    split_root_fields_serially shop_context named (join ".")
      (compute_identity_key no_quote no_value) no_marshal 2 2 root_fields nothing_planned)

serially_test :
    (serially.0 ≡ 0 ∷ 1 ∷ 2 ∷ [])
    × (services serially.1.groups ≡ "accounts" ∷ "products" ∷ "accounts" ∷ [])
unfolding serially
serially_test = (refl, refl)

split_root_fields_serially-Alternates_example : Alternates (services serially.1.groups) serially.0
unfolding serially
split_root_fields_serially-Alternates_example =
    split_root_fields_serially-Alternates shop_context named (join ".")
      (compute_identity_key no_quote no_value) no_marshal 2 2 root_fields nothing_planned serially.1
      serially.0 refl refl

abbrev at_once : List ℕ × Store
unfolding split_root_fields compute_identity_key
at_once = result_of (
    split_root_fields shop_context named (join ".") (compute_identity_key no_quote no_value)
      no_marshal 2 2 root_fields nothing_planned)

split_root_fields-Serves_example :
    (names : List String) × Serves (services at_once.1.groups) at_once.0 names × IsDistinct names
unfolding at_once
split_root_fields-Serves_example =
    split_root_fields-Serves shop_context named (join ".") (compute_identity_key no_quote no_value)
      no_marshal 2 2 root_fields nothing_planned at_once.1 at_once.0 refl refl

at_once_test : (at_once.0 ≡ 0 ∷ 1 ∷ []) × (services at_once.1.groups ≡ "accounts" ∷ "products" ∷ [])
unfolding at_once
at_once_test = (refl, refl)

abbrev selected : SelectionSet
selected =
    select
      (field (field_node "" "me" [] [] (select (field (field_node "" "id" [] [] empty)) empty)))
      (select (fragment_spread "User" []) (
        select
          (field
            (field_node "" "me" [] [] (select (field (field_node "" "name" [] [] empty)) empty)))
          empty))

merge_field_node_selection_sets-done_example :
    (merged : SelectionSet) × (merge_field_node_selection_sets selected ≡ done merged)
merge_field_node_selection_sets-done_example = merge_field_node_selection_sets-done selected

collect_fields-AreSelected_example :
    AreSelected shop_context (collect_fields shop_context 1 (outermost query_type []) selected)
unfolding possible_runtime_types
collect_fields-AreSelected_example =
    collect_fields-AreSelected shop_context 1 (outermost query_type []) selected refl

abbrev rank : String → ℕ
rank name = 0

abbrev id_variable : VariableDefinition
id_variable = record { variable = "id"; type = leaf "ID" true }

abbrev id_value : Value
id_value = value variable "id" childless

get_variable_usages_lem_example :
    HasDistinctNames (id_variable ∷ [])
    × ((k : String) → is_used (id_variable ∷ []) k ≡ is_mentioned (id_value ∷ id_value ∷ []) k)
unfolding get_variable_usages
get_variable_usages_lem_example =
    get_variable_usages_lem (id_variable ∷ []) (id_value ∷ id_value ∷ []) (id_variable ∷ []) refl

id_is_defined :
    (k : String)
    → is_mentioned (id_value ∷ id_value ∷ []) k ≡ true
    → is_used (id_variable ∷ []) k ≡ true
id_is_defined k t = ground arith

get_variable_usages-done_example :
    (usages : List VariableDefinition) × (get_variable_usages
        (index_by_name [] (id_variable ∷ []))
        (id_value ∷ id_value ∷ [])
      ≡ done usages)
get_variable_usages-done_example =
    get_variable_usages-done (id_variable ∷ []) (id_value ∷ id_value ∷ []) id_is_defined
