-- ===== src/Planner/Splitting/Complete.antt =====
-- `completeField`: a field with the selection set that its own service can fetch, the rest of it in
-- dependent groups.
use fedeway.Prelude.{
  ℕ, zero, suc, String, Bool, true, false, ◌&&◌, Option, none, some, List, [], ◌∷◌, ◌++◌, length,
  lookup, assign, concat, decimal, if◌then◌else◌,
}
use fedeway.Outcome
use fedeway.Outcome.{Outcome, done, panicked, exhausted, or_panic}
use fedeway.Ast.{
  GqlType, Definition, fragment_spread, with_selection_set, selection_set_of, SelectionSet, empty,
  select, FragmentDefinition,
}
use fedeway.Plan.{ResponsePath}
use fedeway.Planner.Scope.{Scope, outermost, is_abstract_type}
use fedeway.Planner.Grouping.{Field, get_response_name}
use fedeway.Planner.FieldSets.{is_composite_type, selection_set_from_field_set}
use fedeway.Planner.Context.{
  PlanningContext, collect_fields, typename_field, typename_meta_field_def,
}
use fedeway.Planner.Context.Services.{get_provided_fields}
use fedeway.Planner.Groups.{
  FetchGroup, InternalFragment, Planning, ◌>>=◌, ◌>>◌, return, lift, load, store, allocate,
  new_group, merge_dependent_groups,
}
use fedeway.Planner.Splitting.{add_path, split_fields}
use fedeway.Planner.Splitting.Subfields.{group_for_subfield}

-- `collectSubfields`
unfoldable pub collect_subfields :
    PlanningContext → ℕ → Definition → List Field → Outcome (List Field)
unfolding collect_fields
collect_subfields qpctx fuel return_type [] = done []
collect_subfields qpctx fuel return_type (f ∷ fields) =
    Outcome.◌>>=◌
      (collect_fields qpctx fuel (outermost return_type []) (selection_set_of f.field_node))
      (λ found.
        Outcome.◌>>=◌ (collect_subfields qpctx fuel return_type fields)
          (λ others. done (found ++ others)))

-- a new fragment, where the text of the selection set is not known
abbrev pub known_or_made :
    String
    → InternalFragment
    → Option InternalFragment
    → Planning (FragmentDefinition × SelectionSet)
known_or_made key made (some old) = return (old.definition, old.selection_set)
known_or_made key made none = λ s.
    done
      ((made.definition, made.selection_set), record s { fragments = assign key made s.fragments })

-- `getInternalFragment`, where `key` is the text of the selection set
unfoldable pub get_internal_fragment :
    String → SelectionSet → Definition → Planning (FragmentDefinition × SelectionSet)
get_internal_fragment key selections return_type = λ s.
    let name = concat ("__QueryPlanFragment_" ∷ decimal (length s.fragments) ∷ "__" ∷ []) in
    known_or_made key
      (record {
        definition = record {
          name = name;
          type_condition = return_type.name;
          selection_set = selections;
        };
        selection_set = select (fragment_spread name []) empty;
      })
      (lookup key s.fragments) s

abbrev pub add_fragments : ℕ → List FragmentDefinition → Planning (Unit {0})
add_fragments ref fragments = do
  group ← load ref
  store ref (record group { internal_fragments = group.internal_fragments ++ fragments })

-- `len(fields) > 2`
abbrev pub has_three : List Field → Bool
has_three (a ∷ b ∷ c ∷ fields) = true
has_three _ = false

module _ (qpctx : PlanningContext) (type_name : GqlType → String)
    (path_string : ResponsePath → String) (key : Scope → Option String)
    (marshal : SelectionSet → Outcome String) (fuel : ℕ) where
  -- the selection set of the completed field, or the spread of a fragment that is made of it
  unfoldable pub fragment_if_large :
      ℕ → FetchGroup → SelectionSet → Definition → Planning SelectionSet
  unfolding get_internal_fragment load store
  fragment_if_large parent_ref sub selections return_type =
      let spread = (do
        text ← lift (marshal selections)
        made ← get_internal_fragment text selections return_type
        add_fragments parent_ref (made.0 ∷ [])
        return made.1) in
      if qpctx.auto_fragmentation && has_three sub.fields then spread else return selections

  -- The group of the field's own selections begins with `__typename` if its type is abstract.
  abbrev pub first_fields : Definition → List Field
  first_fields return_type =
      if is_abstract_type return_type
      then record {
        scope = outermost return_type [];
        field_node = typename_field;
        field_def = typename_meta_field_def;
      }
        ∷ []
      else []

  -- the case of a composite type, given `splitSubfields` without its parent group
  abbrev pub complete_composite :
      (ResponsePath → List Field → ℕ → Planning (Unit {0}))
      → Scope
      → ℕ
      → ResponsePath
      → Field
      → List Field
      → Definition
      → Planning Field
  complete_composite split_subfields scope parent_ref path field fields return_type =
      let field_path = add_path path (get_response_name field.field_node) field.field_def.type in
      do
        parent ← load parent_ref
        sub_ref ← allocate (new_group parent.service_name field_path)
        provided ←
            lift (get_provided_fields qpctx fuel type_name field.field_def parent.service_name)
        made ← load sub_ref
        store sub_ref
            (record made { provided_fields = provided; fields = first_fields return_type })
        subfields ← lift (collect_subfields qpctx fuel return_type (field ∷ fields))
        split_subfields field_path subfields sub_ref
        merge_dependent_groups path_string fuel parent_ref sub_ref
        sub ← load sub_ref
        selections ←
            lift (
              selection_set_from_field_set qpctx.schema type_name key sub.fields (some return_type))
        final ← fragment_if_large parent_ref sub selections return_type
        add_fragments parent_ref sub.internal_fragments
        return
            (record field { scope = scope; field_node = with_selection_set field.field_node final })

  -- `splitSubfields`, given `completeField`
  unfoldable pub split_subfields :
      (Scope → ℕ → ResponsePath → List Field → Planning Field)
      → ResponsePath
      → List Field
      → ℕ
      → Planning (Unit {0})
  unfolding split_fields group_for_subfield
  split_subfields complete path fields parent_ref =
      split_fields qpctx type_name (group_for_subfield qpctx fuel parent_ref) complete path key
        fields

  -- `completeField`; the fuel bounds how deep the selections go
  unfoldable pub complete_field : ℕ → Scope → ℕ → ResponsePath → List Field → Planning Field
  unfolding load store allocate get_provided_fields collect_subfields merge_dependent_groups
      selection_set_from_field_set fragment_if_large is_abstract_type is_composite_type add_path
      get_response_name split_subfields
  complete_field depth scope parent_ref path [] = λ s. panicked
  complete_field zero scope parent_ref path (field ∷ fields) = λ s. exhausted
  complete_field (suc depth) scope parent_ref path (field ∷ fields) = do
    return_type ← lift (or_panic (qpctx.schema.types (type_name field.field_def.type)))
    if is_composite_type return_type
        then complete_composite (split_subfields (complete_field depth)) scope parent_ref path field
            fields return_type
        else return (record field { scope = scope })
