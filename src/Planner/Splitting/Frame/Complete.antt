-- ===== src/Planner/Splitting/Frame/Complete.antt =====
-- What `completeField` and `splitSubfields` keep.
use fedeway.Prelude.{ℕ, zero, suc, String, Option, some, List, [], ◌∷◌, ◌++◌, refl, length, ◌≡◌}
use fedeway.Outcome.{Outcome, done, or_panic}
use fedeway.Ast.{GqlType, Definition, SelectionSet}
use fedeway.Plan.{ResponsePath}
use fedeway.Planner.Scope.{Scope}
use fedeway.Planner.Grouping.{Field, get_response_name}
use fedeway.Planner.Splitting.{add_path}
use fedeway.Planner.FieldSets.{is_composite_type, selection_set_from_field_set}
use fedeway.Planner.Context.{PlanningContext}
use fedeway.Planner.Context.Services.{get_provided_fields}
use fedeway.Planner.Groups.{
  FetchGroup, Store, Planning, at_index, allocate, new_group, merge_dependent_groups,
}
use fedeway.Planner.Splitting.Frame.Subfields.{
  weaken, group_for_subfield-Holds, add_fragments-Holds, fragment_if_large-Holds,
}
use fedeway.Planner.Groups.Changes.{IsClosed, Keeps-IsClosed, allocate-Keeps, Keeps}
use fedeway.Planner.Groups.Frame.{
  bind-Leads, bind-LeadsAt, load-Leads, Holds, bind-Holds, return-Holds, lift-Holds, if-Holds,
  load-Holds, store-HoldsAt,
}
use fedeway.Planner.Groups.Frame.Merging.{merge_dependent_groups-Holds}
use fedeway.Planner.Splitting.Subfields.{group_for_subfield}
use fedeway.Planner.Splitting.Complete.{
  collect_subfields, complete_composite, split_subfields, complete_field,
}
use fedeway.Planner.Splitting.Frame.{split_fields-Holds}

-- What `mergeDependentGroups` must keep where a field was completed: of each index `i` of the
-- predicate, some index `j` holds once the group of the field's selections is made, until that
-- group's dependent groups are merged.
abbrev pub Nests : {I : Type 0} → (I → Store → Type 0) → (ResponsePath → String) → Type 0
Nests {I = I} P path_string =
    (i : I) (s : Store) (ref : ℕ) (parent : FetchGroup) (path : ResponsePath)
    → at_index ref s.groups ≡ some parent
    → P i s
    → (j : I) × P j (record s { groups = s.groups ++ new_group parent.service_name path ∷ [] })
      × ((fuel : ℕ) (t u : Store) (v : Unit {0})
          → merge_dependent_groups path_string fuel ref (length s.groups) t ≡ done (v, u)
          → P j t
          → P i u)

module _ {I : Type 0} (P : I → Store → Type 0) (closed : (i : I) → IsClosed (P i))
    (path_string : ResponsePath → String) (nests : Nests P path_string) (qpctx : PlanningContext)
    (fuel : ℕ) (type_name : GqlType → String) (key : Scope → Option String)
    (marshal : SelectionSet → Outcome String) where
  complete_composite-Holds :
      (split : ResponsePath → List Field → ℕ → Planning (Unit {0}))
      → ((i : I) (path : ResponsePath) (fields : List Field) (ref : ℕ)
          → Holds (P i) (split path fields ref))
      → (i : I) (scope : Scope) (parent_ref : ℕ) (path : ResponsePath) (field : Field)
        (fields : List Field) (return_type : Definition)
      → Holds (P i) (
          complete_composite qpctx type_name path_string key marshal fuel split scope parent_ref
            path field fields return_type)
  unfolding allocate
  complete_composite-Holds split h i scope parent_ref path field fields return_type =
      load-Holds (P i) parent_ref _ (λ parent s t a at e p.
        let field_path = add_path path (get_response_name field.field_node) field.field_def.type in
        let (j, made_holds, merges) = nests i s parent_ref parent field_path at p in
        let sub_ref = length s.groups in
        bind-Leads (P j) (P j) (P i) _ _
          (lift-Holds (P j)
            (get_provided_fields qpctx fuel type_name field.field_def parent.service_name))
          (λ provided. load-Leads (P j) (P i) sub_ref _ (λ made.
            bind-LeadsAt (P j) (P i) sub_ref made _ _
              (store-HoldsAt (P j) (closed j) sub_ref made _ (refl, refl, refl))
              (λ u.
                bind-Leads (P j) (P j) (P i) _ _
                  (lift-Holds (P j) (collect_subfields qpctx fuel return_type (field ∷ fields)))
                  (λ subfields.
                    bind-Leads (P j) (P j) (P i) _ _ (h j field_path subfields sub_ref) (λ v.
                      bind-Leads (P j) (P i) (P i) _ _ (merges fuel) (λ w.
                        load-Holds (P i) sub_ref _ (λ sub.
                          weaken (P i) (closed i) qpctx fuel sub_ref sub _ (
                            bind-Holds (P i) _ _
                              (lift-Holds (P i) (
                                selection_set_from_field_set qpctx.schema type_name key sub.fields
                                  (some return_type)))
                              (λ selections.
                                bind-Holds (P i) _ _
                                  (fragment_if_large-Holds (P i) (closed i) qpctx fuel type_name
                                    path_string key marshal parent_ref sub selections return_type)
                                  (λ final.
                                    bind-Holds (P i) _ _
                                      (add_fragments-Holds (P i) (closed i) qpctx fuel parent_ref
                                        sub.internal_fragments)
                                      (λ x. return-Holds (P i) _)))))))))))
          _ t a e made_holds)

  split_subfields-Holds :
      (complete : Scope → ℕ → ResponsePath → List Field → Planning Field)
      → ((i : I) (scope : Scope) (ref : ℕ) (path : ResponsePath) (fields : List Field)
          → Holds (P i) (complete scope ref path fields))
      → (i : I) (path : ResponsePath) (fields : List Field) (ref : ℕ)
      → Holds
          (P i)
          (split_subfields qpctx type_name path_string key marshal fuel complete path fields ref)
  unfolding split_subfields
  split_subfields-Holds complete h i path fields ref =
      split_fields-Holds (P i) (closed i) qpctx type_name (group_for_subfield qpctx fuel ref)
        complete path (group_for_subfield-Holds (P i) (closed i) qpctx fuel ref) (h i) key fields

  pub complete_field-Holds :
      (depth : ℕ) (i : I) (scope : Scope) (ref : ℕ) (path : ResponsePath) (fields : List Field)
      → Holds
          (P i)
          (complete_field qpctx type_name path_string key marshal fuel depth scope ref path fields)
  unfolding complete_field
  complete_field-Holds depth i scope ref path [] = λ s t a e p. cc
  complete_field-Holds zero i scope ref path (field ∷ fields) = λ s t a e p. cc
  complete_field-Holds (suc depth) i scope ref path (field ∷ fields) =
      bind-Holds (P i) _ _
        (lift-Holds (P i) (or_panic (qpctx.schema.types (type_name field.field_def.type))))
        (λ return_type.
          if-Holds (P i) (is_composite_type return_type) _ _
            (complete_composite-Holds _
              (split_subfields-Holds
                (complete_field qpctx type_name path_string key marshal fuel depth)
                (complete_field-Holds depth))
              i scope ref path field fields return_type)
            (return-Holds (P i) _))

-- A predicate that survives every change which keeps the services of the groups.
pub complete_field-Keeps :
    (P : Store → Type 0)
    → ((s t : Store) → Keeps s t → P s → P t)
    → (qpctx : PlanningContext) (fuel : ℕ) (type_name : GqlType → String)
      (path_string : ResponsePath → String) (key : Scope → Option String)
      (marshal : SelectionSet → Outcome String) (depth : ℕ) (scope : Scope) (ref : ℕ)
      (path : ResponsePath) (fields : List Field)
    → Holds P
        (complete_field qpctx type_name path_string key marshal fuel depth scope ref path fields)
complete_field-Keeps P closed qpctx fuel type_name path_string key marshal depth scope ref path
      fields =
    complete_field-Holds {I = Unit {0}} (λ i. P) (λ i. Keeps-IsClosed P closed) path_string
      (λ i s at_ref parent at_path at p. (
        tt,
        closed s _ (allocate-Keeps s (new_group parent.service_name at_path)) p,
        λ merge_fuel.
            merge_dependent_groups-Holds P closed path_string merge_fuel at_ref (length s.groups),
      ))
      qpctx fuel type_name key marshal depth tt scope ref path fields
