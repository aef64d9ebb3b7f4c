-- ===== src/Planner/Splitting/Frame/Subfields.antt =====
-- What the operations of `splitSubfields` and `completeField` on single groups keep.
use fedeway.Prelude.{
  ℕ, String, false, ◌&&◌, ◌||◌, any, Option, none, some, lookup, List, [], ◌∷◌, ◌++◌, assign, ◌==◌,
  refl, ap,
}
use fedeway.Outcome.{Outcome, done_eq}
use fedeway.Ast.{GqlType, Definition, SelectionSet, FragmentDefinition}
use fedeway.Plan.{ResponsePath}
use fedeway.Planner.Scope.{Scope}
use fedeway.Planner.Grouping.{Field}
use fedeway.Planner.FieldSets.{matches_field}
use fedeway.Planner.Context.{PlanningContext}
use fedeway.Planner.Context.Services.{get_key_fields, get_required_fields}
use fedeway.Planner.Groups.{
  FetchGroup, InternalFragment, Store, Planning, dependent_group_for_service,
}
use fedeway.Planner.Groups.Changes.{IsClosed}
use fedeway.Planner.Groups.Frame.{
  Holds, HoldsAt, bind-Holds, return-Holds, lift-Holds, if-Holds, load-Holds, refine-Holds,
  dependent_group_for_service-Holds,
}
use fedeway.Planner.Splitting.Subfields.{
  services_for, key_fields_for, has_no_key, group_for_base_field, group_through_base,
  group_for_extension_field, group_for_subfield, are_satisfied, is_nil, no_base_service,
  no_owning_service, no_keys,
}
use fedeway.Planner.Splitting.Complete.{
  known_or_made, get_internal_fragment, fragment_if_large, add_fragments, has_three,
}

module _ (P : Store → Type 0) (closed : IsClosed P) (qpctx : PlanningContext) (fuel : ℕ) where
  pub weaken {ℓ} :
      {A : Type ℓ} (ref : ℕ) (g : FetchGroup) (m : Planning A) → Holds P m → HoldsAt P ref g m
  weaken ref g m h s t a at e p = h s t a e p

  dependent-Holds :
      (fg : ℕ) (service : String) (required : List Field)
      → Holds P (dependent_group_for_service fg service required)
  dependent-Holds = dependent_group_for_service-Holds P closed

  group_for_base_field-Holds :
      (ref : ℕ) (parent : FetchGroup) (field : Field) (owning : String)
      → Holds P (group_for_base_field qpctx fuel ref parent field owning)
  unfolding group_for_base_field key_fields_for
  group_for_base_field-Holds ref parent field owning =
      if-Holds P
        (owning == parent.service_name || any (λ p. matches_field p field) parent.provided_fields) _
        _ (return-Holds P ref)
        (bind-Holds P _ _
          (bind-Holds P _ _
            (lift-Holds P (get_key_fields qpctx fuel field.scope parent.service_name false))
            (λ keys.
              if-Holds P (has_no_key keys) _ _
                (lift-Holds P (get_key_fields qpctx fuel field.scope owning false))
                (return-Holds P keys)))
          (λ keys. dependent-Holds ref owning keys))

  group_through_base-Holds :
      (ref : ℕ) (parent : FetchGroup) (field : Field) (base owning : String) (required : List Field)
      → Holds P (group_through_base qpctx fuel ref parent field base owning required)
  unfolding group_through_base
  group_through_base-Holds ref parent field base owning required =
      bind-Holds P _ _
        (lift-Holds P (get_key_fields qpctx fuel field.scope parent.service_name false))
        (λ keys. if-Holds P (is_nil keys) _ _ (lift-Holds P (no_keys field base)) (
          if-Holds P (base == parent.service_name) _ _ (dependent-Holds ref owning required) (
            bind-Holds P _ _ (dependent-Holds ref base keys)
              (λ base_ref. dependent-Holds base_ref owning required))))

  group_for_extension_field-Holds :
      (ref : ℕ) (parent : FetchGroup) (field : Field) (base owning : String)
      → Holds P (group_for_extension_field qpctx fuel ref parent field base owning)
  unfolding group_for_extension_field
  group_for_extension_field-Holds ref parent field base owning =
      bind-Holds P _ _
        (lift-Holds P (get_required_fields qpctx fuel field.scope field.field_def owning))
        (λ required.
          if-Holds P (are_satisfied required parent.provided_fields) _ _
            (if-Holds P (owning == parent.service_name) _ _ (return-Holds P ref)
              (dependent-Holds ref owning required))
            (group_through_base-Holds ref parent field base owning required))

  pub group_for_subfield-Holds :
      (ref : ℕ) (field : Field) → Holds P (group_for_subfield qpctx fuel ref field)
  unfolding group_for_subfield
  group_for_subfield-Holds ref field = load-Holds P ref _ (λ parent. weaken ref parent _ (
      bind-Holds P _ _ (lift-Holds P (services_for qpctx fuel parent field)) (λ services.
        if-Holds P (services.0 == "") _ _ (lift-Holds P (no_base_service field)) (
          if-Holds P (services.1 == "") _ _ (lift-Holds P (no_owning_service field)) (
            if-Holds P (services.1 == services.0) _ _
              (group_for_base_field-Holds ref parent field services.1)
              (group_for_extension_field-Holds ref parent field services.0 services.1))))))

  pub add_fragments-Holds :
      (ref : ℕ) (fragments : List FragmentDefinition) → Holds P (add_fragments ref fragments)
  add_fragments-Holds ref fragments =
      refine-Holds P closed ref
        (λ group. record group { internal_fragments = group.internal_fragments ++ fragments })
        (λ g. (refl, refl, refl))

  known_or_made-Holds :
      (text : String) (made : InternalFragment) (o : Option InternalFragment)
      → Holds P (known_or_made text made o)
  known_or_made-Holds text made (some old) = return-Holds P (old.definition, old.selection_set)
  known_or_made-Holds text made none = λ s t a e p.
      rw (← ap (λ (r : (FragmentDefinition × SelectionSet) × Store). r.1) (done_eq e))
        (closed.known s (assign text made s.fragments) p)

  get_internal_fragment-Holds :
      (text : String) (selections : SelectionSet) (return_type : Definition)
      → Holds P (get_internal_fragment text selections return_type)
  unfolding get_internal_fragment
  get_internal_fragment-Holds text selections return_type s t a e p =
      known_or_made-Holds text _ (lookup text s.fragments) s t a e p

  module _ (type_name : GqlType → String) (path_string : ResponsePath → String)
      (key : Scope → Option String) (marshal : SelectionSet → Outcome String) where
    pub fragment_if_large-Holds :
        (ref : ℕ) (sub : FetchGroup) (selections : SelectionSet) (return_type : Definition)
        → Holds P (
            fragment_if_large qpctx type_name path_string key marshal fuel ref sub selections
              return_type)
    unfolding fragment_if_large
    fragment_if_large-Holds ref sub selections return_type =
        if-Holds P (qpctx.auto_fragmentation && has_three sub.fields) _ _
          (bind-Holds P _ _ (lift-Holds P (marshal selections)) (λ text.
            bind-Holds P _ _ (get_internal_fragment-Holds text selections return_type) (λ made.
              bind-Holds P _ _ (add_fragments-Holds ref (made.0 ∷ []))
                (λ u. return-Holds P made.1))))
          (return-Holds P selections)
