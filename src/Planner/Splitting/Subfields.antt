-- ===== src/Planner/Splitting/Subfields.antt =====
-- `splitSubfields`: the group from which a field below the root is fetched, through a dependent
-- group of the parent, and of the base service's group, where the parent cannot answer.
use fedeway.Prelude.{
  ℕ, String, Bool, true, false, ◌||◌, not, none, some, List, [], ◌∷◌, any, all, ◌==◌, if◌then◌else◌,
  concat,
}
use fedeway.Outcome.{Outcome, done, failed}
use fedeway.Planner.Splitting.{is_object}
use fedeway.Ast.{Definition}
use fedeway.Planner.Scope.{Scope, parent_type}
use fedeway.Planner.Grouping.{Field}
use fedeway.Planner.FieldSets.{matches_field}
use fedeway.Planner.Context.{PlanningContext}
use fedeway.Planner.Context.Services.{
  metadata_for_type, get_base_service, get_owning_service, get_key_fields, get_required_fields,
}
use fedeway.Planner.Groups.{
  FetchGroup, Planning, ◌>>=◌, return, lift, load, dependent_group_for_service,
}

-- only `__typename` was found
abbrev pub has_no_key : List Field → Bool
has_no_key [] = true
has_no_key (f ∷ []) = f.field_def.name == "__typename"
has_no_key (f ∷ g ∷ fields) = false

abbrev pub is_nil : List Field → Bool
is_nil [] = true
is_nil (f ∷ fields) = false

-- Every required field matches a provided one.
unfoldable pub are_satisfied : List Field → List Field → Bool
unfolding matches_field
are_satisfied required provided = all (λ r. any (λ p. matches_field r p) provided) required

-- the three errors
abbrev pub no_base_service : Field → Outcome ℕ
no_base_service field =
    failed (
      concat
        ("couldn't find base service for type \"" ∷ (parent_type field.scope).name ∷ "\"" ∷ []))

abbrev pub no_owning_service : Field → Outcome ℕ
no_owning_service field = failed (
    concat (
      "couldn't find owning service for field \""
      ∷ (parent_type field.scope).name
      ∷ "."
      ∷ field.field_def.name
      ∷ "\""
      ∷ []))

abbrev pub no_keys : Field → String → Outcome ℕ
no_keys field base = failed (
    concat (
      "couldn't find keys for type \""
      ∷ (parent_type field.scope).name
      ∷ "\" in service \""
      ∷ base
      ∷ "\""
      ∷ []))

module _ (qpctx : PlanningContext) (fuel : ℕ) where
  abbrev pub is_value_type : Definition → Bool
  is_value_type parent = elim (metadata_for_type qpctx parent) [
    | none ↦ false
    | some meta ↦ meta.is_value_type
  ]

  -- the base service and the owning service of a field
  unfoldable pub services_for : FetchGroup → Field → Outcome (String × String)
  unfolding get_base_service get_owning_service
  services_for group field =
      let parent = parent_type field.scope in
      let owned =
        bind_done (get_owning_service qpctx parent field.field_def)
          (λ owning. (get_base_service qpctx parent, owning)) in
      if not (is_object parent.kind) || is_value_type parent
      then done (group.service_name, group.service_name)
      else owned
    where
      bind_done : Outcome String → (String → String × String) → Outcome (String × String)
      bind_done (done a) f = done (f a)
      bind_done (failed m) f = failed m
      bind_done Outcome.panicked f = Outcome.panicked
      bind_done Outcome.exhausted f = Outcome.exhausted

  -- the key fields in the parent's service, or the owning service's where the parent has no key
  unfoldable pub key_fields_for : Scope → String → String → Planning (List Field)
  unfolding get_key_fields
  key_fields_for scope service owning = do
    keys ← lift (get_key_fields qpctx fuel scope service false)
    if has_no_key keys then lift (get_key_fields qpctx fuel scope owning false) else return keys

  -- a field of the base service
  unfoldable pub group_for_base_field : ℕ → FetchGroup → Field → String → Planning ℕ
  unfolding matches_field key_fields_for dependent_group_for_service
  group_for_base_field parent_ref parent field owning =
      let through_keys = (do
        keys ← key_fields_for field.scope parent.service_name owning
        dependent_group_for_service parent_ref owning keys) in
      if owning == parent.service_name || any (λ p. matches_field p field) parent.provided_fields
      then return parent_ref
      else through_keys

  -- an extension field whose required fields the parent cannot provide
  unfoldable pub group_through_base :
      ℕ → FetchGroup → Field → String → String → List Field → Planning ℕ
  unfolding get_key_fields dependent_group_for_service
  group_through_base parent_ref parent field base owning required = do
    keys ← lift (get_key_fields qpctx fuel field.scope parent.service_name false)
    let through_both = do
      base_ref ← dependent_group_for_service parent_ref base keys
      dependent_group_for_service base_ref owning required
    if is_nil keys
        then lift (no_keys field base)
        else if base == parent.service_name
        then dependent_group_for_service parent_ref owning required
        else through_both

  -- an extension field
  unfoldable pub group_for_extension_field : ℕ → FetchGroup → Field → String → String → Planning ℕ
  unfolding get_required_fields are_satisfied group_through_base dependent_group_for_service
  group_for_extension_field parent_ref parent field base owning = do
    required ← lift (get_required_fields qpctx fuel field.scope field.field_def owning)
    if are_satisfied required parent.provided_fields
        then if owning == parent.service_name
          then return parent_ref
          else dependent_group_for_service parent_ref owning required
        else group_through_base parent_ref parent field base owning required

  -- the function that `splitSubfields` passes to `splitFields`
  unfoldable pub group_for_subfield : ℕ → Field → Planning ℕ
  unfolding load services_for group_for_base_field group_for_extension_field
  group_for_subfield parent_ref field = do
    parent ← load parent_ref
    services ← lift (services_for parent field)
    let base = services.0
    let owning = services.1
    if base == ""
        then lift (no_base_service field)
        else if owning == ""
        then lift (no_owning_service field)
        else if owning == base
        then group_for_base_field parent_ref parent field owning
        else group_for_extension_field parent_ref parent field base owning
