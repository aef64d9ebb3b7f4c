-- ===== src/Planner/Splitting/Safe/Subfields.antt =====
-- The group of a field in `splitSubfields`, on levels below the bound.
use fedeway.Prelude.{
  ℕ, suc, ◌<◌, ◌+◌, String, false, ◌||◌, not, any, List, some, ◌==◌, inl, inr, ◌⊎◌, Bool-cases, ◌≡◌,
  refl, arith,
}
use fedeway.Outcome.{Outcome, done, failed, panicked, exhausted, Ends}
use fedeway.Planner.Scope.{Scope, parent_type}
use fedeway.Planner.Grouping.{Field}
use fedeway.Planner.FieldSets.{matches_field}
use fedeway.Planner.Context.{PlanningContext}
use fedeway.Planner.Context.Fuel.{IsRanked}
use fedeway.Planner.Context.Services.{get_owning_service, get_key_fields, get_required_fields}
use fedeway.Planner.Context.Services.Ends.{
  HasKnownSpreads, get_owning_service-Ends, get_key_fields-Ends, get_required_fields-Ends,
}
use fedeway.Planner.Groups.{FetchGroup, return, lift, at_index, dependent_group_for_service}
use fedeway.Planner.Groups.Levels.{Links}
use fedeway.Planner.Splitting.{is_object}
use fedeway.Planner.Splitting.Subfields.{
  is_value_type, services_for, key_fields_for, has_no_key, group_for_base_field, group_through_base,
  group_for_extension_field, group_for_subfield, are_satisfied, is_nil, no_base_service,
  no_owning_service, no_keys,
}
use fedeway.Planner.Splitting.Safe.{
  at-Grows, Grows-trans, IsAtMost, Safe, Anything, bind-Safe, return-Safe, lift-Safe, if-Safe,
}
use fedeway.Planner.Splitting.Safe.Groups.{load-Safe, dependent_group_for_service-Safe}

Outcome-cases :
    {A : Type 0} (o : Outcome A)
    → Ends o
    → ((a : A) × (o ≡ done a)) ⊎ (((m : String) × (o ≡ failed m)) ⊎ (o ≡ panicked))
Outcome-cases (done a) h = inl (a, refl)
Outcome-cases (failed m) h = inr (inl (m, refl))
Outcome-cases panicked h = inr (inr refl)
Outcome-cases exhausted h = cc

module _ (qpctx : PlanningContext) (rank : String → ℕ) (ranked : IsRanked qpctx rank) (fuel : ℕ)
    (known : HasKnownSpreads qpctx rank fuel) (bound : ℕ) where
  keys-Ends :
      (scope : Scope) (service : String) → Ends (get_key_fields qpctx fuel scope service false)
  keys-Ends scope service = get_key_fields-Ends qpctx rank ranked fuel known scope service false

  services_for-Ends :
      (group : FetchGroup) (field : Field) → Ends (services_for qpctx fuel group field)
  unfolding services_for
  services_for-Ends group field =
      let parent = parent_type field.scope in
      let plain = not (is_object parent.kind) || is_value_type qpctx fuel parent in
      let owner =
        Outcome-cases (get_owning_service qpctx parent field.field_def)
          (get_owning_service-Ends qpctx parent field.field_def) in
      elim (Bool-cases plain) [
        | inl t ↦ rw t refl
        | inr t ↦ elim owner [
          | inl (a, e) ↦ rw (t, e) refl
          | inr (inl (m, e)) ↦ rw (t, e) refl
          | inr (inr e) ↦ rw (t, e) refl
        ]
      ]

  key_fields_for-Safe :
      (ls : List ℕ) (scope : Scope) (service owning : String)
      → Safe bound ls (Anything bound) (key_fields_for qpctx fuel scope service owning)
  unfolding key_fields_for
  key_fields_for-Safe ls scope service owning =
      bind-Safe bound ls (Anything bound) (Anything bound) _ _
        (lift-Safe bound ls (λ keys. Unit {0}) (get_key_fields qpctx fuel scope service false)
          (keys-Ends scope service) (λ keys e. tt))
        (λ ms g keys _.
          if-Safe bound ms (Anything bound) (has_no_key keys) _ _
            (lift-Safe bound ms (λ keys. Unit {0}) (get_key_fields qpctx fuel scope owning false)
              (keys-Ends scope owning) (λ keys e. tt))
            (return-Safe bound ms (Anything bound) keys tt))

  module _ (ref l : ℕ) (room : l + 2 < bound) where
    self-Safe :
        (ls : List ℕ) → at_index ref ls ≡ some l → Safe bound ls (IsAtMost (l + 2)) (return ref)
    self-Safe ls at = return-Safe bound ls (IsAtMost (l + 2)) ref (l, at, omega arith)

    failed-Safe :
        (ls : List ℕ) (o : Outcome ℕ)
        → Ends o
        → ((a : ℕ) → o ≡ done a → ⊥)
        → Safe bound ls (IsAtMost (l + 2)) (lift o)
    failed-Safe ls o ends fails s p =
        let (e, post) = lift-Safe bound ls (λ a. ⊥) o ends fails s p in
        (e, λ t a eq. let (ms, g, q, never) = post t a eq in absurd never)

    -- the dependent group of the parent
    next-Safe :
        (ls : List ℕ) (service : String) (required : List Field)
        → at_index ref ls ≡ some l
        → Safe bound ls (IsAtMost (l + 2)) (dependent_group_for_service ref service required)
    next-Safe ls service required at s p =
        let (e, post) =
          dependent_group_for_service-Safe bound ls ref l service required at (omega (arith, room))
            s p in
        (e, λ t a eq. let (ms, g, q, here) = post t a eq in (ms, g, q, (suc l, here, omega arith)))

    group_for_base_field-Safe :
        (ls : List ℕ) (parent : FetchGroup) (field : Field) (owning : String)
        → at_index ref ls ≡ some l
        → Safe bound ls (IsAtMost (l + 2)) (group_for_base_field qpctx fuel ref parent field owning)
    unfolding group_for_base_field
    group_for_base_field-Safe ls parent field owning at =
        if-Safe bound ls (IsAtMost (l + 2))
          (owning == parent.service_name || any (λ p. matches_field p field) parent.provided_fields)
          _ _ (self-Safe ls at)
          (bind-Safe bound ls (Anything bound) (IsAtMost (l + 2)) _ _
            (key_fields_for-Safe ls field.scope parent.service_name owning)
            (λ ms g keys _. next-Safe ms owning keys (at-Grows ls ms ref l g at)))

    group_through_base-Safe :
        (ls : List ℕ) (parent : FetchGroup) (field : Field) (base owning : String)
        (required : List Field)
        → at_index ref ls ≡ some l
        → Safe bound ls
            (IsAtMost (l + 2))
            (group_through_base qpctx fuel ref parent field base owning required)
    unfolding group_through_base
    group_through_base-Safe ls parent field base owning required at =
        bind-Safe bound ls (Anything bound) (IsAtMost (l + 2)) _ _
          (lift-Safe bound ls (λ keys. Unit {0})
            (get_key_fields qpctx fuel field.scope parent.service_name false)
            (keys-Ends field.scope parent.service_name) (λ keys e. tt))
          (λ ms g keys _.
            let here = at-Grows ls ms ref l g at in
            if-Safe bound ms (IsAtMost (l + 2)) (is_nil keys) _ _
              (failed-Safe ms (no_keys field base) refl (λ a e. cc))
              (if-Safe bound ms (IsAtMost (l + 2)) (base == parent.service_name) _ _
                (next-Safe ms owning required here)
                (bind-Safe bound ms (λ ns r. at_index r ns ≡ some (suc l)) (IsAtMost (l + 2)) _ _
                  (dependent_group_for_service-Safe bound ms ref l base keys here
                    (omega (arith, room)))
                  (λ ns g2 base_ref there s p.
                    let (e, post) =
                      dependent_group_for_service-Safe bound ns base_ref (suc l) owning required
                        there (omega (arith, room)) s p in
                    (
                      e,
                      λ t a eq.
                          let (os, g3, q, last) = post t a eq in
                          (os, g3, q, (suc (suc l), last, omega arith)),
                    )))))

    group_for_extension_field-Safe :
        (ls : List ℕ) (parent : FetchGroup) (field : Field) (base owning : String)
        → at_index ref ls ≡ some l
        → Safe bound ls
            (IsAtMost (l + 2))
            (group_for_extension_field qpctx fuel ref parent field base owning)
    unfolding group_for_extension_field
    group_for_extension_field-Safe ls parent field base owning at =
        bind-Safe bound ls (Anything bound) (IsAtMost (l + 2)) _ _
          (lift-Safe bound ls (λ fields. Unit {0})
            (get_required_fields qpctx fuel field.scope field.field_def owning)
            (get_required_fields-Ends qpctx rank ranked fuel known field.scope field.field_def
              owning)
            (λ fields e. tt))
          (λ ms g required _.
            let here = at-Grows ls ms ref l g at in
            if-Safe bound ms (IsAtMost (l + 2)) (are_satisfied required parent.provided_fields) _ _
              (if-Safe bound ms (IsAtMost (l + 2)) (owning == parent.service_name) _ _
                (self-Safe ms here) (next-Safe ms owning required here))
              (group_through_base-Safe ms parent field base owning required here))

    pub group_for_subfield-Safe :
        (ls : List ℕ) (field : Field)
        → at_index ref ls ≡ some l
        → Safe bound ls (IsAtMost (l + 2)) (group_for_subfield qpctx fuel ref field)
    unfolding group_for_subfield
    group_for_subfield-Safe ls field at =
        bind-Safe bound ls (λ ms g. Links ms (suc l) g) (IsAtMost (l + 2)) _ _
          (load-Safe bound ls ref l at)
          (λ ms g parent links.
            bind-Safe bound ms (Anything bound) (IsAtMost (l + 2)) _ _
              (lift-Safe bound ms (λ r. Unit {0}) (services_for qpctx fuel parent field)
                (services_for-Ends parent field) (λ r e. tt))
              (λ ns g2 services _.
                let here = at-Grows ls ns ref l (Grows-trans ls ms ns g g2) at in
                if-Safe bound ns (IsAtMost (l + 2)) (services.0 == "") _ _
                  (failed-Safe ns (no_base_service field) refl (λ a e. cc))
                  (if-Safe bound ns (IsAtMost (l + 2)) (services.1 == "") _ _
                    (failed-Safe ns (no_owning_service field) refl (λ a e. cc))
                    (if-Safe bound ns (IsAtMost (l + 2)) (services.1 == services.0) _ _
                      (group_for_base_field-Safe ns parent field services.1 here)
                      (group_for_extension_field-Safe ns parent field services.0 services.1
                        here)))))
