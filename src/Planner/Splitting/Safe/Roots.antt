-- ===== src/Planner/Splitting/Safe/Roots.antt =====
-- `splitRootFields` and `splitRootFieldsSerially`, on levels below the bound.
use fedeway.Prelude.{
  ℕ, zero, suc, ◌<◌, ◌≤◌, ◌+◌, String, Bool, true, false, Option, none, some, some_eq, List, [],
  ◌∷◌, ◌++◌, lookup, assign, All-append, ◌==◌, ◌≡◌, refl, ap, subst, arith,
}
use fedeway.Outcome.{Outcome, done, Ends, done_eq}
use fedeway.Ast.{GqlType, SelectionSet}
use fedeway.Plan.{ResponsePath}
use fedeway.Planner.Scope.{Scope, parent_type}
use fedeway.Planner.Grouping.{Field}
use fedeway.Planner.Context.{PlanningContext}
use fedeway.Planner.Context.Fuel.{IsRanked}
use fedeway.Planner.Context.Depth.{FieldFits, HasDepths}
use fedeway.Planner.Context.Services.{get_owning_service}
use fedeway.Planner.Context.Services.Ends.{HasKnownSpreads, get_owning_service-Ends}
use fedeway.Planner.Groups.{Store, Planning, at_index}
use fedeway.Planner.Groups.Levels.{AreOf, Links, All-references_assign, All-references_sort}
use fedeway.Planner.Splitting.{split_fields}
use fedeway.Planner.Splitting.Complete.{complete_field}
use fedeway.Planner.Splitting.Roots.{
  append_group, last, last_or_new, group_in_order, known_or_new, group_for_service,
  group_for_root_field, split_root_fields, split_root_fields_serially,
}
use fedeway.Planner.Splitting.Roots.Levels.{split_groups}
use fedeway.Planner.Splitting.Safe.{
  Grows, Grows-refl, at-Grows, IsAtMost, IsBelow, Safe, Anything, bind-Safe, return-Safe, lift-Safe,
  if-Safe,
}
use fedeway.Planner.Splitting.Safe.Groups.{load-Safe, allocate-Safe, lookup-AreOf}
use fedeway.Planner.Splitting.Safe.Fields.{split_fields-Safe}
use fedeway.Planner.Splitting.Safe.Complete.{complete_field-Safe}
use fedeway.Planner.Splitting.Safe.Parts.{FitsBelow}

last-AreOf :
    (ls : List ℕ) (refs : List ℕ) (ref : ℕ)
    → AreOf ls zero refs
    → last refs ≡ some ref
    → at_index ref ls ≡ some zero
last-AreOf ls [] ref h e = cc
last-AreOf ls (x ∷ []) ref h e = subst (λ r. at_index r ls ≡ some zero) (some_eq e) h.0
last-AreOf ls (x ∷ y ∷ xs) ref h e = last-AreOf ls (y ∷ xs) ref h.1 e

module _ (bound : ℕ) (positive : zero < bound) where
  -- The root group is put into one of the lists of root groups.
  listed :
      (s t : Store) (ls ms : List ℕ) (a ref : ℕ)
      → ◌≡◌ {A = Outcome (ℕ × Store)} (done (a, s)) (done (ref, t))
      → Grows ls ms
      → IsBelow bound ms s
      → at_index a ms ≡ some zero
      → (ns : List ℕ) × Grows ls ns × IsBelow bound ns t × IsAtMost zero ns ref
  listed s t ls ms a ref e grows p at =
      let same = done_eq e in
      (
        ms,
        grows,
        subst (IsBelow bound ms) (ap (λ (r : ℕ × Store). r.1) same) p,
        (
          zero,
          subst (λ r. at_index r ms ≡ some zero) (ap (λ (r : ℕ × Store). r.0) same) at,
          omega arith,
        ),
      )

  append_group-Safe :
      (ls : List ℕ) (service : String) → Safe bound ls (IsAtMost zero) (append_group service)
  unfolding append_group
  append_group-Safe ls service =
      bind-Safe bound ls (λ ms r. at_index r ms ≡ some zero) (IsAtMost zero) _ _
        (allocate-Safe bound ls zero service [] (omega arith) positive)
        (λ ms g ref at s p. (
          refl,
          λ t a e.
              listed (record s { root_groups = s.root_groups ++ ref ∷ [] }) t ms ms ref a e
                (Grows-refl ms)
                (
                  p.0,
                  p.1,
                  (
                    All-append (λ r. at_index r ms ≡ some zero) s.root_groups (ref ∷ []) p.2.0
                        (at, tt),
                    p.2.1,
                  ),
                )
                at,
        ))

  last_or_new-Safe :
      (ls : List ℕ) (service : String) (o : Option ℕ)
      → ((ref : ℕ) → o ≡ some ref → at_index ref ls ≡ some zero)
      → Safe bound ls (IsAtMost zero) (last_or_new service o)
  last_or_new-Safe ls service none h = append_group-Safe ls service
  last_or_new-Safe ls service (some ref) h =
      bind-Safe bound ls (λ ms g. Links ms (suc zero) g) (IsAtMost zero) _ _
        (load-Safe bound ls ref zero (h ref refl))
        (λ ms g group links.
          if-Safe bound ms (IsAtMost zero) (group.service_name == service) _ _
            (return-Safe bound ms (IsAtMost zero) ref
              (zero, at-Grows ls ms ref zero g (h ref refl), omega arith))
            (append_group-Safe ms service))

  group_in_order-Safe :
      (ls : List ℕ) (service : String) → Safe bound ls (IsAtMost zero) (group_in_order service)
  unfolding group_in_order
  group_in_order-Safe ls service s p =
      last_or_new-Safe ls service (last s.root_groups)
        (λ ref e. last-AreOf ls s.root_groups ref p.2.0 e) s p

  known_or_new-Safe :
      (ls : List ℕ) (service : String) (o : Option ℕ)
      → ((ref : ℕ) → o ≡ some ref → at_index ref ls ≡ some zero)
      → Safe bound ls (IsAtMost zero) (known_or_new service o)
  known_or_new-Safe ls service (some ref) h =
      return-Safe bound ls (IsAtMost zero) ref (zero, h ref refl, omega arith)
  known_or_new-Safe ls service none h =
      bind-Safe bound ls (λ ms r. at_index r ms ≡ some zero) (IsAtMost zero) _ _
        (allocate-Safe bound ls zero service [] (omega arith) positive)
        (λ ms g ref at s p. (
          refl,
          λ t a e.
              listed
                (record s { root_groups_by_service = assign service ref s.root_groups_by_service })
                t ms ms ref a e (Grows-refl ms)
                (
                  p.0,
                  p.1,
                  (
                    p.2.0,
                    All-references_assign (λ r. at_index r ms ≡ some zero) service ref
                        s.root_groups_by_service at p.2.1,
                  ),
                )
                at,
        ))

  group_for_service-Safe :
      (ls : List ℕ) (service : String) → Safe bound ls (IsAtMost zero) (group_for_service service)
  unfolding group_for_service
  group_for_service-Safe ls service s p =
      known_or_new-Safe ls service (lookup service s.root_groups_by_service)
        (λ ref e. lookup-AreOf ls zero service s.root_groups_by_service ref p.2.1 e) s p

  group_for_root_field-Safe :
      (qpctx : PlanningContext) (group_for : String → Planning ℕ)
      → ((ls : List ℕ) (service : String) → Safe bound ls (IsAtMost zero) (group_for service))
      → (ls : List ℕ) (field : Field)
      → Safe bound ls (IsAtMost zero) (group_for_root_field qpctx group_for field)
  unfolding group_for_root_field
  group_for_root_field-Safe qpctx group_for h ls field =
      bind-Safe bound ls (Anything bound) (IsAtMost zero) _ _
        (lift-Safe bound ls (λ x. Unit {0})
          (get_owning_service qpctx (parent_type field.scope) field.field_def)
          (get_owning_service-Ends qpctx (parent_type field.scope) field.field_def) (λ x e. tt))
        (λ ms g owning _.
          if-Safe bound ms (IsAtMost zero) (owning == "") _ _ (λ s p. (refl, λ t a e. cc))
            (h ms owning))

  module _ (qpctx : PlanningContext) (rank depth : String → ℕ) (ranked : IsRanked qpctx rank)
      (fuel : ℕ) (depths : HasDepths qpctx rank depth fuel)
      (known : HasKnownSpreads qpctx rank fuel) (enough : bound ≤ fuel)
      (type_name : GqlType → String) (path_string : ResponsePath → String)
      (key : Scope → Option String) (marshal : SelectionSet → Outcome String)
      (marshals : (selections : SelectionSet) → Ends (marshal selections)) (n d : ℕ) (deep : d ≤ n)
      (room : d + d < bound) (fields : List Field)
      (fit : FitsBelow qpctx rank depth ranked fuel depths known d fields) where
    split_roots-Safe :
        (group_for : String → Planning ℕ)
        → ((ls : List ℕ) (service : String) → Safe bound ls (IsAtMost zero) (group_for service))
        → Safe bound [] (Anything bound) (
            split_fields qpctx type_name
              (group_for_root_field qpctx group_for)
              (complete_field qpctx type_name path_string key marshal fuel n)
              []
              key
              fields)
    split_roots-Safe group_for h =
        split_fields-Safe qpctx type_name bound zero (FieldFits qpctx rank depth fuel d)
          (λ f def x. x) (group_for_root_field qpctx group_for)
          (complete_field qpctx type_name path_string key marshal fuel n) [] []
          (λ ms g f. group_for_root_field-Safe qpctx group_for h ms f)
          (λ ms scope ref fs low fits.
            complete_field-Safe qpctx rank depth ranked fuel depths known bound enough type_name
              path_string key marshal marshals n d zero ms scope ref [] fs deep
              (omega (arith, room)) low fits)
          key fields fit

    pub split_groups-Safe :
        (serially : Bool)
        → Safe bound []
            (λ ms refs. AreOf ms zero refs)
            (split_groups qpctx type_name path_string key marshal fuel n fields serially)
    unfolding split_root_fields split_root_fields_serially
    split_groups-Safe true =
        bind-Safe bound [] (Anything bound) (λ ms refs. AreOf ms zero refs) _ _
          (split_roots-Safe group_in_order group_in_order-Safe)
          (λ ms g u _ s p. (
            refl,
            λ t refs e.
                let same = done_eq e in
                (
                  ms,
                  Grows-refl ms,
                  subst (IsBelow bound ms) (ap (λ (r : List ℕ × Store). r.1) same) p,
                  subst (AreOf ms zero) (ap (λ (r : List ℕ × Store). r.0) same) p.2.0,
                ),
          ))
    split_groups-Safe false =
        bind-Safe bound [] (Anything bound) (λ ms refs. AreOf ms zero refs) _ _
          (split_roots-Safe group_for_service group_for_service-Safe)
          (λ ms g u _ s p. (
            refl,
            λ t refs e.
                let same = done_eq e in
                (
                  ms,
                  Grows-refl ms,
                  subst (IsBelow bound ms) (ap (λ (r : List ℕ × Store). r.1) same) p,
                  subst (AreOf ms zero) (ap (λ (r : List ℕ × Store). r.0) same) (
                      All-references_sort (λ r. at_index r ms ≡ some zero) s.root_groups_by_service
                        p.2.1),
                ),
          ))
