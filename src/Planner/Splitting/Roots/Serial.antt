-- ===== src/Planner/Splitting/Roots/Serial.antt =====
-- The groups of a mutation: neighbours are groups of different services.
use fedeway.Prelude.{
  ℕ, zero, suc, String, false, Option, none, some, some_eq, List, [], ◌∷◌, ◌++◌, length,
  Option-cases, Bool-cases, inl, inr, ◌==◌, if◌then◌else◌, ◌≡◌, refl, sym, ap, ◌∙◌,
}
use fedeway.Outcome.{Outcome, done, done_eq, bind-eq-done}
use fedeway.Ast.{GqlType, SelectionSet}
use fedeway.Plan.{ResponsePath}
use fedeway.Planner.Scope.{Scope, parent_type}
use fedeway.Planner.Grouping.{Field}
use fedeway.Planner.Context.{PlanningContext}
use fedeway.Planner.Context.Services.{get_owning_service}
use fedeway.Planner.Groups.{
  FetchGroup, Store, Planning, return, at_index, load, allocate, new_group,
}
use fedeway.Planner.Groups.Changes.{services, services-append, load-eq, Keeps, Keeps-IsClosed}
use fedeway.Planner.Groups.Frame.{Holds, bind-Holds, return-Holds, lift-Holds, if-Holds}
use fedeway.Planner.Splitting.Frame.{split_fields-Holds}
use fedeway.Planner.Splitting.Frame.Complete.{complete_field-Keeps}
use fedeway.Planner.Splitting.Complete.{complete_field}
use fedeway.Planner.Splitting.Roots.{
  last, append_group, last_or_new, group_in_order, group_for_root_field, no_owner,
  split_root_fields_serially,
}

-- The group of the reference is one of the service.
abbrev pub IsOf : List String → ℕ → String → Type 0
IsOf names ref service = at_index ref names ≡ some service

-- Every reference has a group, and two neighbours have different services.
abbrev pub Alternates : List String → List ℕ → Type 0
Alternates names [] = Unit {0}
Alternates names (r ∷ []) = (service : String) × IsOf names r service
Alternates names (r ∷ q ∷ refs) =
    ((service : String) × (next : String) × IsOf names r service
      × IsOf names q next
      × ((service == next) ≡ false))
    × Alternates names (q ∷ refs)

pub IsOf-grow :
    (names new : List String) (ref : ℕ) (service : String)
    → IsOf names ref service
    → IsOf (names ++ new) ref service
IsOf-grow [] new ref service h = cc
IsOf-grow (n ∷ names) new zero service h = h
IsOf-grow (n ∷ names) new (suc ref) service h = IsOf-grow names new ref service h

pub IsOf-new :
    (names : List String) (service : String) → IsOf (names ++ service ∷ []) (length names) service
IsOf-new [] service = refl
IsOf-new (n ∷ names) service = IsOf-new names service

Alternates-grow :
    (names new : List String) (refs : List ℕ)
    → Alternates names refs
    → Alternates (names ++ new) refs
Alternates-grow names new [] h = tt
Alternates-grow names new (r ∷ []) h = (h.0, IsOf-grow names new r h.0 h.1)
Alternates-grow names new (r ∷ q ∷ refs) h =
    let (service, next, here, there, different) = h.0 in
    (
      (
        service,
        next,
        IsOf-grow names new r service here,
        IsOf-grow names new q next there,
        different,
      ),
      Alternates-grow names new (q ∷ refs) h.1,
    )

-- A group of another service than the last group's is added.
Alternates-snoc :
    (names : List String) (service : String) (refs : List ℕ)
    → Alternates names refs
    → ((ref : ℕ) (old : String)
        → last refs ≡ some ref
        → IsOf names ref old
        → (old == service) ≡ false)
    → Alternates (names ++ service ∷ []) (refs ++ length names ∷ [])
Alternates-snoc names service [] h other = (service, IsOf-new names service)
Alternates-snoc names service (r ∷ []) h other = (
  (
    h.0,
    service,
    IsOf-grow names (service ∷ []) r h.0 h.1,
    IsOf-new names service,
    other r h.0 refl h.1,
  ),
  (service, IsOf-new names service),
)
Alternates-snoc names service (r ∷ q ∷ refs) h other =
    let (old, next, here, there, different) = h.0 in
    (
      (
        old,
        next,
        IsOf-grow names (service ∷ []) r old here,
        IsOf-grow names (service ∷ []) q next there,
        different,
      ),
      Alternates-snoc names service (q ∷ refs) h.1 other,
    )

abbrev IsSerial : Store → Type 0
IsSerial s = Alternates (services s.groups) s.root_groups

pub length-services : (gs : List FetchGroup) → length (services gs) ≡ length gs
length-services [] = refl
length-services (g ∷ gs) = ap suc (length-services gs)

IsOf-group :
    (gs : List FetchGroup) (ref : ℕ) (g : FetchGroup)
    → at_index ref gs ≡ some g
    → IsOf (services gs) ref g.service_name
IsOf-group [] ref g h = cc
IsOf-group (x ∷ gs) zero g h = ap (λ (y : FetchGroup). some y.service_name) (some_eq h)
IsOf-group (x ∷ gs) (suc ref) g h = IsOf-group gs ref g h

pub IsSerial-closed : (s t : Store) → Keeps s t → IsSerial s → IsSerial t
IsSerial-closed s t k h =
    rw (k.grown, k.roots) (Alternates-grow (services s.groups) k.new s.root_groups h)

append_group-IsSerial :
    (service : String) (s t : Store) (a : ℕ)
    → ((ref : ℕ) (old : String)
        → last s.root_groups ≡ some ref
        → IsOf (services s.groups) ref old
        → (old == service) ≡ false)
    → append_group service s ≡ done (a, t)
    → IsSerial s
    → IsSerial t
unfolding append_group allocate
append_group-IsSerial service s t a other e h = rw (← ap (λ (r : ℕ × Store). r.1) (done_eq e)) (
    rw (services-append s.groups (new_group service []), ← length-services s.groups)
      (Alternates-snoc (services s.groups) service s.root_groups h other))

-- The last group's service is not the wanted one.
last_differs :
    (service : String) (s : Store) (ref : ℕ) (g : FetchGroup)
    → last s.root_groups ≡ some ref
    → at_index ref s.groups ≡ some g
    → (g.service_name == service) ≡ false
    → (other : ℕ) (old : String) → last s.root_groups ≡ some other
    → IsOf (services s.groups) other old
    → (old == service) ≡ false
last_differs service s ref g found at differs other old l o =
    let same_ref : other ≡ ref = some_eq (sym l ∙ found) in
    let same_service : old ≡ g.service_name =
      some_eq (
        sym o ∙ ap (λ r. at_index r (services s.groups)) same_ref ∙ IsOf-group s.groups ref g at) in
    ap (λ n. n == service) same_service ∙ differs

last_or_new-IsSerial :
    (service : String) (s t : Store) (ref a : ℕ)
    → last s.root_groups ≡ some ref
    → last_or_new service (some ref) s ≡ done (a, t)
    → IsSerial s
    → IsSerial t
last_or_new-IsSerial service s t ref a found e h =
    let (r, loaded, second) = bind-eq-done (load ref s) _ e in
    let (unchanged, at) = load-eq ref s r loaded in
    let here =
      ap (λ u. (if r.0.service_name == service then return ref else append_group service) u)
        (sym unchanged)
      ∙ second in
    elim (Bool-cases (r.0.service_name == service)) [
      | inl same ↦
          let kept : return ref s ≡ done (a, t) = rw same at here in
          return-Holds IsSerial ref s t a kept h
      | inr differs ↦
          let added : append_group service s ≡ done (a, t) = rw differs at here in
          append_group-IsSerial service s t a (last_differs service s ref r.0 found at differs)
            added h
    ]

group_in_order-Holds : (service : String) → Holds IsSerial (group_in_order service)
unfolding group_in_order
group_in_order-Holds service s t a e h = elim (Option-cases (last s.root_groups)) [
  | inl nothing ↦
      let step : append_group service s ≡ done (a, t) = rw nothing at e in
      append_group-IsSerial service s t a (λ ref old l o. absurd nothing l) step h
  | inr (ref, found) ↦
      let step : last_or_new service (some ref) s ≡ done (a, t) = rw found at e in
      last_or_new-IsSerial service s t ref a found step h
]
  where
    absurd : {A : Type 0} {o : Option ℕ} {ref : ℕ} → o ≡ none → o ≡ some ref → A
    absurd h k = cc

pub group_for_root_field-Holds :
    (P : Store → Type 0) (qpctx : PlanningContext) (group_for : String → Planning ℕ)
    → ((service : String) → Holds P (group_for service))
    → (field : Field) → Holds P (group_for_root_field qpctx group_for field)
unfolding group_for_root_field
group_for_root_field-Holds P qpctx group_for h field =
    bind-Holds P _ _
      (lift-Holds P (get_owning_service qpctx (parent_type field.scope) field.field_def))
      (λ owning. if-Holds P (owning == "") _ _ (lift-Holds P (no_owner field)) (h owning))

module _ (qpctx : PlanningContext) (type_name : GqlType → String)
    (path_string : ResponsePath → String) (key : Scope → Option String)
    (marshal : SelectionSet → Outcome String) where
  -- Of the groups that `splitRootFieldsSerially` returns, each exists, and two neighbours are groups
  -- of different services: what one service can do in a row is one fetch.
  pub split_root_fields_serially-Alternates :
      (fuel depth : ℕ) (fields : List Field) (s t : Store) (refs : List ℕ)
      → s.root_groups ≡ []
      → split_root_fields_serially qpctx type_name path_string key marshal fuel depth fields s
        ≡ done (refs, t)
      → Alternates (services t.groups) refs
  unfolding split_root_fields_serially
  split_root_fields_serially-Alternates fuel depth fields s t refs start e =
      let (r, split, last_step) = bind-eq-done _ _ e in
      let held : IsSerial r.1 =
        split_fields-Holds IsSerial (Keeps-IsClosed IsSerial IsSerial-closed) qpctx type_name
          (group_for_root_field qpctx group_in_order)
          (complete_field qpctx type_name path_string key marshal fuel depth) []
          (group_for_root_field-Holds IsSerial qpctx group_in_order group_in_order-Holds)
          (complete_field-Keeps IsSerial IsSerial-closed qpctx fuel type_name path_string key
            marshal depth)
          key fields s r.1 r.0 split (rw start tt) in
      let same = done_eq last_step in
      rw
        (
          ← ap (λ (q : List ℕ × Store). services q.1.groups) same,
          ← ap (λ (q : List ℕ × Store). q.0) same,
        )
        held
