-- ===== src/Planner/Splitting/Roots/Indexed.antt =====
-- The groups of a query: one for each service.
use fedeway.Prelude.{
  ℕ, String, false, Option, none, some, List, [], ◌∷◌, ◌++◌, length, lookup, assign, contains, less,
  insert_by, sort_by, Bool-cases, inl, inr, ◌==◌, eq_iff, ◌≡◌, refl, ap, arith,
}
use fedeway.Outcome.{Outcome, done, done_eq, bind-eq-done}
use fedeway.Ast.{GqlType, SelectionSet}
use fedeway.Plan.{ResponsePath}
use fedeway.Planner.Scope.{Scope}
use fedeway.Planner.Grouping.{Field}
use fedeway.Planner.Context.{PlanningContext}
use fedeway.Planner.Groups.{Store, allocate, new_group, references}
use fedeway.Planner.Groups.Changes.{services, services-append, Keeps, Keeps-IsClosed}
use fedeway.Planner.Groups.Frame.{Holds, return-Holds}
use fedeway.Planner.Splitting.Frame.{split_fields-Holds}
use fedeway.Planner.Splitting.Frame.Complete.{complete_field-Keeps}
use fedeway.Planner.Splitting.Complete.{complete_field}
use fedeway.Planner.Splitting.Roots.{
  known_or_new, group_for_service, group_for_root_field, split_root_fields,
}
use fedeway.Planner.Splitting.Roots.Serial.{
  IsOf, IsOf-grow, IsOf-new, length-services, group_for_root_field-Holds,
}

-- Each entry is a group of the service under which it stands, and no service has two entries.
abbrev IsIndex : List String → List (String × ℕ) → Type 0
IsIndex names [] = Unit {0}
IsIndex names (e ∷ es) = IsOf names e.1 e.0 × (lookup e.0 es ≡ none) × IsIndex names es

-- The references are of groups of these services, one by one.
abbrev pub Serves : List String → List ℕ → List String → Type 0
Serves names [] [] = Unit {0}
Serves names (r ∷ refs) (k ∷ ks) = IsOf names r k × Serves names refs ks
Serves names _ _ = ⊥

abbrev pub IsDistinct : List String → Type 0
IsDistinct [] = Unit {0}
IsDistinct (k ∷ ks) = (contains ks k ≡ false) × IsDistinct ks

IsIndex-grow :
    (names new : List String) (m : List (String × ℕ)) → IsIndex names m → IsIndex (names ++ new) m
IsIndex-grow names new [] h = tt
IsIndex-grow names new (e ∷ es) h =
    (IsOf-grow names new e.1 e.0 h.0, h.1, IsIndex-grow names new es h.2)

lookup-assign_new :
    (k j : String) (ref : ℕ) (m : List (String × ℕ))
    → lookup j m ≡ none
    → (k == j) ≡ false
    → lookup j (assign k ref m) ≡ none
lookup-assign_new k j ref [] h d = ground arith
lookup-assign_new k j ref (e ∷ es) h d =
    ground (arith, eq_iff e.0 k, eq_iff e.0 j, eq_iff k j, lookup-assign_new k j ref es)

not_first :
    (k : String) (e : String × ℕ) (es : List (String × ℕ))
    → lookup k (e ∷ es) ≡ none
    → ((e.0 == k) ≡ false) × (lookup k es ≡ none)
not_first k e es h = elim (Bool-cases (e.0 == k)) [
  | inl same ↦ let found : some e.1 ≡ none = rw same at h in cc
  | inr differs ↦ (differs, rw differs at h)
]

swapped : (a b : String) → (a == b) ≡ false → (b == a) ≡ false
swapped a b h = ground (arith, eq_iff a b, eq_iff b a)

assign-IsIndex :
    (names : List String) (k : String) (ref : ℕ) (m : List (String × ℕ))
    → IsOf names ref k
    → lookup k m ≡ none
    → IsIndex names m
    → IsIndex names (assign k ref m)
assign-IsIndex names k ref [] o new h = (o, refl, tt)
assign-IsIndex names k ref (e ∷ es) o new h =
    let (differs, later) = not_first k e es new in
    rw differs (
      h.0,
      lookup-assign_new k e.0 ref es h.1 (swapped e.0 k differs),
      assign-IsIndex names k ref es o later h.2,
    )

insert_by-lookup :
    (k : String) (e : String × ℕ) (es : List (String × ℕ))
    → lookup k es ≡ none
    → (e.0 == k) ≡ false
    → lookup k (insert_by (λ entry. entry.0) e es) ≡ none
insert_by-lookup k e [] h d = ground arith
insert_by-lookup k e (y ∷ ys) h d = ground (arith, insert_by-lookup k e ys)

insert_by-IsIndex :
    (names : List String) (e : String × ℕ) (es : List (String × ℕ))
    → IsOf names e.1 e.0
    → lookup e.0 es ≡ none
    → IsIndex names es
    → IsIndex names (insert_by (λ entry. entry.0) e es)
insert_by-IsIndex names e [] o new h = (o, refl, tt)
insert_by-IsIndex names e (y ∷ ys) o new h =
    let (differs, later) = not_first e.0 y ys new in
    elim (Bool-cases (less y.0 e.0)) [
      | inl before ↦ rw before (
        h.0,
        insert_by-lookup y.0 e ys h.1 (swapped y.0 e.0 differs),
        insert_by-IsIndex names e ys o later h.2,
      )
      | inr after ↦ rw after (o, new, h)
    ]

sort_by-lookup :
    (k : String) (es : List (String × ℕ))
    → lookup k es ≡ none
    → lookup k (sort_by (λ entry. entry.0) es) ≡ none
sort_by-lookup k [] h = refl
sort_by-lookup k (e ∷ es) h =
    let (differs, later) = not_first k e es h in
    insert_by-lookup k e (sort_by (λ entry. entry.0) es) (sort_by-lookup k es later) differs

sort_by-IsIndex :
    (names : List String) (es : List (String × ℕ))
    → IsIndex names es
    → IsIndex names (sort_by (λ entry. entry.0) es)
sort_by-IsIndex names [] h = tt
sort_by-IsIndex names (e ∷ es) h =
    insert_by-IsIndex names e (sort_by (λ entry. entry.0) es) h.0 (sort_by-lookup e.0 es h.1)
      (sort_by-IsIndex names es h.2)

abbrev keys : List (String × ℕ) → List String
keys [] = []
keys (e ∷ es) = e.0 ∷ keys es

keys-Serves :
    (names : List String) (es : List (String × ℕ))
    → IsIndex names es
    → Serves names (references es) (keys es)
keys-Serves names [] h = tt
keys-Serves names (e ∷ es) h = (h.0, keys-Serves names es h.2)

contains-keys :
    (k : String) (es : List (String × ℕ)) → lookup k es ≡ none → contains (keys es) k ≡ false
contains-keys k [] h = refl
contains-keys k (e ∷ es) h =
    let (differs, later) = not_first k e es h in rw differs (contains-keys k es later)

keys-IsDistinct :
    (names : List String) (es : List (String × ℕ)) → IsIndex names es → IsDistinct (keys es)
keys-IsDistinct names [] h = tt
keys-IsDistinct names (e ∷ es) h = (contains-keys e.0 es h.1, keys-IsDistinct names es h.2)

abbrev IsIndexed : Store → Type 0
IsIndexed s = IsIndex (services s.groups) s.root_groups_by_service

IsIndexed-closed : (s t : Store) → Keeps s t → IsIndexed s → IsIndexed t
IsIndexed-closed s t k h =
    rw (k.grown, k.by_service) (IsIndex-grow (services s.groups) k.new s.root_groups_by_service h)

known_or_new-Holds :
    (service : String) (s t : Store) (a : ℕ) (o : Option ℕ)
    → lookup service s.root_groups_by_service ≡ o
    → known_or_new service o s ≡ done (a, t)
    → IsIndexed s
    → IsIndexed t
unfolding allocate
known_or_new-Holds service s t a (some ref) found e h = return-Holds IsIndexed ref s t a e h
known_or_new-Holds service s t a none found e h =
    let names = services s.groups ++ service ∷ [] in
    let here : IsOf names (length s.groups) service =
      rw (← length-services s.groups) (IsOf-new (services s.groups) service) in
    rw (← ap (λ (r : ℕ × Store). r.1) (done_eq e)) (
      rw (services-append s.groups (new_group service [])) (
        assign-IsIndex names service (length s.groups) s.root_groups_by_service here found
          (IsIndex-grow (services s.groups) (service ∷ []) s.root_groups_by_service h)))

group_for_service-Holds : (service : String) → Holds IsIndexed (group_for_service service)
unfolding group_for_service
group_for_service-Holds service s t a e h =
    known_or_new-Holds service s t a (lookup service s.root_groups_by_service) refl e h

module _ (qpctx : PlanningContext) (type_name : GqlType → String)
    (path_string : ResponsePath → String) (key : Scope → Option String)
    (marshal : SelectionSet → Outcome String) where
  -- The groups that `splitRootFields` returns are groups of different services, one for each of
  -- them.
  pub split_root_fields-Serves :
      (fuel depth : ℕ) (fields : List Field) (s t : Store) (refs : List ℕ)
      → s.root_groups_by_service ≡ []
      → split_root_fields qpctx type_name path_string key marshal fuel depth fields s
        ≡ done (refs, t)
      → (names : List String) × Serves (services t.groups) refs names × IsDistinct names
  unfolding split_root_fields
  split_root_fields-Serves fuel depth fields s t refs start e =
      let (r, split, last_step) = bind-eq-done _ _ e in
      let held : IsIndexed r.1 =
        split_fields-Holds IsIndexed (Keeps-IsClosed IsIndexed IsIndexed-closed) qpctx type_name
          (group_for_root_field qpctx group_for_service)
          (complete_field qpctx type_name path_string key marshal fuel depth) []
          (group_for_root_field-Holds IsIndexed qpctx group_for_service group_for_service-Holds)
          (complete_field-Keeps IsIndexed IsIndexed-closed qpctx fuel type_name path_string key
            marshal depth)
          key fields s r.1 r.0 split (rw start tt) in
      let sorted = sort_by-IsIndex (services r.1.groups) r.1.root_groups_by_service held in
      let entries = sort_by (λ (entry : String × ℕ). entry.0) r.1.root_groups_by_service in
      let same = done_eq last_step in
      rw (← ap (λ (q : List ℕ × Store). q.1) same, ← ap (λ (q : List ℕ × Store). q.0) same)
        (
          keys entries,
          keys-Serves (services r.1.groups) entries sorted,
          keys-IsDistinct (services r.1.groups) entries sorted,
        )
