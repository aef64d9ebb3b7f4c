-- ===== src/Federation/Join/Grouped.antt =====
-- The groups of services that share a sanitized name, and that each service is stored.
use fedeway.Prelude.{
  suc, ◌+◌, ◌<◌, false, Option, none, some, List, [], ◌∷◌, ◌++◌, Memᴰ, All, length, sort_by,
  Bool-cases, inl, inr, ◌≡◌, refl, sym, ap, ◌∙◌, subst, arith,
}
use fedeway.Federation.Document.{ServiceDefinition}
use fedeway.Federation.Join.{
  ends_in_number, sanitized, Groups, or_no_service, groups_of, values_for,
}
use fedeway.Federation.Join.Names.{
  Name, codes, names_equal, names_equal_refl, eq_of_names_equal, value_under, store_under, IsMap,
  value_under-store_under, store_under-IsMap, value_of_mem, mem_of_value,
}
use fedeway.Federation.Join.Storing.{IsSmall, add_groups-stored}
use fedeway.Federation.Join.Sanitized.{ends_in_number-sanitize}
use fedeway.Federation.Join.Sorting.{count_sanitized, count-sort, mem-sort}

group_under : Name → Groups → List ServiceDefinition
group_under base groups = or_no_service (value_under base groups)

module _ (base : Name) where
  length-group_under :
      (services : List ServiceDefinition) (groups : Groups)
      → length (group_under base (groups_of services groups))
        ≡ length (group_under base groups) + count_sanitized base services
  unfolding groups_of group_under
  length-group_under [] groups = omega arith
  length-group_under (s ∷ services) groups =
      let key = sanitized s in
      let added = or_no_service (value_under key groups) ++ s ∷ [] in
      let ih = length-group_under services (store_under key added groups) in
      let stored = ap or_no_service (value_under-store_under key base added groups) in
      elim (Bool-cases (names_equal key base)) [
        | inl t ↦
            let here =
              ap (λ k. or_no_service (value_under k groups)) (eq_of_names_equal key base t) in
            let stored' : group_under base (store_under key added groups) ≡ added =
              stored ∙ rw t refl in
            rw t (
              omega (
                arith,
                ih,
                ap length stored',
                ap length here,
                length-snoc (or_no_service (value_under key groups)) s,
              ))
        | inr t ↦
            let stored' : group_under base (store_under key added groups)
                ≡ group_under base groups =
              stored ∙ rw t refl in
            rw t (omega (arith, ih, ap length stored'))
      ]
    where
      length-snoc :
          (xs : List ServiceDefinition) (x : ServiceDefinition)
          → length (xs ++ x ∷ []) ≡ suc (length xs)
      length-snoc [] x = refl
      length-snoc (y ∷ xs) x = omega (arith, length-snoc xs x)

groups_of-IsMap :
    (services : List ServiceDefinition) (groups : Groups)
    → IsMap groups
    → IsMap (groups_of services groups)
unfolding groups_of
groups_of-IsMap [] groups h = h
groups_of-IsMap (s ∷ services) groups h =
    groups_of-IsMap services _ (store_under-IsMap (sanitized s) _ groups h)

-- Every key is a sanitized name.
abbrev EndsPlainly : Name × List ServiceDefinition → Type 0
EndsPlainly g = ends_in_number g.0 ≡ false

store_under-EndsPlainly :
    (key : Name) (services : List ServiceDefinition) (groups : Groups)
    → ends_in_number key ≡ false
    → All EndsPlainly groups
    → All EndsPlainly (store_under key services groups)
store_under-EndsPlainly key services [] e h = (e, tt)
store_under-EndsPlainly key services (g ∷ groups) e h = elim (Bool-cases (names_equal g.0 key)) [
  | inl t ↦ rw t (e, h.1)
  | inr t ↦ rw t (h.0, store_under-EndsPlainly key services groups e h.1)
]

groups_of-EndsPlainly :
    (services : List ServiceDefinition) (groups : Groups)
    → All EndsPlainly groups
    → All EndsPlainly (groups_of services groups)
unfolding groups_of
groups_of-EndsPlainly [] groups h = h
groups_of-EndsPlainly (s ∷ services) groups h =
    groups_of-EndsPlainly services _
      (store_under-EndsPlainly (sanitized s) _ groups (ends_in_number-sanitized s) h)
  where
    ends_in_number-sanitized : (s : ServiceDefinition) → ends_in_number (sanitized s) ≡ false
    ends_in_number-sanitized s = ends_in_number-sanitize (codes s.name)

mem-snoc_old {ℓ} : {A : Type ℓ} (x y : A) (xs : List A) → Memᴰ x xs → Memᴰ x (xs ++ y ∷ [])
mem-snoc_old x y [] h = elim h [ ]
mem-snoc_old x y (z ∷ xs) (Memᴰ.head e) = Memᴰ.head e
mem-snoc_old x y (z ∷ xs) (Memᴰ.tail m) = Memᴰ.tail (mem-snoc_old x y xs m)

mem-snoc_new {ℓ} : {A : Type ℓ} (y : A) (xs : List A) → Memᴰ y (xs ++ y ∷ [])
mem-snoc_new y [] = Memᴰ.head refl
mem-snoc_new y (z ∷ xs) = Memᴰ.tail (mem-snoc_new y xs)

-- A service stays in its group, and gets into it.
module _ (x : ServiceDefinition) where
  mem-kept :
      (base : Name) (services : List ServiceDefinition) (groups : Groups)
      → Memᴰ x (group_under base groups)
      → Memᴰ x (group_under base (groups_of services groups))
  unfolding groups_of group_under
  mem-kept base [] groups h = h
  mem-kept base (s ∷ services) groups h =
      let key = sanitized s in
      let added = or_no_service (value_under key groups) ++ s ∷ [] in
      let stored = ap or_no_service (value_under-store_under key base added groups) in
      mem-kept base services (store_under key added groups) (
        subst (Memᴰ x) (sym stored) (elim (Bool-cases (names_equal key base)) [
          | inr t ↦ rw t h
          | inl t ↦
              let here =
                ap (λ k. or_no_service (value_under k groups))
                  (sym (eq_of_names_equal key base t)) in
              rw t
                (mem-snoc_old x s (or_no_service (value_under key groups)) (subst (Memᴰ x) here h))
        ]))

  mem-grouped :
      (services : List ServiceDefinition) (groups : Groups)
      → Memᴰ x services
      → Memᴰ x (group_under (sanitized x) (groups_of services groups))
  unfolding groups_of group_under
  mem-grouped [] groups h = elim h [ ]
  mem-grouped (s ∷ services) groups (Memᴰ.tail m) = mem-grouped services _ m
  mem-grouped (s ∷ services) groups (Memᴰ.head e) =
      let key = sanitized s in
      let added = or_no_service (value_under key groups) ++ s ∷ [] in
      let stored = ap or_no_service (value_under-store_under key key added groups) in
      let here : or_no_service (value_under key (store_under key added groups)) ≡ added =
        stored ∙ rw (names_equal_refl key) refl in
      mem-kept (sanitized x) services (store_under key added groups) (
        subst (λ k. Memᴰ x (group_under (sanitized k) (store_under key added groups))) (sym e)
          (subst (Memᴰ x) (sym here) (
            subst (λ y. Memᴰ y added) (sym e)
              (mem-snoc_new s (or_no_service (value_under key groups))))))

all_of {ℓ κ} : {A : Type ℓ} (P : A → Type κ) (xs : List A) → ((x : A) → Memᴰ x xs → P x) → All P xs
all_of P [] h = tt
all_of P (x ∷ xs) h = (h x (Memᴰ.head refl), all_of P xs (λ y m. h y (Memᴰ.tail m)))

all_mem {ℓ κ} : {A : Type ℓ} (P : A → Type κ) (xs : List A) → All P xs → (x : A) → Memᴰ x xs → P x
all_mem P [] h x m = elim m [ ]
all_mem P (y ∷ ys) h x (Memᴰ.head e) = subst P (sym e) h.0
all_mem P (y ∷ ys) h x (Memᴰ.tail m) = all_mem P ys h.1 x m

-- Fewer than ten services share a sanitized name.
abbrev pub FewShare : List ServiceDefinition → Type 0
FewShare services = (base : Name) → count_sanitized base services < 10

groups-IsSmall :
    (services : List ServiceDefinition)
    → FewShare services
    → All IsSmall (groups_of (sort_by (λ s. s.name) services) [])
unfolding group_under
groups-IsSmall services few =
    let sorted = sort_by (λ s. s.name) services in
    let groups = groups_of sorted [] in
    all_of IsSmall groups λ g m.
      let found = value_of_mem g.0 g.1 groups (groups_of-IsMap sorted [] tt) m in
      let counted = length-group_under g.0 sorted [] in
      (
        all_mem EndsPlainly groups (groups_of-EndsPlainly sorted [] tt) g m,
        omega (
          arith,
          ap (λ o. length (or_no_service o)) found,
          counted,
          count-sort g.0 services,
          few g.0,
        ),
      )

-- Every service is found under some name.
pub stored_service :
    (services : List ServiceDefinition) (x : ServiceDefinition)
    → FewShare services
    → Memᴰ x services
    → (k : Name) × (value_under k (values_for services) ≡ some x)
unfolding values_for group_under
stored_service services x few m =
    let sorted = sort_by (λ s. s.name) services in
    let groups = groups_of sorted [] in
    let (members, found, inside) =
      some_group (value_under (sanitized x) groups)
        (mem-grouped x sorted [] (mem-sort (λ s. s.name) x services m)) in
    add_groups-stored groups [] (sanitized x) members x (groups_of-IsMap sorted [] tt)
      (groups-IsSmall services few) (mem_of_value (sanitized x) members groups found) inside
  where
    some_group :
        (o : Option (List ServiceDefinition))
        → Memᴰ x (or_no_service o)
        → (ss : List ServiceDefinition) × (o ≡ some ss) × Memᴰ x ss
    some_group none h = elim h [ ]
    some_group (some ss) h = (ss, refl, h)
