-- ===== src/Federation/Join/Distinct.antt =====
-- `getJoinGraphEnum` gives each service a name of its own.
use fedeway.Prelude.{
  String, some, some_eq, List, [], ◌∷◌, Memᴰ, lookup, assign, lookup-assign, ◌==◌, eq_iff, sort_by,
  Bool-cases, inl, inr, ◌⊎◌, ◌≡◌, refl, sym, ap, ◌∙◌,
}
use fedeway.Federation.Document.{ServiceDefinition}
use fedeway.Federation.Join.{
  groups_of, Values, sort_values, name_values, values_for, join_graph_enum,
}
use fedeway.Federation.Join.Names.{Name, value_of_mem, mem_of_value}
use fedeway.Federation.Join.Storing.{add_groups-IsMap}
use fedeway.Federation.Join.Sorting.{mem-sort_values, of_sort_values}
use fedeway.Federation.Join.Grouped.{FewShare, stored_service}

-- The name that a service gets, of those that stand in the list or in the map before.
module _ (values : Values) (m : List (String × Name)) where
  abbrev IsNamed : String → Name → Type 0
  IsNamed name v =
      ((t : ServiceDefinition) × Memᴰ (v, t) values × (t.name ≡ name)) ⊎ (lookup name m ≡ some v)

assigned :
    (key name : String) (k v : Name) (m : List (String × Name))
    → lookup name (assign key k m) ≡ some v
    → ((key ≡ name) × (k ≡ v)) ⊎ (lookup name m ≡ some v)
assigned key name k v m h = elim (Bool-cases (key == name)) [
  | inl t ↦
      let stored : lookup name (assign key k m) ≡ some k = lookup-assign key name k m ∙ rw t refl in
      inl ((eq_iff key name).0 t, some_eq (sym stored ∙ h))
  | inr t ↦
      let kept : lookup name (assign key k m) ≡ lookup name m =
        lookup-assign key name k m ∙ rw t refl in
      inr (sym kept ∙ h)
]

name_values-IsNamed :
    (values : Values) (m : List (String × Name)) (name : String) (v : Name)
    → lookup name (name_values values m) ≡ some v
    → IsNamed values m name v
unfolding name_values
name_values-IsNamed [] m name v h = inr h
name_values-IsNamed (e ∷ values) m name v h =
    elim (name_values-IsNamed values (assign e.1.name e.0 m) name v h) [
      | inl (t, mem, named) ↦ inl (t, Memᴰ.tail mem, named)
      | inr before ↦ elim (assigned e.1.name name e.0 v m before) [
        | inl (named, same_value) ↦
            inl (e.1, Memᴰ.head (ap (λ k. (k, e.1)) (sym same_value)), named)
        | inr kept ↦ inr kept
      ]
    ]

-- A name once given may change, but stays given.
name_values-kept :
    (values : Values) (m : List (String × Name)) (name : String) (v : Name)
    → lookup name m ≡ some v
    → (w : Name) × (lookup name (name_values values m) ≡ some w)
unfolding name_values
name_values-kept [] m name v h = (v, h)
name_values-kept (e ∷ values) m name v h = elim (Bool-cases (e.1.name == name)) [
  | inl t ↦
      name_values-kept values (assign e.1.name e.0 m) name e.0
        (lookup-assign e.1.name name e.0 m ∙ rw t refl)
  | inr t ↦
      name_values-kept values (assign e.1.name e.0 m) name v
        (lookup-assign e.1.name name e.0 m ∙ rw t h)
]

name_values-given :
    (values : Values) (m : List (String × Name)) (k : Name) (s : ServiceDefinition)
    → Memᴰ (k, s) values
    → (w : Name) × (lookup s.name (name_values values m) ≡ some w)
unfolding name_values
name_values-given [] m k s h = elim h [ ]
name_values-given (e ∷ values) m k s (Memᴰ.head eq) =
    let here : e.1.name ≡ s.name = ap (λ (x : Name × ServiceDefinition). x.1.name) (sym eq) in
    name_values-kept values (assign e.1.name e.0 m) s.name e.0
      (lookup-assign e.1.name s.name e.0 m ∙ rw ((eq_iff e.1.name s.name).1 here) refl)
name_values-given (e ∷ values) m k s (Memᴰ.tail mem) =
    name_values-given values (assign e.1.name e.0 m) k s mem

-- A name of the result stands for a service of that name.
named_service :
    (services : List ServiceDefinition) (name : String) (v : Name)
    → lookup name (join_graph_enum services).0 ≡ some v
    → (t : ServiceDefinition) × Memᴰ (v, t) (join_graph_enum services).1 × (t.name ≡ name)
unfolding join_graph_enum
named_service services name v h =
    elim (name_values-IsNamed (sort_values (values_for services)) [] name v h) [
      | inl found ↦ found
      | inr nothing ↦ cc
    ]

-- If fewer than ten services share a sanitized name, `getJoinGraphEnum` names each service, a name
-- that it gives to a service is a value of the enum for a service of that name, and it gives two
-- services of different names different names.
pub join_graph_enum-distinct :
    (services : List ServiceDefinition)
    → FewShare services
    → ((s : ServiceDefinition)
        → Memᴰ s services
        → (v : Name) × (t : ServiceDefinition) × (lookup s.name (join_graph_enum services).0
            ≡ some v)
          × Memᴰ (v, t) (join_graph_enum services).1
          × (t.name ≡ s.name))
      × ((name other : String) (v : Name)
          → lookup name (join_graph_enum services).0 ≡ some v
          → lookup other (join_graph_enum services).0 ≡ some v
          → name ≡ other)
unfolding join_graph_enum values_for
join_graph_enum-distinct services few = (
  λ s member.
      let (k, found) = stored_service services s few member in
      let here = mem_of_value k s (values_for services) found in
      let (v, given) =
        name_values-given (sort_values (values_for services)) [] k s
          (mem-sort_values (k, s) (values_for services) here) in
      let (t, inside, named) = named_service services s.name v given in
      (v, t, given, inside, named),
  λ name other v h g.
      let (t, t_in, t_named) = named_service services name v h in
      let (u, u_in, u_named) = named_service services other v g in
      let keyed = add_groups-IsMap (groups_of (sort_by (λ s. s.name) services) []) [] tt in
      let t_found =
        value_of_mem v t (values_for services) keyed
          (of_sort_values (v, t) (values_for services) t_in) in
      let u_found =
        value_of_mem v u (values_for services) keyed
          (of_sort_values (v, u) (values_for services) u_in) in
      sym t_named
      ∙ ap (λ (x : ServiceDefinition). x.name) (some_eq (sym t_found ∙ u_found))
      ∙ u_named,
)
