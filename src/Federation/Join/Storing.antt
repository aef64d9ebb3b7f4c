-- ===== src/Federation/Join/Storing.antt =====
-- The loops that store each service under a name of its own.
use fedeway.Prelude.{
  ℕ, suc, ◌+◌, ◌≤◌, ◌<◌, true, false, none, some, is_some, List, [], ◌∷◌, Memᴰ, All, length,
  Bool-cases, inl, inr, ◌≡◌, refl, sym, ap, ◌∙◌, subst, arith,
}
use fedeway.Federation.Document.{ServiceDefinition}
use fedeway.Federation.Join.{
  ends_in_number, Groups, numbered_name, Values, add_numbered, add_group, add_groups,
}
use fedeway.Federation.Join.Names.{
  Name, names_equal, names_equal_refl, eq_of_names_equal, value_under, store_under, IsMap,
  value_under-store_under, store_under-IsMap, value_of_mem,
}
use fedeway.Federation.Join.Numbered.{numbered_name_cancel, Owned, owner_unique}

-- What is stored under another name stays.
kept_under :
    (k j : Name) (s : ServiceDefinition) (values : Values)
    → (j ≡ k → ⊥)
    → value_under j (store_under k s values) ≡ value_under j values
kept_under k j s values other =
    value_under-store_under k j s values ∙ elim (Bool-cases (names_equal k j)) [
      | inl t ↦ absurd (other (sym (eq_of_names_equal k j t)))
      | inr t ↦ rw t refl
    ]

stored_under :
    (k : Name) (s : ServiceDefinition) (values : Values)
    → value_under k (store_under k s values) ≡ some s
stored_under k s values = value_under-store_under k k s values ∙ rw (names_equal_refl k) refl

module _ (base : Name) where
  -- A name that the loop does not make, from the number `n` on.
  abbrev IsPassed : Name → ℕ → Type 0
  IsPassed k n = (j : ℕ) → n ≤ j → j < 10 → k ≡ numbered_name base j → ⊥

  add_numbered-kept :
      (k : Name) (n : ℕ) (services : List ServiceDefinition) (values : Values)
      → n + length services ≤ 10
      → IsPassed k n
      → value_under k (add_numbered base n services values) ≡ value_under k values
  unfolding add_numbered
  add_numbered-kept k n [] values room h = refl
  add_numbered-kept k n (s ∷ services) values room h =
      add_numbered-kept k (suc n) services (store_under (numbered_name base n) s values)
        (omega arith) (λ j le lt e. h j (omega arith) lt e)
      ∙ kept_under (numbered_name base n) k s values (λ e. h n (omega arith) (omega arith) e)

  add_numbered-stored :
      (n : ℕ) (services : List ServiceDefinition) (values : Values) (s : ServiceDefinition)
      → n + length services ≤ 10
      → Memᴰ s services
      → (k : Name) × Owned base k × (value_under k (add_numbered base n services values) ≡ some s)
  unfolding add_numbered
  add_numbered-stored n [] values s room mem = elim mem [ ]
  add_numbered-stored n (t ∷ services) values s room (Memᴰ.head e) =
      let lt : n < 10 = omega arith in
      let key = numbered_name base n in
      (
        key,
        inr (n, lt, refl),
        add_numbered-kept key (suc n) services (store_under key t values) (omega arith)
              (λ j le lj same_name.
                let (_, equal) = numbered_name_cancel base base n j lt lj same_name in
                absurd (omega arith))
            ∙ stored_under key t values
            ∙ ap some (sym e),
      )
  add_numbered-stored n (t ∷ services) values s room (Memᴰ.tail mem) =
      add_numbered-stored (suc n) services (store_under (numbered_name base n) t values) s
        (omega arith) mem

  add_group-kept :
      (k : Name) (services : List ServiceDefinition) (values : Values)
      → length services < 10
      → (Owned base k → ⊥)
      → value_under k (add_group base services values) ≡ value_under k values
  unfolding add_group
  add_group-kept k [] values room h =
      add_numbered-kept k 1 [] values (omega arith) (λ j le lt e. h (inr (j, lt, e)))
  add_group-kept k (s ∷ []) values room h = kept_under base k s values (λ e. h (inl e))
  add_group-kept k (s ∷ t ∷ services) values room h =
      add_numbered-kept k 1 (s ∷ t ∷ services) values (omega arith)
        (λ j le lt e. h (inr (j, lt, e)))

  add_group-stored :
      (services : List ServiceDefinition) (values : Values) (s : ServiceDefinition)
      → length services < 10
      → Memᴰ s services
      → (k : Name) × Owned base k × (value_under k (add_group base services values) ≡ some s)
  unfolding add_group
  add_group-stored [] values s room mem = elim mem [ ]
  add_group-stored (t ∷ []) values s room (Memᴰ.head e) =
      (base, inl refl, stored_under base t values ∙ ap some (sym e))
  add_group-stored (t ∷ []) values s room (Memᴰ.tail mem) = elim mem [ ]
  add_group-stored (t ∷ u ∷ services) values s room mem =
      add_numbered-stored 1 (t ∷ u ∷ services) values s (omega arith) mem

-- A group of fewer than ten services under a name that does not end in a number.
abbrev pub IsSmall : Name × List ServiceDefinition → Type 0
IsSmall g = (ends_in_number g.0 ≡ false) × (length g.1 < 10)

add_groups-kept :
    (k : Name) (groups : Groups) (values : Values)
    → All IsSmall groups
    → ((base : Name) (services : List ServiceDefinition)
        → Memᴰ (base, services) groups
        → Owned base k
        → ⊥)
    → value_under k (add_groups groups values) ≡ value_under k values
unfolding add_groups
add_groups-kept k [] values small h = refl
add_groups-kept k (g ∷ groups) values small h =
    add_groups-kept k groups (add_group g.0 g.1 values) small.1
      (λ base services mem. h base services (Memᴰ.tail mem))
    ∙ add_group-kept g.0 k g.1 values small.0.1 (h g.0 g.1 (Memᴰ.head refl))

-- Each service of a group is found under some name.
pub add_groups-stored :
    (groups : Groups) (values : Values) (base : Name) (services : List ServiceDefinition)
    (s : ServiceDefinition)
    → IsMap groups
    → All IsSmall groups
    → Memᴰ (base, services) groups
    → Memᴰ s services
    → (k : Name) × (value_under k (add_groups groups values) ≡ some s)
unfolding add_groups
add_groups-stored [] values base services s keyed small mem member = elim mem [ ]
add_groups-stored (g ∷ groups) values base services s keyed small (Memᴰ.head e) member =
    let (k, owned, found) =
      add_group-stored g.0 g.1 values s small.0.1 (subst (λ x. Memᴰ s x.1) e member) in
    (
      k,
      add_groups-kept k groups (add_group g.0 g.1 values) small.1 (λ other others mem own.
            let (ends, _) = small_of other others groups small.1 mem in
            let same_base = owner_unique other g.0 k ends small.0.0 own owned in
            let here = value_of_mem other others groups keyed.1 mem in
            let wrong : some others ≡ none =
              sym here ∙ ap (λ b. value_under b groups) same_base ∙ keyed.0 in
            no_some wrong)
          ∙ found,
    )
  where
    small_of :
        (other : Name) (others : List ServiceDefinition) (groups : Groups)
        → All IsSmall groups
        → Memᴰ (other, others) groups
        → IsSmall (other, others)
    small_of other others [] all mem = elim mem [ ]
    small_of other others (g ∷ groups) all (Memᴰ.head e) = subst IsSmall (sym e) all.0
    small_of other others (g ∷ groups) all (Memᴰ.tail mem) = small_of other others groups all.1 mem

    no_some : {xs : List ServiceDefinition} → some xs ≡ none → ⊥
    no_some h = let wrong : true ≡ false = ap is_some h in cc
add_groups-stored (g ∷ groups) values base services s keyed small (Memᴰ.tail mem) member =
    add_groups-stored groups (add_group g.0 g.1 values) base services s keyed.1 small.1 mem member

add_numbered-IsMap :
    (base : Name) (n : ℕ) (services : List ServiceDefinition) (values : Values)
    → IsMap values
    → IsMap (add_numbered base n services values)
unfolding add_numbered
add_numbered-IsMap base n [] values h = h
add_numbered-IsMap base n (s ∷ services) values h =
    add_numbered-IsMap base (suc n) services (store_under (numbered_name base n) s values)
      (store_under-IsMap (numbered_name base n) s values h)

add_group-IsMap :
    (base : Name) (services : List ServiceDefinition) (values : Values)
    → IsMap values
    → IsMap (add_group base services values)
unfolding add_group
add_group-IsMap base [] values h = add_numbered-IsMap base 1 [] values h
add_group-IsMap base (s ∷ []) values h = store_under-IsMap base s values h
add_group-IsMap base (s ∷ t ∷ services) values h =
    add_numbered-IsMap base 1 (s ∷ t ∷ services) values h

pub add_groups-IsMap :
    (groups : Groups) (values : Values) → IsMap values → IsMap (add_groups groups values)
unfolding add_groups
add_groups-IsMap [] values h = h
add_groups-IsMap (g ∷ groups) values h =
    add_groups-IsMap groups (add_group g.0 g.1 values) (add_group-IsMap g.0 g.1 values h)
