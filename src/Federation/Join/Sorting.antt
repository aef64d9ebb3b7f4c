-- ===== src/Federation/Join/Sorting.antt =====
-- Sorting the services and the values keeps each of them.
use fedeway.Prelude.{
  ℕ, suc, String, Bool, true, false, List, [], ◌∷◌, Memᴰ, if◌then◌else◌, less, sort_by, insert_by,
  ◌≡◌, refl, sym, ap, ◌∙◌, subst, arith,
}
use fedeway.Federation.Document.{ServiceDefinition}
use fedeway.Federation.Join.{sanitized, Values, insert_value, sort_values}
use fedeway.Federation.Join.Names.{Name, names_equal, name_less}

-- How many of the services have the sanitized name.
abbrev pub count_sanitized : Name → List ServiceDefinition → ℕ
count_sanitized base [] = 0
count_sanitized base (s ∷ services) =
    let rest = count_sanitized base services in
    if names_equal (sanitized s) base then suc rest else rest

count-insert :
    (base : Name) (s : ServiceDefinition) (services : List ServiceDefinition)
    → count_sanitized base (insert_by (λ x. x.name) s services)
      ≡ count_sanitized base (s ∷ services)
count-insert base s [] = refl
count-insert base s (t ∷ services) = ground (arith, count-insert base s services)

pub count-sort :
    (base : Name) (services : List ServiceDefinition)
    → count_sanitized base (sort_by (λ x. x.name) services) ≡ count_sanitized base services
count-sort base [] = refl
count-sort base (s ∷ services) =
    count-insert base s (sort_by (λ x. x.name) services)
    ∙ ap (λ n. if names_equal (sanitized s) base then suc n else n) (count-sort base services)

mem_of_choice {ℓ} :
    {A : Type ℓ} (b : Bool) (x : A) (xs ys : List A)
    → Memᴰ x xs
    → Memᴰ x ys
    → Memᴰ x (if b then xs else ys)
mem_of_choice true x xs ys h k = h
mem_of_choice false x xs ys h k = k

module _ {A : Type 0} (key : A → String) where
  mem-insert_self : (s : A) (xs : List A) → Memᴰ s (insert_by key s xs)
  mem-insert_self s [] = Memᴰ.head refl
  mem-insert_self s (t ∷ xs) =
      mem_of_choice (less (key t) (key s)) s (t ∷ insert_by key s xs) (s ∷ t ∷ xs)
        (Memᴰ.tail (mem-insert_self s xs)) (Memᴰ.head refl)

  mem-insert : (x s : A) (xs : List A) → Memᴰ x xs → Memᴰ x (insert_by key s xs)
  mem-insert x s [] h = elim h [ ]
  mem-insert x s (t ∷ xs) (Memᴰ.head e) =
      mem_of_choice (less (key t) (key s)) x (t ∷ insert_by key s xs) (s ∷ t ∷ xs) (Memᴰ.head e)
        (Memᴰ.tail (Memᴰ.head e))
  mem-insert x s (t ∷ xs) (Memᴰ.tail m) =
      mem_of_choice (less (key t) (key s)) x (t ∷ insert_by key s xs) (s ∷ t ∷ xs)
        (Memᴰ.tail (mem-insert x s xs m)) (Memᴰ.tail (Memᴰ.tail m))

  pub mem-sort : (x : A) (xs : List A) → Memᴰ x xs → Memᴰ x (sort_by key xs)
  mem-sort x [] h = elim h [ ]
  mem-sort x (s ∷ xs) (Memᴰ.head e) =
      subst (λ y. Memᴰ y (insert_by key s (sort_by key xs))) (sym e)
        (mem-insert_self s (sort_by key xs))
  mem-sort x (s ∷ xs) (Memᴰ.tail m) = mem-insert x s (sort_by key xs) (mem-sort x xs m)

-- The same for the sorted values, and back.
mem-insert_value_self : (v : Name × ServiceDefinition) (vs : Values) → Memᴰ v (insert_value v vs)
mem-insert_value_self v [] = Memᴰ.head refl
mem-insert_value_self v (w ∷ vs) =
    mem_of_choice (name_less w.0 v.0) v (w ∷ insert_value v vs) (v ∷ w ∷ vs)
      (Memᴰ.tail (mem-insert_value_self v vs)) (Memᴰ.head refl)

mem-insert_value :
    (x v : Name × ServiceDefinition) (vs : Values) → Memᴰ x vs → Memᴰ x (insert_value v vs)
mem-insert_value x v [] h = elim h [ ]
mem-insert_value x v (w ∷ vs) (Memᴰ.head e) =
    mem_of_choice (name_less w.0 v.0) x (w ∷ insert_value v vs) (v ∷ w ∷ vs) (Memᴰ.head e)
      (Memᴰ.tail (Memᴰ.head e))
mem-insert_value x v (w ∷ vs) (Memᴰ.tail m) =
    mem_of_choice (name_less w.0 v.0) x (w ∷ insert_value v vs) (v ∷ w ∷ vs)
      (Memᴰ.tail (mem-insert_value x v vs m)) (Memᴰ.tail (Memᴰ.tail m))

pub mem-sort_values :
    (x : Name × ServiceDefinition) (vs : Values) → Memᴰ x vs → Memᴰ x (sort_values vs)
mem-sort_values x [] h = elim h [ ]
mem-sort_values x (v ∷ vs) (Memᴰ.head e) =
    subst (λ y. Memᴰ y (insert_value v (sort_values vs))) (sym e)
      (mem-insert_value_self v (sort_values vs))
mem-sort_values x (v ∷ vs) (Memᴰ.tail m) =
    mem-insert_value x v (sort_values vs) (mem-sort_values x vs m)

of_insert_value :
    (x v : Name × ServiceDefinition) (vs : Values) → Memᴰ x (insert_value v vs) → Memᴰ x (v ∷ vs)
of_insert_value x v [] h = h
of_insert_value x v (w ∷ vs) h =
    chosen (name_less w.0 v.0) (insert_value v vs) (of_insert_value x v vs) h
  where
    chosen :
        (b : Bool) (inserted : Values)
        → (Memᴰ x inserted → Memᴰ x (v ∷ vs))
        → Memᴰ x (if b then w ∷ inserted else v ∷ w ∷ vs)
        → Memᴰ x (v ∷ w ∷ vs)
    chosen false inserted ih h = h
    chosen true inserted ih (Memᴰ.head e) = Memᴰ.tail (Memᴰ.head e)
    chosen true inserted ih (Memᴰ.tail m) = elim (ih m) [
      | Memᴰ.head e ↦ Memᴰ.head e
      | Memᴰ.tail n ↦ Memᴰ.tail (Memᴰ.tail n)
    ]

pub of_sort_values :
    (x : Name × ServiceDefinition) (vs : Values) → Memᴰ x (sort_values vs) → Memᴰ x vs
of_sort_values x [] h = h
of_sort_values x (v ∷ vs) h = elim (of_insert_value x v (sort_values vs) h) [
  | Memᴰ.head e ↦ Memᴰ.head e
  | Memᴰ.tail m ↦ Memᴰ.tail (of_sort_values x vs m)
]
