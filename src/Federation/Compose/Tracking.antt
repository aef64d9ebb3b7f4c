-- ===== src/Federation/Compose/Tracking.antt =====
-- One definition in the loop of `buildMapsFromServiceList`, and the definitions of its name so far.
use fedeway.Prelude.{
  String, Bool, true, false, ◌&&◌, ◌||◌, Option, none, some, List, [], ◌∷◌, ◌++◌, append-nil,
  contains, lookup, lookup-assign, ◌==◌, eq_iff, if◌then◌else◌, Bool-cases, inl, inr, ◌≡◌, refl,
  sym, ap, ap₂, ◌∙◌, arith,
}
use fedeway.Outcome.{Outcome}
use fedeway.Ast.{GqlType, Directive, Definition, SelectionSet}
use fedeway.Federation.Document.{ServiceDefinition}
use fedeway.Federation.Utils.Equivalence.{type_nodes_are_equivalent}
use fedeway.Federation.Compose.Maps.{
  TypeDefinitionEntity, BuildMaps, or_nil, list_at, append_to, last_definition,
}
use fedeway.Federation.Compose.{clean_doc, is_value_type, add_definition}

-- The definitions of the name in a list, each with the service.
abbrev pub entities_named : String → String → List Definition → List TypeDefinitionEntity
entities_named name service [] = []
entities_named name service (d ∷ ds) =
    let rest = entities_named name service ds in
    if d.name == name then record { service_name = service; definition = d } ∷ rest else rest

-- The definitions of the name that the services have, in their order.
abbrev pub all_named :
    (List Directive → String → List Directive)
    → String
    → List ServiceDefinition
    → List TypeDefinitionEntity
all_named for_names name [] = []
all_named for_names name (s ∷ services) =
    entities_named name s.name (clean_doc for_names s).definitions
    ++ all_named for_names name services

-- A key of a map stands for the elements, if there are any.
abbrev pub as_entry {ℓ} : {A : Type ℓ} → List A → Option (List A)
as_entry [] = none
as_entry (x ∷ xs) = some (x ∷ xs)

or_nil-as_entry {ℓ} : {A : Type ℓ} (xs : List A) → or_nil (as_entry xs) ≡ xs
or_nil-as_entry [] = refl
or_nil-as_entry (x ∷ xs) = refl

as_entry-snoc {ℓ} :
    {A : Type ℓ} (xs : List A) (x : A) → some (xs ++ x ∷ []) ≡ as_entry (xs ++ x ∷ [])
as_entry-snoc [] x = refl
as_entry-snoc (y ∷ xs) x = refl

pub lookup-append_to :
    (name service : String) (d : Definition) (es : List TypeDefinitionEntity)
    (m : List (String × List TypeDefinitionEntity))
    → lookup name m ≡ as_entry es
    → lookup name (append_to d.name (record { service_name = service; definition = d }) m)
      ≡ as_entry (es ++ entities_named name service (d ∷ []))
lookup-append_to name service d es m h =
    let e : TypeDefinitionEntity = record { service_name = service; definition = d } in
    let stored = lookup-assign d.name name (list_at d.name m ++ e ∷ []) m in
    elim (Bool-cases (d.name == name)) [
      | inr t ↦ rw t (stored ∙ rw t (h ∙ ap as_entry (sym (append-nil es))))
      | inl t ↦
          let before : list_at d.name m ≡ es =
            ap (λ k. list_at k m) ((eq_iff d.name name).0 t) ∙ ap or_nil h ∙ or_nil-as_entry es in
          rw t (stored ∙ rw t (ap (λ xs. some (xs ++ e ∷ [])) before ∙ as_entry-snoc es e))
    ]

module _ (type_string : GqlType → String) where
  -- Two neighbours among the definitions are equivalent.
  abbrev pub has_equal_neighbours : List TypeDefinitionEntity → Bool
  has_equal_neighbours [] = false
  has_equal_neighbours (e ∷ []) = false
  has_equal_neighbours (e ∷ d ∷ es) =
      type_nodes_are_equivalent type_string e.definition d.definition
      || has_equal_neighbours (d ∷ es)

  pub or_swap : (a b c : Bool) → (a || (b || c)) ≡ ((a || b) || c)
  or_swap a b c = ground arith

  or_false : (a : Bool) → (a || false) ≡ a
  or_false a = ground arith

module _ (for_names : List Directive → String → List Directive) (type_string : GqlType → String)
    (parse_selections : String → Outcome SelectionSet) (name : String) where
  neighbours_snoc :
      (es : List TypeDefinitionEntity) (e : TypeDefinitionEntity)
      → has_equal_neighbours type_string (es ++ e ∷ []) ≡ (
          has_equal_neighbours type_string es
          || is_value_type for_names type_string parse_selections e.definition (last_definition es))
  unfolding is_value_type
  neighbours_snoc [] e = refl
  neighbours_snoc (d ∷ []) e =
      or_false type_string (type_nodes_are_equivalent type_string d.definition e.definition)
  neighbours_snoc (c ∷ d ∷ es) e =
      ap (λ b. type_nodes_are_equivalent type_string c.definition d.definition || b)
        (neighbours_snoc (d ∷ es) e)
      ∙ or_swap type_string (type_nodes_are_equivalent type_string c.definition d.definition)
          (has_equal_neighbours type_string (d ∷ es))
          (is_value_type for_names type_string parse_selections e.definition
            (last_definition (d ∷ es)))

  -- The maps have these definitions for the name.
  abbrev pub Tracks : List TypeDefinitionEntity → BuildMaps → Type 0
  Tracks es m =
      (lookup name m.type_definitions ≡ as_entry es)
      × (contains m.value_types name ≡ has_equal_neighbours type_string es)

  contains-snoc :
      (xs : List String) (x : String)
      → contains (xs ++ x ∷ []) name ≡ (contains xs name || x == name)
  contains-snoc [] x = ground arith
  contains-snoc (y ∷ xs) x = ground (arith, contains-snoc xs x)

  module _ (service : String) where
    value_types_lem :
        (b : Bool) (k : String) (vs : List String)
        → contains (if b then vs ++ k ∷ [] else vs) name ≡ (contains vs name || (b && k == name))
    value_types_lem true k vs = contains-snoc vs k
    value_types_lem false k vs = sym (or_false type_string (contains vs name))

    pub add_definition-Tracks :
        (d : Definition) (es : List TypeDefinitionEntity) (m : BuildMaps)
        → Tracks es m
        → Tracks
            (es ++ entities_named name service (d ∷ []))
            (add_definition for_names type_string parse_selections service d m)
    unfolding add_definition
    add_definition-Tracks d es m (defs, values) =
        let e : TypeDefinitionEntity = record { service_name = service; definition = d } in
        let value =
          is_value_type for_names type_string parse_selections d
            (last_definition (list_at d.name m.type_definitions)) in
        let stored =
          lookup-assign d.name name (list_at d.name m.type_definitions ++ e ∷ [])
            m.type_definitions in
        let valued = value_types_lem value d.name m.value_types in
        elim (Bool-cases (d.name == name)) [
          | inr t ↦ rw t (
            stored ∙ rw t (defs ∙ ap as_entry (sym (append-nil es))),
            valued
                ∙ rw t (
                    ap (λ b. contains m.value_types name || b) (and_false value)
                    ∙ or_false type_string (contains m.value_types name)
                    ∙ values
                    ∙ ap (has_equal_neighbours type_string) (sym (append-nil es))),
          )
          | inl t ↦
              let before : list_at d.name m.type_definitions ≡ es =
                ap (λ k. list_at k m.type_definitions) ((eq_iff d.name name).0 t)
                ∙ ap or_nil defs
                ∙ or_nil-as_entry es in
              rw t (
                stored ∙ rw t (ap (λ xs. some (xs ++ e ∷ [])) before ∙ as_entry-snoc es e),
                valued
                    ∙ rw t (
                        ap (λ b. contains m.value_types name || b) (and_true value)
                        ∙ ap₂ (λ a b. a || b) values
                            (ap
                              (λ xs.
                                is_value_type for_names type_string parse_selections d
                                  (last_definition xs))
                              before)
                        ∙ sym (neighbours_snoc es e)),
              )
        ]
      where
        and_false : (b : Bool) → (b && false) ≡ false
        and_false b = ground arith

        and_true : (b : Bool) → (b && true) ≡ b
        and_true b = ground arith
