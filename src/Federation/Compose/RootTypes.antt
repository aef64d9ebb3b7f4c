-- ===== src/Federation/Compose/RootTypes.antt =====
-- The root types that composition adds to the definitions of the services.
use fedeway.Prelude.{
  String, Bool, true, false, not, ◌&&◌, none, some, is_some, List, [], ◌∷◌, lookup, assign,
  lookup-assign, ◌==◌, eq_iff, if◌then◌else◌, Bool-cases, inl, inr, ◌≡◌, refl, sym, ap, ◌∙◌, subst,
  arith,
}
use fedeway.Federation.Compose.Maps.{
  TypeDefinitionEntity, BuildMaps, empty_definition, with_root_types,
}
use fedeway.Federation.Compose.Tracking.{as_entry}

-- The root types that composition adds: Query, and Mutation if it is extended.
abbrev pub or_root :
    (extended : Bool) → String → List TypeDefinitionEntity → List TypeDefinitionEntity
or_root extended name (e ∷ es) = e ∷ es
or_root extended name [] =
    if "Query" == name
    then empty_definition "Query" ∷ []
    else if extended && "Mutation" == name
    then empty_definition "Mutation" ∷ []
    else []

of_map :
    (name : String) (b : Bool) (x y : List (String × List TypeDefinitionEntity))
    → lookup name x ≡ lookup name y
    → lookup name (if b then x else y) ≡ lookup name y
of_map name true x y e = e
of_map name false x y e = refl

-- The entry of `name` after a root type is added, if it is missing.
lookup_default :
    (root name : String) (added : List TypeDefinitionEntity)
    (m : List (String × List TypeDefinitionEntity))
    → lookup name (if is_some (lookup root m) then m else assign root added m)
      ≡ (if root == name && not (is_some (lookup name m)) then some added else lookup name m)
lookup_default root name added m = elim (Bool-cases (root == name)) [
  | inl t ↦
      let here : root ≡ name = (eq_iff root name).0 t in
      ap (λ o. lookup name (if is_some (lookup o m) then m else assign root added m)) here
      ∙ elim (Bool-cases (is_some (lookup name m))) [
        | inl known ↦ rw (t, known) refl
        | inr new ↦ rw (t, new) (lookup-assign root name added m ∙ rw t refl)
      ]
  | inr t ↦
      of_map name (is_some (lookup root m)) m (assign root added m)
        (sym (lookup-assign root name added m ∙ rw t refl))
      ∙ lookup-assign root name added m
      ∙ rw t refl
]

abbrev pub RootAt : String → List TypeDefinitionEntity → BuildMaps → Type 0
RootAt name es m =
    lookup name (with_root_types m).type_definitions
    ≡ as_entry (or_root (is_some (lookup "Mutation" m.type_extensions)) name es)

other_root :
    (extended : Bool) (name : String) (es : List TypeDefinitionEntity)
    → ("Mutation" == name) ≡ false
    → (if "Query" == name && not (is_some (as_entry es))
        then some (empty_definition "Query" ∷ [])
        else as_entry es)
      ≡ as_entry (or_root extended name es)
other_root extended name (e ∷ es) t = ground arith
other_root true name [] t = rw t (only_query ("Query" == name))
  where
    only_query :
        (b : Bool)
        → (if b && true then some (empty_definition "Query" ∷ []) else none)
          ≡ as_entry (if b then empty_definition "Query" ∷ [] else [])
    only_query true = refl
    only_query false = refl
other_root false name [] t = only_query ("Query" == name)
  where
    only_query :
        (b : Bool)
        → (if b && true then some (empty_definition "Query" ∷ []) else none)
          ≡ as_entry (if b then empty_definition "Query" ∷ [] else [])
    only_query true = refl
    only_query false = refl

at_mutation :
    (es : List TypeDefinitionEntity) (m : BuildMaps)
    → lookup "Mutation" m.type_definitions ≡ as_entry es
    → RootAt "Mutation" es m
at_mutation [] m h =
    let defs = m.type_definitions in
    let with_query =
      if is_some (lookup "Query" defs)
      then defs
      else assign "Query" (empty_definition "Query" ∷ []) defs in
    let query = lookup_default "Query" "Mutation" (empty_definition "Query" ∷ []) defs in
    elim (Bool-cases (is_some (lookup "Mutation" m.type_extensions))) [
      | inl x ↦
          rw (x, h)
            (lookup-assign "Mutation" "Mutation" (empty_definition "Mutation" ∷ []) with_query)
      | inr x ↦ rw x (query ∙ h)
    ]
at_mutation (e ∷ es) m h =
    let query =
      lookup_default "Query" "Mutation" (empty_definition "Query" ∷ []) m.type_definitions in
    elim (Bool-cases (is_some (lookup "Mutation" m.type_extensions))) [
      | inl x ↦ rw (x, h) (query ∙ h)
      | inr x ↦ rw x (query ∙ h)
    ]

pub with_root_types-lookup :
    (name : String) (es : List TypeDefinitionEntity) (m : BuildMaps)
    → lookup name m.type_definitions ≡ as_entry es
    → RootAt name es m
with_root_types-lookup name es m h = elim (Bool-cases ("Mutation" == name)) [
  | inl t ↦
      let here : "Mutation" ≡ name = (eq_iff "Mutation" name).0 t in
      subst (λ k. RootAt k es m) here
        (at_mutation es m (ap (λ k. lookup k m.type_definitions) here ∙ h))
  | inr t ↦
      let defs = m.type_definitions in
      let with_query =
        if is_some (lookup "Query" defs)
        then defs
        else assign "Query" (empty_definition "Query" ∷ []) defs in
      let extended = is_some (lookup "Mutation" m.type_extensions) in
      of_map name (extended && not (is_some (lookup "Mutation" defs)))
        (assign "Mutation" (empty_definition "Mutation" ∷ []) with_query) with_query
        (lookup-assign "Mutation" name (empty_definition "Mutation" ∷ []) with_query ∙ rw t refl)
      ∙ lookup_default "Query" name (empty_definition "Query" ∷ []) defs
      ∙ rw h (other_root extended name es t)
]
