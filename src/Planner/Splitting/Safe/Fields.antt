-- ===== src/Planner/Splitting/Safe/Fields.antt =====
-- `splitFields`, on levels below the bound.
use fedeway.Prelude.{
  ℕ, String, ◌&&◌, ◌||◌, Option, List, [], ◌∷◌, All, All-map, same, refl, Bool-cases, inl, inr,
}
use fedeway.Outcome.{Ends, is_exhausted-bind}
use fedeway.Ast.{GqlType, FieldNode, Definition, FieldDefinition}
use fedeway.Plan.{ResponsePath}
use fedeway.Planner.Scope.{Scope, parent_type, refine, possible_runtime_types, contains_type}
use fedeway.Planner.Grouping.{Field, group_by_response_name}
use fedeway.Planner.FieldSets.{group_by_scope}
use fedeway.Planner.Context.{PlanningContext, field_def_of}
use fedeway.Planner.Context.Services.Ends.{field_def_of-Ends}
use fedeway.Planner.FieldSets.Ends.{group_by_scope-Ends}
use fedeway.Planner.FieldSets.Parts.{group_by_response_name-All, group_by_scope-All}
use fedeway.Planner.Groups.{Planning}
use fedeway.Planner.Splitting.{
  is_introspection_type, is_typename_of_root, is_object, append_field, add_runtime_type,
  is_extended, split_directly, groups_for_types, with_field_def, complete_for_types,
  complete_for_groups, split_if_extended, split_scope, split_scopes, split_names, split_fields,
}
use fedeway.Planner.Splitting.Safe.{
  Grows, Grows-refl, Grows-trans, IsAtMost, IsAtMost-Grows, Safe, Anything, bind-Safe, return-Safe,
  lift-Safe, if-Safe,
}
use fedeway.Planner.Splitting.Safe.Groups.{append_field-Safe}

add_runtime_type-All :
    (P : ℕ → Type 0) (ref : ℕ) (typ : Definition) (index : List (ℕ × List Definition))
    → P ref
    → All (λ e. P e.0) index
    → All (λ e. P e.0) (add_runtime_type ref typ index)
add_runtime_type-All P ref typ [] h a = (h, tt)
add_runtime_type-All P ref typ (entry ∷ index) h a = elim (Bool-cases (same entry.0 ref)) [
  | inl t ↦ rw t (h, a.1)
  | inr t ↦ rw t (a.0, add_runtime_type-All P ref typ index h a.1)
]

module _ (qpctx : PlanningContext) (type_name : GqlType → String) where
  is_extended-Ends :
      (node : FieldNode) (types : List Definition) → Ends (is_extended qpctx type_name node types)
  is_extended-Ends node [] = refl
  is_extended-Ends node (typ ∷ types) =
      is_exhausted-bind (field_def_of qpctx typ node) _ (field_def_of-Ends qpctx typ node) (λ def e.
        is_exhausted-bind (is_extended qpctx type_name node types) _ (is_extended-Ends node types)
          (λ rest f. refl))

  module _ (bound k : ℕ) (P : Field → Type 0)
      (same_node : (f : Field) (def : FieldDefinition) → P f → P (record f { field_def = def }))
      (group_for : Field → Planning ℕ)
      (complete : Scope → ℕ → ResponsePath → List Field → Planning Field) (path : ResponsePath)
      (base : List ℕ)
      (finds : (ms : List ℕ)
        → Grows base ms
        → (f : Field) → Safe bound ms (IsAtMost k) (group_for f))
      (completes : (ms : List ℕ) (scope : Scope) (ref : ℕ) (fields : List Field)
        → IsAtMost k ms ref
        → All P fields
        → Safe bound ms (Anything bound) (complete scope ref path fields)) where
    append-Safe :
        (ls : List ℕ) (ref : ℕ) (field : Field)
        → IsAtMost k ls ref
        → Safe bound ls (Anything bound) (append_field ref field)
    append-Safe ls ref field (l, at, le) = append_field-Safe bound ls ref l field at

    split_directly-Safe :
        (ls : List ℕ) (field : Field) (fields : List Field)
        → Grows base ls
        → All P (field ∷ fields)
        → Safe bound ls
            (Anything bound)
            (split_directly qpctx type_name group_for complete path field fields)
    unfolding split_directly
    split_directly-Safe ls field fields grown h =
        bind-Safe bound ls (IsAtMost k) (Anything bound) _ _ (finds ls grown field) (λ ms g ref low.
          bind-Safe bound ms (Anything bound) (Anything bound) _ _
            (completes ms field.scope ref (field ∷ fields) low h)
            (λ ns g2 completed _. append-Safe ns ref completed (IsAtMost-Grows k ms ns ref g2 low)))

    abbrev AreLow : List ℕ → List (ℕ × List Definition) → Type 0
    AreLow ls index = All (λ e. IsAtMost k ls e.0) index

    AreLow-Grows :
        (ls ms : List ℕ) (index : List (ℕ × List Definition))
        → Grows ls ms
        → AreLow ls index
        → AreLow ms index
    AreLow-Grows ls ms index g h = All-map index (λ e low. IsAtMost-Grows k ls ms e.0 g low) h

    groups_for_types-Safe :
        (ls : List ℕ) (field : Field) (types : List Definition) (index : List (ℕ × List Definition))
        → Grows base ls
        → AreLow ls index
        → Safe bound ls AreLow
            (groups_for_types qpctx type_name group_for complete path field types index)
    unfolding groups_for_types
    groups_for_types-Safe ls field [] index grown h = return-Safe bound ls AreLow index h
    groups_for_types-Safe ls field (typ ∷ types) index grown h =
        bind-Safe bound ls (Anything bound) AreLow _ _
          (lift-Safe bound ls (λ def. Unit {0}) (field_def_of qpctx typ field.field_node)
            (field_def_of-Ends qpctx typ field.field_node) (λ def e. tt))
          (λ ms g def _.
            bind-Safe bound ms (IsAtMost k) AreLow _ _ (finds ms (Grows-trans base ls ms grown g) _)
              (λ ns g2 ref low.
                groups_for_types-Safe ns field types (add_runtime_type ref typ index)
                  (Grows-trans base ms ns (Grows-trans base ls ms grown g) g2)
                  (add_runtime_type-All (IsAtMost k ns) ref typ index low
                    (AreLow-Grows ls ns index (Grows-trans ls ms ns g g2) h))))

    with_field_def-All :
        (def : FieldDefinition) (fields : List Field)
        → All P fields
        → All P (with_field_def qpctx type_name group_for complete path def fields)
    with_field_def-All def [] h = tt
    with_field_def-All def (f ∷ fields) h = (same_node f def h.0, with_field_def-All def fields h.1)

    complete_for_types-Safe :
        (ls : List ℕ) (field : Field) (fields : List Field) (ref : ℕ) (types : List Definition)
        → IsAtMost k ls ref
        → All P (field ∷ fields)
        → Safe bound ls
            (Anything bound)
            (complete_for_types qpctx type_name group_for complete path field fields ref types)
    unfolding complete_for_types
    complete_for_types-Safe ls field fields ref [] low h =
        return-Safe bound ls (Anything bound) tt tt
    complete_for_types-Safe ls field fields ref (typ ∷ types) low h =
        bind-Safe bound ls (Anything bound) (Anything bound) _ _
          (lift-Safe bound ls (λ def. Unit {0}) (field_def_of qpctx typ field.field_node)
            (field_def_of-Ends qpctx typ field.field_node) (λ def e. tt))
          (λ ms g def _.
            bind-Safe bound ms (Anything bound) (Anything bound) _ _
              (completes ms (refine qpctx.schema field.scope typ []) ref _
                (IsAtMost-Grows k ls ms ref g low) (with_field_def-All def (field ∷ fields) h))
              (λ ns g2 completed _.
                let low_there = IsAtMost-Grows k ls ns ref (Grows-trans ls ms ns g g2) low in
                bind-Safe bound ns (Anything bound) (Anything bound) _ _
                  (append-Safe ns ref completed low_there)
                  (λ os g3 u _.
                    complete_for_types-Safe os field fields ref types
                      (IsAtMost-Grows k ns os ref g3 low_there) h)))

    complete_for_groups-Safe :
        (ls : List ℕ) (field : Field) (fields : List Field) (entries : List (ℕ × List Definition))
        → AreLow ls entries
        → All P (field ∷ fields)
        → Safe bound ls
            (Anything bound)
            (complete_for_groups qpctx type_name group_for complete path field fields entries)
    unfolding complete_for_groups
    complete_for_groups-Safe ls field fields [] low h = return-Safe bound ls (Anything bound) tt tt
    complete_for_groups-Safe ls field fields (entry ∷ entries) low h =
        bind-Safe bound ls (Anything bound) (Anything bound) _ _
          (complete_for_types-Safe ls field fields entry.0 entry.1 low.0 h)
          (λ ms g u _.
            complete_for_groups-Safe ms field fields entries (AreLow-Grows ls ms entries g low.1) h)

    split_if_extended-Safe :
        (ls : List ℕ) (field : Field) (fields : List Field) (types : List Definition)
        → Grows base ls
        → All P (field ∷ fields)
        → Safe bound ls
            (Anything bound)
            (split_if_extended qpctx type_name group_for complete path field fields types)
    split_if_extended-Safe ls field fields types grown h =
        bind-Safe bound ls (Anything bound) (Anything bound) _ _
          (lift-Safe bound ls (λ b. Unit {0}) (is_extended qpctx type_name field.field_node types)
            (is_extended-Ends field.field_node types) (λ b e. tt))
          (λ ms g extended _.
            let there = Grows-trans base ls ms grown g in
            if-Safe bound ms (Anything bound) extended _ _
              (bind-Safe bound ms AreLow (Anything bound) _ _
                (groups_for_types-Safe ms field types [] there tt)
                (λ ns g2 index low. complete_for_groups-Safe ns field fields index low h))
              (split_directly-Safe ms field fields there h))

    split_scope-Safe :
        (ls : List ℕ) (fields : List Field)
        → Grows base ls
        → All P fields
        → Safe bound ls
            (Anything bound)
            (split_scope qpctx type_name group_for complete path fields)
    unfolding split_scope
    split_scope-Safe ls [] grown h = λ s p. (refl, λ t a e. cc)
    split_scope-Safe ls (field ∷ fields) grown h =
        let types = possible_runtime_types qpctx.schema field.scope in
        if-Safe bound ls (Anything bound)
          (is_typename_of_root qpctx.schema field
            || is_introspection_type (type_name field.field_def.type))
          _ _ (return-Safe bound ls (Anything bound) tt tt)
          (if-Safe bound ls (Anything bound)
            (is_object (parent_type field.scope).kind
              && contains_type types (parent_type field.scope))
            _ _ (split_directly-Safe ls field fields grown h)
            (split_if_extended-Safe ls field fields types grown h))

    split_scopes-Safe :
        (ls : List ℕ) (groups : List (List Field))
        → Grows base ls
        → All (All P) groups
        → Safe bound ls
            (Anything bound)
            (split_scopes qpctx type_name group_for complete path groups)
    unfolding split_scopes
    split_scopes-Safe ls [] grown h = return-Safe bound ls (Anything bound) tt tt
    split_scopes-Safe ls (fields ∷ groups) grown h =
        bind-Safe bound ls (Anything bound) (Anything bound) _ _
          (split_scope-Safe ls fields grown h.0)
          (λ ms g u _. split_scopes-Safe ms groups (Grows-trans base ls ms grown g) h.1)

    split_names-Safe :
        (ls : List ℕ) (key : Scope → Option String) (groups : List (List Field))
        → Grows base ls
        → All (All P) groups
        → Safe bound ls
            (Anything bound)
            (split_names qpctx type_name group_for complete path key groups)
    unfolding split_names
    split_names-Safe ls key [] grown h = return-Safe bound ls (Anything bound) tt tt
    split_names-Safe ls key (fields ∷ groups) grown h =
        bind-Safe bound ls (λ ms scopes. All (All P) scopes) (Anything bound) _ _
          (lift-Safe bound ls (All (All P)) (group_by_scope key fields)
            (group_by_scope-Ends key fields)
            (λ scopes e. group_by_scope-All P key fields scopes e h.0))
          (λ ms g scopes parts.
            let there = Grows-trans base ls ms grown g in
            bind-Safe bound ms (Anything bound) (Anything bound) _ _
              (split_scopes-Safe ms scopes there parts)
              (λ ns g2 u _. split_names-Safe ns key groups (Grows-trans base ms ns there g2) h.1))

    pub split_fields-Safe :
        (key : Scope → Option String) (fields : List Field)
        → All P fields
        → Safe bound base
            (Anything bound)
            (split_fields qpctx type_name group_for complete path key fields)
    unfolding split_fields
    split_fields-Safe key fields h =
        split_names-Safe base key (group_by_response_name fields) (Grows-refl base)
          (group_by_response_name-All P fields h)
