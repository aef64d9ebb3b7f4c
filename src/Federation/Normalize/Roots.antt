-- ===== src/Federation/Normalize/Roots.antt =====
-- `defaultRootOperationTypes`: where the root operation types of a service go.
use fedeway.Prelude.{
  String, Bool, true, false, not, ◌||◌, Option, none, some, some_eq, bind-eq-some, List, [], ◌∷◌,
  map, All, ◌==◌, if◌then◌else◌, Bool-cases, inl, inr, eq_iff, ◌≡◌, refl, arith,
}
use fedeway.Ast.{Definition, GqlType, Operation, query, mutation, subscription, other_operation}
use fedeway.Federation.Document.{OperationType, SchemaDefinition, SchemaDocument, stay, process}
use fedeway.Federation.Document.Placing.{InDefinitions, definitions-process}
use fedeway.Federation.Normalize.{
  includes_default, default_root_name, RootMap, root_name, has_schema, root_operation_type_map,
  process_field_def, place_unless_conflicting, place_root, rename_fields, process_schema_def,
  default_operation_types, default_root_operation_types,
}

-- No root operation type, by its own name or by a default one.
abbrev pub IsNoRoot : RootMap → Definition → Type 0
IsNoRoot roots d = (root_name roots d.name ≡ "") × (includes_default d.name ≡ false)

abbrev pub HasDefaultNames : SchemaDefinition → Type 0
HasDefaultNames def = All (λ t. t.type ≡ default_root_name t.operation) def.operation_types

IsNoRoot-stay :
    (roots : RootMap) (b : Bool) (d : Definition)
    → IsNoRoot roots d
    → InDefinitions (IsNoRoot roots) (stay b d)
IsNoRoot-stay roots true d h = tt
IsNoRoot-stay roots false d h = h

place_root-IsNoRoot :
    (roots : RootMap) (b : Bool) (d : Definition)
    → InDefinitions (IsNoRoot roots) (place_root roots b d)
unfolding place_root
place_root-IsNoRoot roots b d =
    elim (Bool-cases (not (root_name roots d.name == "") || includes_default d.name)) [
      | inl root ↦ rw root tt
      | inr plain ↦
          rw plain (IsNoRoot-stay roots b d (ground (arith, eq_iff (root_name roots d.name) "")))
    ]

known_operation {ℓ} :
    {A : Type ℓ} (o : Operation) (rest : Option A) {a : A}
    → (elim o [ other_operation s ↦ none | _ ↦ rest ]) ≡ some a
    → rest ≡ some a
known_operation query rest h = h
known_operation mutation rest h = h
known_operation subscription rest h = h
known_operation (other_operation s) rest h = cc

default_operation_types_lem :
    (ts : List OperationType) {us : List OperationType}
    → default_operation_types ts ≡ some us
    → All (λ t. t.type ≡ default_root_name t.operation) us
default_operation_types_lem [] h = rw (← some_eq h) tt
default_operation_types_lem (t ∷ ts) h =
    let (us, e, h1) =
      bind-eq-some (default_operation_types ts) _ (known_operation t.operation _ h) in
    rw (← some_eq h1) (refl, default_operation_types_lem ts e)

process_schema_def-HasDefaultNames :
    (defs : List SchemaDefinition) {out : List SchemaDefinition}
    → process_schema_def defs ≡ some out
    → All HasDefaultNames out
unfolding process_schema_def
process_schema_def-HasDefaultNames [] h = rw (← some_eq h) tt
process_schema_def-HasDefaultNames (def ∷ defs) h =
    let (types, e, h1) = bind-eq-some (default_operation_types def.operation_types) _ h in
    let (rest, f, h2) = bind-eq-some (process_schema_def defs) _ h1 in
    rw (← some_eq h2)
      (default_operation_types_lem def.operation_types e, process_schema_def-HasDefaultNames defs f)

module _ (type_name : GqlType → String) where
  All-rename_fields :
      (roots : RootMap) (ds : List Definition)
      → All (IsNoRoot roots) ds
      → All (IsNoRoot roots) (map (rename_fields type_name roots) ds)
  All-rename_fields roots [] h = tt
  All-rename_fields roots (d ∷ ds) h = (h.0, All-rename_fields roots ds h.1)

  abbrev kept : SchemaDocument → SchemaDocument
  kept doc =
      if has_schema doc
      then process (place_unless_conflicting type_name (root_operation_type_map doc)) doc
      else doc

  -- What `defaultRootOperationTypes` leaves: no definition has the name of a root operation type,
  -- its own or a default one, and every schema definition and extension names the default types.
  pub default_root_operation_types-IsNoRoot :
      (doc out : SchemaDocument)
      → default_root_operation_types type_name doc ≡ some out
      → All (IsNoRoot (root_operation_type_map doc)) out.definitions
        × All HasDefaultNames out.schema
        × All HasDefaultNames out.schema_extension
  unfolding default_root_operation_types
  default_root_operation_types-IsNoRoot doc out h =
      let roots = root_operation_type_map doc in
      let (schema, e, h1) = bind-eq-some (process_schema_def (kept doc).schema) _ h in
      let (extension, f, h2) = bind-eq-some (process_schema_def (kept doc).schema_extension) _ h1 in
      rw (← some_eq h2) (
        All-rename_fields roots _ (
            definitions-process (place_root roots) (kept doc) (IsNoRoot roots)
              (place_root-IsNoRoot roots)),
        process_schema_def-HasDefaultNames (kept doc).schema e,
        process_schema_def-HasDefaultNames (kept doc).schema_extension f,
      )

  abbrev cleaned : Definition → Definition
  cleaned d = record d { fields = process_field_def type_name d.fields }
