-- ===== src/Federation/Compose/Entries.antt =====
-- The entries of `typeToServiceMap`: owners of a type and of the fields of its extensions.
use fedeway.Prelude.{
  String, Bool, true, false, ◌||◌, Option, some, List, [], ◌∷◌, any, lookup, assign, lookup-assign,
  ◌==◌, eq_iff, if◌then◌else◌, Bool-cases, inl, inr, ◌≡◌, refl, ap, ◌∙◌, arith,
}
use fedeway.Ast.{
  Kind, scalar, object, interface, union, enum, input_object, FieldDefinition, EnumValue,
  Definition,
}
use fedeway.Federation.Utils.{map_field_names, map_enum_names}
use fedeway.Federation.Compose.Maps.{TypeToServiceEntity, or_unowned, entry_of, extended_by}

-- Some definition has the name.
abbrev pub defines : String → List Definition → Bool
defines name = any (λ d. d.name == name)

-- The definition has the field, or the enum the value.
abbrev pub declares : String → Definition → Bool
declares field d = elim d.kind [
  | object ↦ any (λ (f : FieldDefinition). f.name == field) d.fields
  | input_object ↦ any (λ (f : FieldDefinition). f.name == field) d.fields
  | enum ↦ any (λ (v : EnumValue). v.name == field) d.enum_values
  | _ ↦ false
]

-- Some definition of the name declares the field.
abbrev pub declares_for : String → String → List Definition → Bool
declares_for name field [] = false
declares_for name field (d ∷ ds) =
    (if d.name == name then declares field d else false) || declares_for name field ds

lookup-map_field_names :
    (field service : String) (fields : List FieldDefinition) (m : List (String × String))
    → lookup field (map_field_names fields service m) ≡ (
        if any (λ (f : FieldDefinition). f.name == field) fields
        then some service
        else lookup field m)
unfolding map_field_names
lookup-map_field_names field service [] m = refl
lookup-map_field_names field service (f ∷ fields) m = ground (
  arith,
  lookup-map_field_names field service fields (assign f.name service m),
  lookup-assign f.name field service m,
)

lookup-map_enum_names :
    (field service : String) (values : List EnumValue) (m : List (String × String))
    → lookup field (map_enum_names values service m)
      ≡ (if any (λ (v : EnumValue). v.name == field) values then some service else lookup field m)
unfolding map_enum_names
lookup-map_enum_names field service [] m = refl
lookup-map_enum_names field service (v ∷ values) m = ground (
  arith,
  lookup-map_enum_names field service values (assign v.name service m),
  lookup-assign v.name field service m,
)

pub entry_of-assign :
    (name other : String) (e : TypeToServiceEntity) (m : List (String × TypeToServiceEntity))
    → entry_of other (assign name e m) ≡ (if name == other then e else entry_of other m)
entry_of-assign name other e m =
    ap or_unowned (lookup-assign name other e m)
    ∙ elim (Bool-cases (name == other)) [ inl t ↦ rw t refl | inr t ↦ rw t refl ]

pub undeclared {ℓ} :
    {A : Type ℓ} (b : Bool) (x y : A) → y ≡ (if (if b then false else false) then x else y)
undeclared true x y = refl
undeclared false x y = refl

module _ (name field service : String) (d : Definition)
    (m : List (String × TypeToServiceEntity)) where
  abbrev pub owner_in : List (String × TypeToServiceEntity) → String
  owner_in n = (entry_of name n).owning_service

  abbrev pub field_owner_in : List (String × TypeToServiceEntity) → Option String
  field_owner_in n = lookup field (entry_of name n).extension_fields

  -- An entry that is changed in its extension fields only.
  owner-extended :
      (fields : List (String × String))
      → owner_in (assign d.name (record (entry_of d.name m) { extension_fields = fields }) m)
        ≡ owner_in m
  owner-extended fields =
      ap (λ (e : TypeToServiceEntity). e.owning_service)
        (entry_of-assign d.name name (record (entry_of d.name m) { extension_fields = fields }) m)
      ∙ elim (Bool-cases (d.name == name)) [
        | inl t ↦ rw t (ap owner_of_key ((eq_iff d.name name).0 t))
        | inr t ↦ rw t refl
      ]
    where
      owner_of_key : String → String
      owner_of_key k = (entry_of k m).owning_service

  field_owner-extended :
      (fields : List (String × String)) (declared : Bool)
      → lookup field fields
        ≡ (if declared then some service else lookup field (entry_of d.name m).extension_fields)
      → field_owner_in (assign d.name (record (entry_of d.name m) { extension_fields = fields }) m)
        ≡ (if (if d.name == name then declared else false) then some service else field_owner_in m)
  field_owner-extended fields declared h =
      ap (λ (e : TypeToServiceEntity). lookup field e.extension_fields)
        (entry_of-assign d.name name (record (entry_of d.name m) { extension_fields = fields }) m)
      ∙ elim (Bool-cases (d.name == name)) [
        | inl t ↦ rw t (
            h
            ∙ ap
                (λ k.
                  if declared then some service else lookup field (entry_of k m).extension_fields)
                ((eq_iff d.name name).0 t))
        | inr t ↦ rw t refl
      ]

  pub extended_by_lem :
      (k : Kind)
      → d.kind ≡ k
      → (owner_in (extended_by service d m) ≡ owner_in m)
        × (field_owner_in (extended_by service d m) ≡ (
            if (if d.name == name then declares field d else false)
            then some service
            else field_owner_in m))
  extended_by_lem object e =
      let fields = map_field_names d.fields service (entry_of d.name m).extension_fields in
      rw e (
        owner-extended fields,
        field_owner-extended fields (any (λ (f : FieldDefinition). f.name == field) d.fields)
            (lookup-map_field_names field service d.fields (entry_of d.name m).extension_fields),
      )
  extended_by_lem input_object e =
      let fields = map_field_names d.fields service (entry_of d.name m).extension_fields in
      rw e (
        owner-extended fields,
        field_owner-extended fields (any (λ (f : FieldDefinition). f.name == field) d.fields)
            (lookup-map_field_names field service d.fields (entry_of d.name m).extension_fields),
      )
  extended_by_lem enum e =
      let fields = map_enum_names d.enum_values service (entry_of d.name m).extension_fields in
      rw e (
        owner-extended fields,
        field_owner-extended fields (any (λ (v : EnumValue). v.name == field) d.enum_values) (
            lookup-map_enum_names field service d.enum_values (entry_of d.name m).extension_fields),
      )
  extended_by_lem scalar e =
      rw e (refl, undeclared (d.name == name) (some service) (field_owner_in m))
  extended_by_lem interface e =
      rw e (refl, undeclared (d.name == name) (some service) (field_owner_in m))
  extended_by_lem union e =
      rw e (refl, undeclared (d.name == name) (some service) (field_owner_in m))
