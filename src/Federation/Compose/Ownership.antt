-- ===== src/Federation/Compose/Ownership.antt =====
-- What one definition, extension or directive of a service does to the owners.
use fedeway.Prelude.{
  String, Bool, true, false, not, ◌||◌, Option, some, List, [], ◌∷◌, any, lookup, assign, ◌==◌,
  eq_iff, if◌then◌else◌, Bool-cases, inl, inr, ◌≡◌, refl, ap, ◌∙◌,
}
use fedeway.Outcome.{Outcome}
use fedeway.Ast.{
  Kind, scalar, object, interface, union, enum, input_object, GqlType, Directive, FieldDefinition,
  EnumValue, Definition, SelectionSet,
}
use fedeway.Federation.Document.{DirectiveDefinition, ServiceDefinition}
use fedeway.Federation.Utils.{is_nonempty}
use fedeway.Federation.Compose.Maps.{
  TypeToServiceEntity, BuildMaps, list_at, entry_of, is_passed_over, executable_locations,
}
use fedeway.Federation.Compose.{
  clean_doc, add_definition, add_definitions, add_extension, add_extensions, add_directives,
}
use fedeway.Federation.Compose.Entries.{
  defines, declares, declares_for, entry_of-assign, undeclared, extended_by_lem,
}

module _ (for_names : List Directive → String → List Directive) where
  -- The last service that defines the type.
  abbrev pub last_definer : String → List ServiceDefinition → String → String
  last_definer name [] owner = owner
  last_definer name (s ∷ services) owner =
      last_definer name services
        (if defines name (clean_doc for_names s).definitions then s.name else owner)

  -- The last service that extends the type with the field, or the enum with the value.
  abbrev pub last_extender :
      String → String → List ServiceDefinition → Option String → Option String
  last_extender name field [] owner = owner
  last_extender name field (s ∷ services) owner =
      last_extender name field services
        (if declares_for name field (clean_doc for_names s).extensions then some s.name else owner)

-- What the maps say of a type, and of a field of its extensions.
abbrev pub owner_at : String → BuildMaps → String
owner_at name m = (entry_of name m.type_to_service).owning_service

abbrev pub field_owner_at : String → String → BuildMaps → Option String
field_owner_at name field m = lookup field (entry_of name m.type_to_service).extension_fields

types_of_choice :
    (b : Bool) (x y : BuildMaps)
    → x.type_to_service ≡ y.type_to_service
    → (if b then x else y).type_to_service ≡ y.type_to_service
types_of_choice true x y e = e
types_of_choice false x y e = refl

twice {ℓ} :
    {A : Type ℓ} (b c : Bool) (x y : A)
    → (if b then x else if c then x else y) ≡ (if c || b then x else y)
twice true true x y = refl
twice true false x y = refl
twice false true x y = refl
twice false false x y = refl

none_declared :
    (field : String) (fields : List FieldDefinition)
    → not (is_nonempty fields) ≡ true
    → any (λ (f : FieldDefinition). f.name == field) fields ≡ false
none_declared field [] h = refl
none_declared field (f ∷ fields) h = cc

no_value :
    (field : String) (values : List EnumValue)
    → not (is_nonempty values) ≡ true
    → any (λ (v : EnumValue). v.name == field) values ≡ false
no_value field [] h = refl
no_value field (v ∷ values) h = cc

passed_over-declares :
    (field : String) (d : Definition) (k : Kind)
    → d.kind ≡ k
    → is_passed_over d ≡ true
    → declares field d ≡ false
passed_over-declares field d object e h = rw e (none_declared field d.fields (rw e at h))
passed_over-declares field d input_object e h = rw e (none_declared field d.fields (rw e at h))
passed_over-declares field d enum e h = rw e (no_value field d.enum_values (rw e at h))
passed_over-declares field d scalar e h = rw e refl
passed_over-declares field d interface e h = rw e refl
passed_over-declares field d union e h = rw e refl

module _ (for_names : List Directive → String → List Directive) (type_string : GqlType → String)
    (parse_selections : String → Outcome SelectionSet) (name field : String) where
  module _ (service : String) where
    add_definition-owner :
        (d : Definition) (m : BuildMaps)
        → (owner_at name (add_definition for_names type_string parse_selections service d m)
            ≡ (if d.name == name then service else owner_at name m))
          × (field_owner_at name field
                (add_definition for_names type_string parse_selections service d m)
              ≡ field_owner_at name field m)
    unfolding add_definition
    add_definition-owner d m =
        let owned = record (entry_of d.name m.type_to_service) { owning_service = service } in
        let entry = entry_of-assign d.name name owned m.type_to_service in
        elim (Bool-cases (d.name == name)) [
          | inl t ↦ (
            ap (λ (e : TypeToServiceEntity). e.owning_service) entry ∙ rw t refl,
            ap (λ (e : TypeToServiceEntity). lookup field e.extension_fields) entry
                ∙ rw t (
                    ap (λ k. lookup field (entry_of k m.type_to_service).extension_fields)
                      ((eq_iff d.name name).0 t)),
          )
          | inr t ↦ (
            ap (λ (e : TypeToServiceEntity). e.owning_service) entry ∙ rw t refl,
            ap (λ (e : TypeToServiceEntity). lookup field e.extension_fields) entry ∙ rw t refl,
          )
        ]

    pub add_definitions-owner :
        (ds : List Definition) (m : BuildMaps)
        → (owner_at name (add_definitions for_names type_string parse_selections service ds m)
            ≡ (if defines name ds then service else owner_at name m))
          × (field_owner_at name field
                (add_definitions for_names type_string parse_selections service ds m)
              ≡ field_owner_at name field m)
    unfolding add_definitions
    add_definitions-owner [] m = (refl, refl)
    add_definitions-owner (d ∷ ds) m =
        let next = add_definition for_names type_string parse_selections service d m in
        let (owner, kept) = add_definitions-owner ds next in
        let (owner_here, kept_here) = add_definition-owner d m in
        (
          owner
              ∙ ap (λ o. if defines name ds then service else o) owner_here
              ∙ twice (defines name ds) (d.name == name) service (owner_at name m),
          kept ∙ kept_here,
        )

    add_extension-owner :
        (d : Definition) (m : BuildMaps)
        → (owner_at name (add_extension for_names type_string parse_selections service d m)
            ≡ owner_at name m)
          × (field_owner_at name field
                (add_extension for_names type_string parse_selections service d m)
              ≡ (if (if d.name == name then declares field d else false)
                  then some service
                  else field_owner_at name field m))
    unfolding add_extension
    add_extension-owner d m = elim (Bool-cases (is_passed_over d)) [
      | inl t ↦
          let nothing = passed_over-declares field d d.kind refl t in
          rw (t, nothing)
            (refl, undeclared (d.name == name) (some service) (field_owner_at name field m))
      | inr t ↦ rw t (extended_by_lem name field service d m.type_to_service d.kind refl)
    ]

    pub add_extensions-owner :
        (ds : List Definition) (m : BuildMaps)
        → (owner_at name (add_extensions for_names type_string parse_selections service ds m)
            ≡ owner_at name m)
          × (field_owner_at name field
                (add_extensions for_names type_string parse_selections service ds m)
              ≡ (if declares_for name field ds then some service else field_owner_at name field m))
    unfolding add_extensions
    add_extensions-owner [] m = (refl, refl)
    add_extensions-owner (d ∷ ds) m =
        let next = add_extension for_names type_string parse_selections service d m in
        let (kept, owner) = add_extensions-owner ds next in
        let (kept_here, owner_here) = add_extension-owner d m in
        (
          kept ∙ kept_here,
          owner
              ∙ ap (λ o. if declares_for name field ds then some service else o) owner_here
              ∙ twice (declares_for name field ds)
                  (if d.name == name then declares field d else false) (some service)
                  (field_owner_at name field m),
        )

    pub add_directives-types :
        (ds : List DirectiveDefinition) (m : BuildMaps)
        → (add_directives for_names type_string parse_selections service ds m).type_to_service
          ≡ m.type_to_service
    unfolding add_directives
    add_directives-types [] m = refl
    add_directives-types (d ∷ ds) m =
        let locations = executable_locations d.locations in
        let kept =
          assign service (record d { locations = locations })
            (list_at d.name m.directive_definitions) in
        let added = record m {
          directive_definitions = assign d.name kept m.directive_definitions;
        } in
        add_directives-types ds (if is_nonempty locations then added else m)
        ∙ types_of_choice (is_nonempty locations) added m refl
