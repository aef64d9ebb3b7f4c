-- ===== src/Federation/Compose.antt =====
-- `buildMapsFromServiceList` of internal/federation/compose.go. gqlparser's `ForNames`, the text of
-- a type and the parser behind `parseSelections` are arguments. The slice under a key of
-- `typeDefinitionsMap` is never empty: it is made by `append`.
pub mod Loops
pub mod Kept
pub mod Owners
pub mod Ownership
pub mod RootTypes
pub mod Tracking
pub mod Definitions
pub mod Entries
pub mod Maps
use fedeway.Prelude.{
  String, Bool, true, false, not, ◌&&◌, ◌||◌, Option, none, some, is_some, List, [], ◌∷◌, ◌++◌, any,
  contains, filter, lookup, assign, ◌==◌, if◌then◌else◌,
}
use fedeway.Outcome.{Outcome, done, failed, panicked, exhausted, ◌>>=◌}
use fedeway.Ast.{
  Kind, scalar, object, interface, union, enum, input_object, GqlType, Directive, FieldDefinition,
  Definition, SelectionSet,
}
use fedeway.Federation.Document.{DirectiveDefinition, SchemaDocument, ServiceDefinition}
use fedeway.Federation.Utils.{
  ExternalField, is_nonempty, strip_external_fields, strip_type_system_directives, map_field_names,
  map_enum_names, first_text,
}
use fedeway.Federation.Utils.Equivalence.{type_nodes_are_equivalent}
use fedeway.Federation.Compose.Maps.{
  TypeDefinitionEntity, TypeToServiceEntity, ServiceKeys, BuildMaps, no_maps, or_nil, list_at,
  append_to, unowned, or_unowned, entry_of, is_object_kind, last_definition, is_passed_over,
  extended_by, executable_locations, empty_definition, with_root_types,
}

-- a document without external fields and type system directives
unfoldable pub clean_doc :
    (List Directive → String → List Directive) → ServiceDefinition → SchemaDocument
unfolding strip_external_fields strip_type_system_directives
clean_doc for_names service =
    strip_type_system_directives (strip_external_fields for_names service.type_defs service.name).0

module _ (for_names : List Directive → String → List Directive) (type_string : GqlType → String)
    (parse_selections : String → Outcome SelectionSet) where
  -- one key directive, by the text of its first argument
  abbrev pub add_key :
      String
      → String
      → Option String
      → List (String × ServiceKeys)
      → Outcome (List (String × ServiceKeys))
  add_key service name none m = done m
  add_key service name (some text) m = do
    selections ← parse_selections text
    done (assign name (append_to service selections (list_at name m)) m)

  -- the loop over the key directives of a type
  unfoldable pub add_keys :
      String
      → String
      → List Directive
      → List (String × ServiceKeys)
      → Outcome (List (String × ServiceKeys))
  add_keys service name [] m = done m
  add_keys service name (d ∷ ds) m =
      add_key service name (first_text d) m >>= add_keys service name ds

  -- the loop over the definitions, then the extensions
  unfoldable pub add_all_keys :
      String → List Definition → List (String × ServiceKeys) → Outcome (List (String × ServiceKeys))
  unfolding add_keys
  add_all_keys service [] m = done m
  add_all_keys service (d ∷ ds) m =
      (if is_object_kind d.kind
        then add_keys service d.name (for_names d.directives "key") m
        else done m)
      >>= add_all_keys service ds

  -- `isValueType`, from the last definition that the type has
  unfoldable pub is_value_type : Definition → Option Definition → Bool
  unfolding type_nodes_are_equivalent
  is_value_type d none = false
  is_value_type d (some last) = type_nodes_are_equivalent type_string last d

  -- the body of the loop over the definitions
  unfoldable pub add_definition : String → Definition → BuildMaps → BuildMaps
  unfolding is_value_type
  add_definition service d m = record m {
    type_to_service =
        assign d.name (record (entry_of d.name m.type_to_service) { owning_service = service })
          m.type_to_service;
    value_types =
        if is_value_type d (last_definition (list_at d.name m.type_definitions))
        then m.value_types ++ d.name ∷ []
        else m.value_types;
    type_definitions =
        append_to d.name (record { service_name = service; definition = d }) m.type_definitions;
  }

  unfoldable pub add_definitions : String → List Definition → BuildMaps → BuildMaps
  unfolding add_definition
  add_definitions service [] m = m
  add_definitions service (d ∷ ds) m = add_definitions service ds (add_definition service d m)

  -- the body of the loop over the extensions
  unfoldable pub add_extension : String → Definition → BuildMaps → BuildMaps
  unfolding map_field_names map_enum_names
  add_extension service d m =
      let extended = record m {
        type_to_service = extended_by service d m.type_to_service;
        type_extensions =
            append_to d.name (record { service_name = service; definition = d }) m.type_extensions;
      } in
      if is_passed_over d then m else extended

  unfoldable pub add_extensions : String → List Definition → BuildMaps → BuildMaps
  unfolding add_extension
  add_extensions service [] m = m
  add_extensions service (d ∷ ds) m = add_extensions service ds (add_extension service d m)

  -- the loop over the directive definitions
  unfoldable pub add_directives : String → List DirectiveDefinition → BuildMaps → BuildMaps
  add_directives service [] m = m
  add_directives service (d ∷ ds) m =
      let locations = executable_locations d.locations in
      let kept = record d { locations = locations } in
      let others = list_at d.name m.directive_definitions in
      add_directives service ds (
        if is_nonempty locations
        then record m {
          directive_definitions =
              assign d.name (assign service kept others) m.directive_definitions;
        }
        else m)

  -- the maps after the loops over definitions, extensions and directives
  unfoldable pub add_document : String → SchemaDocument → BuildMaps → BuildMaps
  unfolding add_definitions add_extensions add_directives
  add_document service doc m =
      add_directives service doc.directives
        (add_extensions service doc.extensions (add_definitions service doc.definitions m))

  -- the body of the loop over the services
  unfoldable pub add_service : ServiceDefinition → BuildMaps → Outcome BuildMaps
  unfolding add_all_keys clean_doc add_document
  add_service service m =
      let doc = clean_doc for_names service in
      let stripped = (strip_external_fields for_names service.type_defs service.name).1 in
      add_all_keys service.name (doc.definitions ++ doc.extensions) m.key_directives >>= λ keys.
      done (
        add_document service.name doc
          (record m { external_fields = m.external_fields ++ stripped; key_directives = keys }))

  unfoldable pub add_services : List ServiceDefinition → BuildMaps → Outcome BuildMaps
  unfolding add_service
  add_services [] m = done m
  add_services (service ∷ services) m = add_service service m >>= add_services services

  -- `buildMapsFromServiceList`
  unfoldable pub build_maps : List ServiceDefinition → Outcome BuildMaps
  unfolding add_services
  build_maps services = add_services services no_maps >>= λ m. done (with_root_types m)
