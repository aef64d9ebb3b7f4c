-- ===== src/Federation/Compose/Maps.antt =====
-- The maps that composition makes of the services, and how they are changed.
use fedeway.Prelude.{
  String, Bool, true, false, not, ◌&&◌, Option, none, some, is_some, List, [], ◌∷◌, ◌++◌, contains,
  filter, lookup, assign, if◌then◌else◌,
}
use fedeway.Ast.{Kind, object, enum, input_object, Definition, SelectionSet}
use fedeway.Federation.Document.{DirectiveDefinition}
use fedeway.Federation.Utils.{ExternalField, is_nonempty, map_field_names, map_enum_names}

-- `TypeDefinitionEntity`
pub record TypeDefinitionEntity : Type 0 where
  pub service_name : String
  pub definition : Definition

-- `TypeToServiceEntity`
pub record TypeToServiceEntity : Type 0 where
  pub owning_service : String
  pub extension_fields : List (String × String)

-- `ServiceNameToKeyDirectivesMap`
abbrev pub ServiceKeys : Type 0
ServiceKeys = List (String × List SelectionSet)

-- `buildMaps`, without the metadata of directives
pub record BuildMaps : Type 0 where
  pub type_to_service : List (String × TypeToServiceEntity)
  pub type_definitions : List (String × List TypeDefinitionEntity)
  pub type_extensions : List (String × List TypeDefinitionEntity)
  pub directive_definitions : List (String × List (String × DirectiveDefinition))
  pub external_fields : List ExternalField
  pub key_directives : List (String × ServiceKeys)
  pub value_types : List String

abbrev pub no_maps : BuildMaps
no_maps = record {
  type_to_service = [];
  type_definitions = [];
  type_extensions = [];
  directive_definitions = [];
  external_fields = [];
  key_directives = [];
  value_types = [];
}

abbrev pub or_nil {ℓ} : {A : Type ℓ} → Option (List A) → List A
or_nil none = []
or_nil (some xs) = xs

-- Go's `m[k]` for a map of slices or of maps
abbrev pub list_at {ℓ} : {A : Type ℓ} → String → List (String × List A) → List A
list_at k m = or_nil (lookup k m)

-- `m[k] = append(m[k], x)`
abbrev pub append_to {ℓ} :
    {A : Type ℓ} → String → A → List (String × List A) → List (String × List A)
append_to k x m = assign k (list_at k m ++ x ∷ []) m

abbrev pub unowned : TypeToServiceEntity
unowned = record { owning_service = ""; extension_fields = [] }

abbrev pub or_unowned : Option TypeToServiceEntity → TypeToServiceEntity
or_unowned none = unowned
or_unowned (some e) = e

-- the entry of a type, made if there is none
abbrev pub entry_of : String → List (String × TypeToServiceEntity) → TypeToServiceEntity
entry_of name m = or_unowned (lookup name m)

abbrev pub is_object_kind : Kind → Bool
is_object_kind object = true
is_object_kind _ = false

abbrev pub last_definition : List TypeDefinitionEntity → Option Definition
last_definition [] = none
last_definition (e ∷ []) = some e.definition
last_definition (e ∷ d ∷ es) = last_definition (d ∷ es)

-- an extension of a type without fields, or of an enum without values, is passed over
abbrev pub is_passed_over : Definition → Bool
is_passed_over d = elim d.kind [
  | object ↦ not (is_nonempty d.fields)
  | input_object ↦ not (is_nonempty d.fields)
  | enum ↦ not (is_nonempty d.enum_values)
  | _ ↦ false
]

-- the owners that an extension gives to its fields or enum values
abbrev pub extended_by :
    String → Definition → List (String × TypeToServiceEntity) → List (String × TypeToServiceEntity)
extended_by service d m =
    let entry = entry_of d.name m in
    elim d.kind [
      | object ↦
          assign d.name
            (record entry {
              extension_fields = map_field_names d.fields service entry.extension_fields;
            })
            m
      | input_object ↦
          assign d.name
            (record entry {
              extension_fields = map_field_names d.fields service entry.extension_fields;
            })
            m
      | enum ↦
          assign d.name
            (record entry {
              extension_fields = map_enum_names d.enum_values service entry.extension_fields;
            })
            m
      | _ ↦ m
    ]

-- `executableLocations`
abbrev pub executable_locations : List String → List String
executable_locations = filter (λ location.
    contains
      ("QUERY" ∷ "MUTATION" ∷ "SUBSCRIPTION" ∷ "FIELD" ∷ "FRAGMENT_DEFINITION" ∷ "FRAGMENT_SPREAD"
        ∷ "INLINE_FRAGMENT" ∷ "VARIABLE_DEFINITION" ∷ [])
      location)

-- `emptyQueryDefinition`, `emptyMutationDefinition`
abbrev pub empty_definition : String → TypeDefinitionEntity
empty_definition name = record {
  service_name = "";
  definition = record {
    ptr = 0;
    kind = object;
    name = name;
    directives = [];
    interfaces = [];
    fields = [];
    types = [];
    enum_values = [];
  };
}

-- a definition of Query, and one of Mutation if it is extended
abbrev pub with_root_types : BuildMaps → BuildMaps
with_root_types m =
    let defined = λ (name : String). is_some (lookup name m.type_definitions) in
    let extended = is_some (lookup "Mutation" m.type_extensions) in
    let with_query =
      if defined "Query"
      then m.type_definitions
      else assign "Query" (empty_definition "Query" ∷ []) m.type_definitions in
    record m {
      type_definitions =
          if extended && not (defined "Mutation")
          then assign "Mutation" (empty_definition "Mutation" ∷ []) with_query
          else with_query;
    }
