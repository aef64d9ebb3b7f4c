-- ===== src/Federation/Utils.antt =====
-- internal/federation/utils.go. gqlparser's `ForNames` and `(*Type).String`, and the parser behind
-- `parseSelections`, are parameters.
pub mod External
pub mod Equivalence
use fedeway.Prelude.{
  String, Bool, true, false, not, ◌&&◌, ◌||◌, Option, none, some, List, [], ◌∷◌, ◌++◌, map, filter,
  any, all, find, contains, assign, same, length, ◌==◌, if◌then◌else◌, concat,
}
use fedeway.Ast.{
  Kind, scalar, object, interface, union, enum, input_object, GqlType, Value, value, ValueKind,
  string_value, block_value, Argument, Directive, ArgumentDefinition, FieldDefinition, EnumValue,
  Definition, Selection, field, FieldNode, field_node, name_of, selection_set_of, SelectionSet,
  empty, select,
}
use fedeway.Federation.Document.{
  SchemaDefinition, DirectiveDefinition, SchemaDocument, ServiceDefinition, federation_directives,
  other_known_directives,
}

-- `ExternalFieldDefinition`
pub record ExternalField : Type 0 where
  pub field : FieldDefinition
  pub parent_type_name : String
  pub service_name : String

abbrev pub has_fields : Kind → Bool
has_fields object = true
has_fields interface = true
has_fields _ = false

abbrev pub is_nonempty {ℓ} : {A : Type ℓ} → List A → Bool
is_nonempty [] = false
is_nonempty (x ∷ xs) = true

module _ (for_names : List Directive → String → List Directive) where
  abbrev pub is_external : FieldDefinition → Bool
  is_external f = is_nonempty (for_names f.directives "external")

  abbrev external_fields : String → Definition → List FieldDefinition → List ExternalField
  external_fields service node [] = []
  external_fields service node (f ∷ fields) =
      let rest = external_fields service node fields in
      if is_external f
      then record { field = f; parent_type_name = node.name; service_name = service } ∷ rest
      else rest

  -- one extension without its external fields, and these
  unfoldable pub strip_node : String → Definition → Definition × List ExternalField
  strip_node service node =
      if has_fields node.kind
      then (
        record node { fields = filter (λ f. not (is_external f)) node.fields },
        external_fields service node node.fields,
      )
      else (node, [])

  unfoldable pub strip_nodes : String → List Definition → List Definition × List ExternalField
  unfolding strip_node
  strip_nodes service [] = ([], [])
  strip_nodes service (node ∷ nodes) =
      let (kept, stripped) = strip_node service node in
      let (others, rest) = strip_nodes service nodes in (kept ∷ others, stripped ++ rest)

  -- `stripExternalFieldsFromTypeDefs`
  unfoldable pub strip_external_fields :
      SchemaDocument → String → SchemaDocument × List ExternalField
  unfolding strip_nodes
  strip_external_fields doc service =
      let (kept, stripped) = strip_nodes service doc.extensions in
      (record doc { extensions = kept }, stripped)

-- `isKeep` and `filterDirectives`
abbrev pub keep_directives : List Directive → List Directive
keep_directives = filter (λ d.
    contains
      ("deprecated" ∷ "specifiedBy" ∷ "key" ∷ "extends" ∷ "external" ∷ "requires" ∷ "provides"
        ∷ "tag" ∷ [])
      d.name)

abbrev strip_argument : ArgumentDefinition → ArgumentDefinition
strip_argument a = record a { directives = keep_directives a.directives }

abbrev strip_field : FieldDefinition → FieldDefinition
strip_field f = record f {
  directives = keep_directives f.directives;
  arguments = map strip_argument f.arguments;
}

abbrev strip_enum_value : EnumValue → EnumValue
strip_enum_value v = record v { directives = keep_directives v.directives }

-- the body of the loops over definitions and over extensions
abbrev strip_definition : Definition → Definition
strip_definition d = record d {
  directives = keep_directives d.directives;
  fields = map strip_field d.fields;
  enum_values = map strip_enum_value d.enum_values;
}

abbrev strip_schema : SchemaDefinition → SchemaDefinition
strip_schema s = record s { directives = keep_directives s.directives }

-- `stripTypeSystemDirectivesFromTypeDefs`
unfoldable pub strip_type_system_directives : SchemaDocument → SchemaDocument
strip_type_system_directives doc = record doc {
  schema = map strip_schema doc.schema;
  schema_extension = map strip_schema doc.schema_extension;
  definitions = map strip_definition doc.definitions;
  extensions = map strip_definition doc.extensions;
}

-- `logServiceAndType`, `logDirective`
abbrev pub log_service_and_type : String → String → String → String
log_service_and_type service type_name field_name =
    let field_part = if field_name == "" then "" else concat ("." ∷ field_name ∷ []) in
    concat ("[" ∷ service ∷ "] " ∷ type_name ∷ field_part ∷ " ->" ∷ [])

abbrev pub log_directive : String → String
log_directive name = concat ("[@" ∷ name ∷ "] -> " ∷ [])

-- `mapFieldNamesToServiceName`, `mapEnumNamesToServiceName`
unfoldable pub map_field_names :
    List FieldDefinition → String → List (String × String) → List (String × String)
map_field_names [] service m = m
map_field_names (f ∷ fields) service m = map_field_names fields service (assign f.name service m)

unfoldable pub map_enum_names :
    List EnumValue → String → List (String × String) → List (String × String)
map_enum_names [] service m = m
map_enum_names (v ∷ values) service m = map_enum_names values service (assign v.name service m)

-- `isApolloTypeSystemDirective`, `isFederationDirective`
abbrev pub is_apollo_type_system_directive : String → Bool
is_apollo_type_system_directive name =
    contains (federation_directives ++ other_known_directives) name

abbrev pub is_federation_directive : String → Bool
is_federation_directive name = contains federation_directives name

-- the loop over the parsed selections for a field of the name
abbrev pub selects_name : SelectionSet → String → Bool
selects_name empty name = false
selects_name (select (field node) rest) name = name_of node == name || selects_name rest name
selects_name (select _ rest) name = selects_name rest name

-- the text of a directive's first argument, if it is one
abbrev pub first_text : Directive → Option String
first_text d = text_of d.arguments
  where
    text_of : List Argument → Option String
    text_of [] = none
    text_of (a ∷ args) = elim a.value [
      | value kind raw children ↦ elim kind [
        | string_value ↦ some raw
        | block_value ↦ some raw
        | _ ↦ none
      ]
    ]
