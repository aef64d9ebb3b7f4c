-- ===== src/Federation/Normalize.antt =====
-- internal/federation/normalize.go. The passes change a document in place; here each returns it.
-- gqlparser's `(*Type).Name` is a parameter.
use fedeway.Prelude.{
  String, Bool, true, false, Option, none, some, ◌>>=◌, is_some, List, [], ◌∷◌, ◌++◌, map, filter,
  any, not, ◌&&◌, ◌||◌, contains, lookup, assign, ◌==◌, if◌then◌else◌,
}
use fedeway.Ast.{
  Kind, scalar, object, interface, union, enum, input_object, GqlType, leaf, wrapper,
  FieldDefinition, Definition, Operation, query, mutation, subscription, other_operation, Directive,
}
use fedeway.Federation.Document.{
  OperationType, SchemaDefinition, DirectiveDefinition, SchemaDocument, find_directives_on_node,
  Placed, as_definition, as_extension, dropped, stay, process, federation_directives,
  other_known_directives, specified_directives,
}
pub mod Extends
pub mod Roots
pub mod Primitives

-- the test of a loop over a list for its length: `len(xs) > 0`
abbrev pub is_nonempty {ℓ} : {A : Type ℓ} → List A → Bool
is_nonempty [] = false
is_nonempty (x ∷ xs) = true

abbrev pub is_object_or_interface : Kind → Bool
is_object_or_interface object = true
is_object_or_interface interface = true
is_object_or_interface _ = false

-- `processDef` of `replaceExtendedDefinitionsWithExtensions`
unfoldable pub place_extended : Bool → Definition → Placed
unfolding find_directives_on_node
place_extended is_extension node =
    let filtered = filter (λ d. not (d.name == "extends")) node.directives in
    if not (is_object_or_interface node.kind)
    then stay is_extension node
    else if not (is_nonempty (find_directives_on_node node "extends"))
    then stay is_extension node
    else if is_nonempty filtered
    then as_extension (record node { directives = filtered })
    else stay is_extension node

unfoldable pub replace_extended_definitions_with_extensions : SchemaDocument → SchemaDocument
unfolding place_extended
replace_extended_definitions_with_extensions = process place_extended

-- `includesDefaultRootOperationNames`
abbrev pub includes_default : String → Bool
includes_default = contains ("Query" ∷ "Mutation" ∷ "Subscription" ∷ [])

-- `defaultRootOperationNameLookup`; a missing key gives the empty text
abbrev pub default_root_name : Operation → String
default_root_name query = "Query"
default_root_name mutation = "Mutation"
default_root_name subscription = "Subscription"
default_root_name (other_operation s) = ""

abbrev pub RootMap : Type 0
RootMap = List (String × String)

-- `m[name]`
abbrev pub root_name : RootMap → String → String
root_name m name = elim (lookup name m) [ none ↦ "" | some v ↦ v ]

abbrev add_operations : List OperationType → RootMap → RootMap
add_operations [] m = m
add_operations (t ∷ ts) m = add_operations ts (assign t.type (default_root_name t.operation) m)

abbrev add_schemas : List SchemaDefinition → RootMap → RootMap
add_schemas [] m = m
add_schemas (def ∷ defs) m = add_schemas defs (add_operations def.operation_types m)

-- `hasSchemaDefinitionOrExtension`
abbrev pub has_schema : SchemaDocument → Bool
has_schema doc = any (λ def. is_nonempty def.operation_types) (doc.schema ++ doc.schema_extension)

-- `rootOperationTypeMap`
unfoldable pub root_operation_type_map : SchemaDocument → RootMap
root_operation_type_map doc =
    if has_schema doc
    then add_schemas (doc.schema ++ doc.schema_extension) []
    else ("Query", "Query") ∷ ("Mutation", "Mutation") ∷ ("Subscription", "Subscription") ∷ []

-- the second `processDef`: root operation types get their default names and become extensions
unfoldable pub place_root : RootMap → Bool → Definition → Placed
place_root roots is_extension node =
    let name = root_name roots node.name in
    if not (name == "") || includes_default node.name
    then as_extension (if not (name == "") then record node { name = name } else node)
    else stay is_extension node

-- `field.Type.NamedType = …`
abbrev pub set_named_type : GqlType → String → GqlType
set_named_type (leaf old non_null) name = leaf name non_null
set_named_type (wrapper old elem non_null) name = wrapper name elem non_null

-- `processSchemaDef`, which panics on an operation that it does not know
abbrev default_operation_types : List OperationType → Option (List OperationType)
default_operation_types [] = some []
default_operation_types (t ∷ ts) =
    let rest = default_operation_types ts >>= λ us.
    some (record t { type = default_root_name t.operation } ∷ us) in
    elim t.operation [ other_operation s ↦ none | _ ↦ rest ]

unfoldable pub process_schema_def : List SchemaDefinition → Option (List SchemaDefinition)
process_schema_def [] = some []
process_schema_def (def ∷ defs) = default_operation_types def.operation_types >>= λ types.
    process_schema_def defs >>= λ rest. some (record def { operation_types = types } ∷ rest)

module _ (type_name : GqlType → String) where
  -- `processFieldDef`
  unfoldable pub process_field_def : List FieldDefinition → List FieldDefinition
  process_field_def = filter (λ field. not (includes_default (type_name field.type)))

  -- the first `processDef` of `defaultRootOperationTypes`
  unfoldable pub place_unless_conflicting : RootMap → Bool → Definition → Placed
  unfolding process_field_def
  place_unless_conflicting roots is_extension node = elim node.kind [
    | object ↦
        if includes_default node.name && not (is_some (lookup node.name roots))
        then dropped
        else stay is_extension (record node { fields = process_field_def node.fields })
    | _ ↦ stay is_extension node
  ]

  unfoldable pub rename_field_type : RootMap → FieldDefinition → FieldDefinition
  rename_field_type roots field = elim (lookup (type_name field.type) roots) [
    | none ↦ field
    | some name ↦ record field { type = set_named_type field.type name }
  ]

  abbrev rename_fields : RootMap → Definition → Definition
  rename_fields roots def = record def { fields = map (rename_field_type roots) def.fields }

  -- `defaultRootOperationTypes`; `none` is a panic
  unfoldable pub default_root_operation_types : SchemaDocument → Option SchemaDocument
  unfolding place_unless_conflicting place_root rename_field_type process_schema_def
      root_operation_type_map
  default_root_operation_types doc =
      let roots = root_operation_type_map doc in
      let kept = if has_schema doc then process (place_unless_conflicting roots) doc else doc in
      let moved = process (place_root roots) kept in
      process_schema_def kept.schema >>= λ schema.
      process_schema_def kept.schema_extension >>= λ schema_extension. some (record moved {
        schema = schema;
        schema_extension = schema_extension;
        definitions = map (rename_fields roots) moved.definitions;
      })

-- the fields of `Query` that federation adds
abbrev pub is_federation_field : FieldDefinition → Bool
is_federation_field field = contains ("_service" ∷ "_entities" ∷ []) field.name

-- the `Query` type without these fields
abbrev pub without_federation_fields : Definition → Definition
without_federation_fields node = record node {
  fields =
      if node.name == "Query"
      then filter (λ f. not (is_federation_field f)) node.fields
      else node.fields;
}

abbrev pub place_by_kind : Kind → Bool → Definition → Placed
place_by_kind object is_extension node =
    let stripped = without_federation_fields node in
    if node.name == "Query" && not (is_nonempty stripped.fields)
    then dropped
    else if node.name == "_Service"
    then dropped
    else stay is_extension stripped
place_by_kind scalar is_extension node =
    if contains ("_Any" ∷ "_FieldSet" ∷ []) node.name then dropped else stay is_extension node
place_by_kind union is_extension node =
    if node.name == "_Entity" then dropped else stay is_extension node
place_by_kind _ is_extension node = stay is_extension node

-- `processDef` of `stripCommonPrimitives`
unfoldable pub place_unless_primitive : Bool → Definition → Placed
place_unless_primitive is_extension node = place_by_kind node.kind is_extension node

-- the three loops over the directives that are known
unfoldable pub is_known_directive : String → Bool
is_known_directive name =
    contains federation_directives name
    || contains other_known_directives name
    || contains specified_directives name

-- `stripCommonPrimitives`
unfoldable pub strip_common_primitives : SchemaDocument → SchemaDocument
unfolding place_unless_primitive is_known_directive
strip_common_primitives doc =
    process place_unless_primitive
      (record doc { directives = filter (λ d. not (is_known_directive d.name)) doc.directives })

-- `normalizeTypeDefs`
unfoldable pub normalize_type_defs : (GqlType → String) → SchemaDocument → Option SchemaDocument
unfolding strip_common_primitives default_root_operation_types
    replace_extended_definitions_with_extensions
normalize_type_defs type_name doc =
    default_root_operation_types type_name (replace_extended_definitions_with_extensions doc)
    >>= λ defaulted. some (strip_common_primitives defaulted)
