-- ===== src/Federation/Rules.antt =====
-- internal/federation/pre_normalization.go and pre_composition.go: the checks of one service. An
-- error is its code and its message; `type_string` is gqlparser's `(*Type).String`.
pub mod Base
pub mod Duplicates
pub mod EnumValues
pub mod Roots
use fedeway.Prelude.{
  String, Bool, true, false, not, ◌&&◌, ◌||◌, Option, none, some, List, [], ◌∷◌, ◌++◌, map, filter,
  any, all, find, contains, lookup, assign, same, length, ◌==◌, if◌then◌else◌, concat,
}
use fedeway.Ast.{
  Kind, scalar, object, enum, GqlType, Directive, FieldDefinition, EnumValue, Definition, Operation,
  query,
}
use fedeway.Federation.Document.{
  OperationType, SchemaDefinition, DirectiveDefinition, SchemaDocument, ServiceDefinition,
}
use fedeway.Federation.Utils.{log_service_and_type, log_directive}

-- `gqlerror.Error`, as far as it is set
pub record RuleError : Type 0 where
  pub code : String
  pub message : String

abbrev flatten {ℓ} : {A : Type ℓ} → List (List A) → List A
flatten [] = []
flatten (xs ∷ xss) = xs ++ flatten xss

-- one error for each directive of the name, with this code and message
abbrev pub errors_for : String → RuleError → List Directive → List RuleError
errors_for name error [] = []
errors_for name error (d ∷ ds) =
    let rest = errors_for name error ds in if d.name == name then error ∷ rest else rest

abbrev pub field_errors :
    String → (FieldDefinition → RuleError) → List FieldDefinition → List RuleError
field_errors name error [] = []
field_errors name error (f ∷ fields) =
    errors_for name (error f) f.directives ++ field_errors name error fields

abbrev pub external_error : String → Definition → FieldDefinition → RuleError
external_error service d f = record {
  code = "EXTERNAL_USED_ON_BASE";
  message = concat (
      log_service_and_type service d.name f.name
      ∷ " Found extraneous @external directive. @external cannot be used on base types."
      ∷ []);
}

-- the loop of `externalUsedOnBase`
unfoldable pub external_used : String → List Definition → List RuleError
external_used service [] = []
external_used service (d ∷ ds) =
    field_errors "external" (external_error service d) d.fields ++ external_used service ds

-- `externalUsedOnBase`
unfoldable pub external_used_on_base : ServiceDefinition → List RuleError
unfolding external_used
external_used_on_base service = external_used service.name service.type_defs.definitions

abbrev pub requires_error : String → Definition → FieldDefinition → RuleError
requires_error service d f = record {
  code = "REQUIRES_USED_ON_BASE";
  message = concat (
      log_service_and_type service d.name f.name
      ∷ " Found extraneous @requires directive. @requires cannot be used on base types."
      ∷ []);
}

abbrev pub is_object : Kind → Bool
is_object object = true
is_object _ = false

-- the loop of `requiresUsedOnBase`
unfoldable pub requires_used : String → List Definition → List RuleError
requires_used service [] = []
requires_used service (d ∷ ds) =
    let rest = requires_used service ds in
    if is_object d.kind
    then field_errors "requires" (requires_error service d) d.fields ++ rest
    else rest

-- `requiresUsedOnBase`
unfoldable pub requires_used_on_base : ServiceDefinition → List RuleError
unfolding requires_used
requires_used_on_base service = requires_used service.name service.type_defs.definitions

-- the loops of `reservedFieldUsed` over the schema definitions: the last query type counts
abbrev query_of : String → List OperationType → String
query_of name [] = name
query_of name (t ∷ ts) = query_of (elim t.operation [ query ↦ t.type | _ ↦ name ]) ts

unfoldable pub root_query_name : String → List SchemaDefinition → String
root_query_name name [] = name
root_query_name name (def ∷ defs) = root_query_name (query_of name def.operation_types) defs

abbrev pub is_reserved : FieldDefinition → Bool
is_reserved f = contains ("_service" ∷ "_entities" ∷ []) f.name

abbrev pub reserved_error : String → String → FieldDefinition → RuleError
reserved_error service root f = record {
  code = "RESERVED_FIELD_USED";
  message = concat (
      log_service_and_type service root f.name
      ∷ " "
      ∷ f.name
      ∷ " is a field reserved for federation and can't be used at the Query root."
      ∷ []);
}

abbrev pub reserved_errors : String → String → List FieldDefinition → List RuleError
reserved_errors service root [] = []
reserved_errors service root (f ∷ fields) =
    let rest = reserved_errors service root fields in
    if is_reserved f then reserved_error service root f ∷ rest else rest

unfoldable pub reserved_used : String → String → List Definition → List RuleError
reserved_used service root [] = []
reserved_used service root (d ∷ ds) =
    let rest = reserved_used service root ds in
    if d.name == root then reserved_errors service root d.fields ++ rest else rest

-- `reservedFieldUsed`
unfoldable pub reserved_field_used : ServiceDefinition → List RuleError
unfolding root_query_name reserved_used
reserved_field_used service =
    let defs = service.type_defs in
    reserved_used service.name
      (root_query_name (root_query_name "Query" defs.schema) defs.schema_extension) defs.definitions

abbrev pub is_in : List String → String → Bool
is_in = contains

abbrev pub duplicate_error : String → String → String → String → RuleError
duplicate_error service kind code name = record {
  code = code;
  message = concat (
      log_service_and_type service name ""
      ∷ " The "
      ∷ kind
      ∷ ", `"
      ∷ name
      ∷ "` was defined multiple times in this service. Remove one of the definitions for `"
      ∷ name
      ∷ "`"
      ∷ []);
}

abbrev pub error_if : Bool → RuleError → List RuleError → List RuleError
error_if true e rest = e ∷ rest
error_if false e rest = rest

-- the loop of `duplicateEnumOrScalar`, with the names of the two maps
unfoldable pub duplicates : String → List String → List String → List Definition → List RuleError
duplicates service enums scalars [] = []
duplicates service enums scalars (d ∷ ds) =
    let as_enum = duplicates service (d.name ∷ enums) scalars ds in
    let as_scalar = duplicates service enums (d.name ∷ scalars) ds in
    let skipped = duplicates service enums scalars ds in
    elim d.kind [
      | enum ↦
          error_if (contains enums d.name)
            (duplicate_error service "enum" "DUPLICATE_ENUM_DEFINITION" d.name) as_enum
      | scalar ↦
          error_if (contains scalars d.name)
            (duplicate_error service "scalar" "DUPLICATE_SCALAR_DEFINITION" d.name) as_scalar
      | _ ↦ skipped
    ]

-- `duplicateEnumOrScalar`
unfoldable pub duplicate_enum_or_scalar : ServiceDefinition → List RuleError
unfolding duplicates
duplicate_enum_or_scalar service = duplicates service.name [] [] service.type_defs.definitions
