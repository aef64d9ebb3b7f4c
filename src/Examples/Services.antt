-- ===== src/Examples/Services.antt =====
-- The federation passes and checks on a small service: `schema { query: RootQuery }`.
use fedeway.Prelude.{
  String, true, false, ◌&&◌, Option, none, some, List, [], ◌∷◌, map, filter, All, Memᴰ, ◌==◌, ◌≡◌,
  refl,
}
use fedeway.Ast.{
  object, enum, GqlType, leaf, wrapper, query, Directive, FieldDefinition, Definition,
}
use fedeway.Federation.Document.{SchemaDocument, ServiceDefinition, find_directives_on_node}
use fedeway.Federation.Normalize.{
  is_known_directive, root_operation_type_map, replace_extended_definitions_with_extensions,
  default_root_operation_types, strip_common_primitives,
}
use fedeway.Federation.Normalize.Extends.{replace_extended-moves}
use fedeway.Federation.Normalize.Roots.{
  IsNoRoot, HasDefaultNames, default_root_operation_types-IsNoRoot,
}
use fedeway.Federation.Normalize.Primitives.{IsFree, strip_common_primitives-IsFree}
use fedeway.Federation.Rules.{duplicate_enum_or_scalar}
use fedeway.Federation.Rules.Base.{is_silent}
use fedeway.Federation.Rules.Duplicates.{
  are_new, names_of, is_enum, is_scalar, duplicate_enum_or_scalar-silent,
}
use fedeway.Federation.Rules.EnumValues.{duplicate_enum_value}
use fedeway.Federation.Rules.EnumValues.Nodes.{is_fresh_enum}
use fedeway.Federation.Rules.EnumValues.Silent.{duplicate_enum_value-silent}

abbrev plain : String → Directive
plain name = record { name = name; arguments = [] }

abbrev typed : String → String → FieldDefinition
typed name type_name = record {
  ptr = 1;
  name = name;
  arguments = [];
  type = leaf type_name false;
  directives = [];
}

abbrev root_query : Definition
root_query = record {
  ptr = 20;
  kind = object;
  name = "RootQuery";
  directives = [];
  interfaces = [];
  fields = typed "me" "User" ∷ typed "again" "RootQuery" ∷ typed "old" "Query" ∷ [];
  types = [];
  enum_values = [];
}

abbrev user : Definition
user = record {
  ptr = 21;
  kind = object;
  name = "User";
  directives = plain "extends" ∷ plain "key" ∷ [];
  interfaces = [];
  fields = typed "id" "ID" ∷ [];
  types = [];
  enum_values = [];
}

abbrev service_document : SchemaDocument
service_document = record {
  schema =
      record {
        directives = [];
        operation_types = record { operation = query; type = "RootQuery" } ∷ [];
      }
      ∷ [];
  schema_extension = [];
  directives = [];
  definitions = root_query ∷ user ∷ [];
  extensions = [];
}

abbrev accounts : ServiceDefinition
accounts = record { type_defs = service_document; name = "accounts"; url = "" }

abbrev named : GqlType → String
named (leaf name non_null) = name
named (wrapper name elem non_null) = named elem

abbrev value_of : Option SchemaDocument → SchemaDocument
value_of none = service_document
value_of (some doc) = doc

abbrev defaulted : SchemaDocument
unfolding default_root_operation_types
defaulted = value_of (default_root_operation_types named service_document)

default_root_operation_types-IsNoRoot_example :
    All (IsNoRoot (root_operation_type_map service_document)) defaulted.definitions
    × All HasDefaultNames defaulted.schema
    × All HasDefaultNames defaulted.schema_extension
unfolding defaulted
default_root_operation_types-IsNoRoot_example =
    default_root_operation_types-IsNoRoot named service_document defaulted refl

replace_extended-moves_example :
    Memᴰ
      (record user { directives = plain "key" ∷ [] })
      (replace_extended_definitions_with_extensions service_document).extensions
unfolding find_directives_on_node
replace_extended-moves_example =
    replace_extended-moves service_document user (Memᴰ.tail (Memᴰ.head refl)) refl refl

strip_common_primitives-IsFree_example :
    All IsFree (strip_common_primitives service_document).definitions
    × All IsFree (strip_common_primitives service_document).extensions
    × All
        (λ d. is_known_directive d.name ≡ false)
        (strip_common_primitives service_document).directives
strip_common_primitives-IsFree_example = strip_common_primitives-IsFree service_document

abbrev by_name : List Directive → String → List Directive
by_name ds name = filter (λ d. d.name == name) ds

abbrev role : Definition
role = record user { kind = enum; name = "Role"; fields = [] }

abbrev with_roles : ServiceDefinition
with_roles = record accounts {
  type_defs = record service_document { definitions = role ∷ user ∷ role ∷ [] };
}

duplicate_enum_or_scalar-silent_example : is_silent (duplicate_enum_or_scalar with_roles) ≡ (
    are_new [] (names_of is_enum (role ∷ user ∷ role ∷ []))
    && are_new [] (names_of is_scalar (role ∷ user ∷ role ∷ [])))
duplicate_enum_or_scalar-silent_example = duplicate_enum_or_scalar-silent with_roles

duplicate_test : is_silent (duplicate_enum_or_scalar with_roles) ≡ false
unfolding duplicate_enum_or_scalar
duplicate_test = refl

abbrev role_with : List String → Definition
role_with names = record role {
  enum_values = map (λ n. record { name = n; directives = [] }) names;
}

abbrev with_values : List String → ServiceDefinition
with_values added = record accounts {
  type_defs = record service_document {
    definitions = user ∷ role_with ("ADMIN" ∷ []) ∷ [];
    extensions = role_with added ∷ [];
  };
}

duplicate_enum_value-silent_example :
    (is_silent (duplicate_enum_value (with_values ("GUEST" ∷ "USER" ∷ []))) ≡ true
      → (name : String)
      → is_fresh_enum name []
          (user ∷ role_with ("ADMIN" ∷ []) ∷ role_with ("GUEST" ∷ "USER" ∷ []) ∷ [])
        ≡ true)
    × (((name : String)
          → is_fresh_enum name []
              (user ∷ role_with ("ADMIN" ∷ []) ∷ role_with ("GUEST" ∷ "USER" ∷ []) ∷ [])
            ≡ true)
        → is_silent (duplicate_enum_value (with_values ("GUEST" ∷ "USER" ∷ []))) ≡ true)
duplicate_enum_value-silent_example =
    duplicate_enum_value-silent (with_values ("GUEST" ∷ "USER" ∷ []))

values_test : is_silent (duplicate_enum_value (with_values ("GUEST" ∷ "USER" ∷ []))) ≡ true
unfolding duplicate_enum_value
values_test = refl

repeated_value_test :
    is_silent (duplicate_enum_value (with_values ("GUEST" ∷ "ADMIN" ∷ []))) ≡ false
unfolding duplicate_enum_value
repeated_value_test = refl

abbrev same_text : String → String
same_text s = s
