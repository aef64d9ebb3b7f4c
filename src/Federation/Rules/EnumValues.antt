-- ===== src/Federation/Rules/EnumValues.antt =====
-- internal/federation/pre_composition.go: `duplicateEnumValue`. A definition that is not an enum is
-- skipped. The loops over definitions and extensions are the same but for an error's position.
pub mod Silent
pub mod Nodes
use fedeway.Prelude.{
  String, Bool, true, false, not, ◌&&◌, ◌||◌, Option, none, some, List, [], ◌∷◌, ◌++◌, map,
  append-nil, contains, lookup, assign, lookup-assign, concat, ◌==◌, eq_refl, eq_iff, if◌then◌else◌,
  Bool-cases, inl, inr, ◌⊎◌, ◌≡◌, refl, sym, ap, ◌∙◌, arith,
}
use fedeway.Ast.{Kind, scalar, object, interface, union, enum, input_object, Definition, EnumValue}
use fedeway.Federation.Document.{ServiceDefinition, SchemaDocument}
use fedeway.Federation.Utils.{log_service_and_type}
use fedeway.Federation.Rules.{RuleError, error_if}
use fedeway.Federation.Rules.Base.{is_silent, is_silent-append}
use fedeway.Federation.Rules.Duplicates.{is_enum, error_if_silent}

abbrev pub EnumMap : Type 0
EnumMap = List (String × List String)

abbrev pub or_empty : Option (List String) → List String
or_empty none = []
or_empty (some values) = values

-- Go's `enums[name]`
abbrev pub values_of : EnumMap → String → List String
values_of enums name = or_empty (lookup name enums)

abbrev pub value_names : Definition → List String
value_names d = map (λ (v : EnumValue). v.name) d.enum_values

abbrev pub value_error : String → String → String → RuleError
value_error service name value = record {
  code = "DUPLICATE_ENUM_VALUE";
  message = concat (
      log_service_and_type service name value
      ∷ " The enum, `"
      ∷ name
      ∷ "` has multiple definitions of the `"
      ∷ value
      ∷ "` value."
      ∷ []);
}

-- the loop over the values of a node whose enum has values already
unfoldable pub add_values :
    String → String → List String → List String → List RuleError × List String
add_values service name known [] = ([], known)
add_values service name known (v ∷ values) =
    let (errors, final) = add_values service name (known ++ v ∷ []) values in
    (error_if (contains known v) (value_error service name v) errors, final)

unfoldable pub add_node : String → String → List String → List String → List RuleError × List String
unfolding add_values
add_node service name [] values = ([], values)
add_node service name (k ∷ known) values = add_values service name (k ∷ known) values

-- the loop over the nodes
unfoldable pub enum_nodes : String → EnumMap → List Definition → List RuleError × EnumMap
unfolding add_node
enum_nodes service enums [] = ([], enums)
enum_nodes service enums (d ∷ ds) =
    let (found, values) = add_node service d.name (values_of enums d.name) (value_names d) in
    let (more, final) = enum_nodes service (assign d.name values enums) ds in
    let skipped = enum_nodes service enums ds in
    elim d.kind [ enum ↦ (found ++ more, final) | _ ↦ skipped ]

-- `duplicateEnumValue`
unfoldable pub duplicate_enum_value : ServiceDefinition → List RuleError
unfolding enum_nodes
duplicate_enum_value service =
    let (errors, enums) = enum_nodes service.name [] service.type_defs.definitions in
    errors ++ (enum_nodes service.name enums service.type_defs.extensions).0
