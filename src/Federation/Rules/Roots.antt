-- ===== src/Federation/Rules/Roots.antt =====
-- `rootFieldUsed` and `tagDirectiveRule` of internal/federation/pre_normalization.go. gqlparser's
-- `ForName` and `(*Type).String`, and `strings.ToLower` and `ToUpper` on a root's name, are
-- parameters.
use fedeway.Prelude.{
  String, Bool, false, ◌&&◌, Option, none, some, List, [], ◌∷◌, ◌++◌, all, contains, length, same,
  ◌==◌, if◌then◌else◌, concat,
}
use fedeway.Ast.{GqlType, Definition}
use fedeway.Federation.Document.{
  OperationType, SchemaDefinition, DirectiveDefinition, ServiceDefinition,
}
use fedeway.Federation.Normalize.{includes_default, default_root_name, has_schema}
use fedeway.Federation.Utils.{log_service_and_type, log_directive}
use fedeway.Federation.Rules.{RuleError}

-- `disallowedTypeNames`
abbrev disallowed_of : List OperationType → List String
disallowed_of [] = []
disallowed_of (t ∷ ts) =
    let rest = disallowed_of ts in
    if includes_default t.type then rest else default_root_name t.operation ∷ rest

abbrev pub disallowed : List SchemaDefinition → List String
disallowed [] = []
disallowed (def ∷ defs) = disallowed_of def.operation_types ++ disallowed defs

module _ (to_lower to_upper : String → String) where
  abbrev pub root_error : String → String → RuleError
  root_error service name = record {
    code = concat ("ROOT_" ∷ to_upper name ∷ "_USED" ∷ []);
    message = concat (
        log_service_and_type service name ""
        ∷ " Found invalid use of default root operation name `"
        ∷ name
        ∷ "`. `"
        ∷ name
        ∷ "` is disallowed when `Schema."
        ∷ to_lower name
        ∷ "` is set to a type other than `"
        ∷ name
        ∷ "`"
        ∷ []);
  }

  abbrev pub root_errors : String → List String → List Definition → List RuleError
  root_errors service names [] = []
  root_errors service names (d ∷ ds) =
      let rest = root_errors service names ds in
      if contains names d.name then root_error service d.name ∷ rest else rest

  -- `rootFieldUsed`
  unfoldable pub root_field_used : ServiceDefinition → List RuleError
  root_field_used service =
      let defs = service.type_defs in
      if has_schema defs
      then root_errors service.name (disallowed (defs.schema ++ defs.schema_extension))
          (defs.definitions ++ defs.extensions)
      else []

abbrev is_tag_location : String → Bool
is_tag_location = contains ("FIELD_DEFINITION" ∷ "INTERFACE" ∷ "OBJECT" ∷ "UNION" ∷ [])

module _ (type_string : GqlType → String) where
  -- the chain of tests on the definition of `@tag`
  unfoldable pub is_tag_definition : DirectiveDefinition → Bool
  is_tag_definition def = elim def.arguments [
    | [] ↦ false
    | a ∷ args ↦
        same (length args) 0
        && a.name == "name"
        && type_string a.type == "String!"
        && def.is_repeatable
        && same (length def.locations) 4
        && all is_tag_location def.locations
  ]

  abbrev tag_error : String → RuleError
  tag_error service = record {
    code = "TAG_DIRECTIVE_DEFINITION_INVALID";
    message = concat (
        log_directive "tag"
        ∷ " Found @tag definition in service "
        ∷ service
        ∷ ", but the @tag directive definition was invalid. Please ensure the directive definition in your schema's type definitions matches the following:\n\tdirective @tag(name: String!) repeatable on FIELD_DEFINITION | INTERFACE | OBJECT | UNION"
        ∷ []);
  }

  -- `tagDirectiveRule`
  unfoldable pub tag_directive_rule :
      (List DirectiveDefinition → String → Option DirectiveDefinition)
      → ServiceDefinition
      → List RuleError
  unfolding is_tag_definition
  tag_directive_rule for_name service = elim (for_name service.type_defs.directives "tag") [
    | none ↦ []
    | some def ↦ if is_tag_definition def then [] else tag_error service.name ∷ []
  ]
