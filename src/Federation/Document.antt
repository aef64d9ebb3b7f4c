-- ===== src/Federation/Document.antt =====
-- What a service's schema document is made of, beyond the definitions, and the names of the
-- directives that federation knows.
pub mod Placing
use fedeway.Prelude.{
  String, Bool, Option, none, some, List, [], ◌∷◌, ◌++◌, map, filter, any, not, contains, ◌==◌,
}
use fedeway.Ast.{Operation, Directive, ArgumentDefinition, Definition}

-- `ast.OperationTypeDefinition`
pub record OperationType : Type 0 where
  pub operation : Operation
  pub type : String

-- `ast.SchemaDefinition`
pub record SchemaDefinition : Type 0 where
  pub directives : List Directive
  pub operation_types : List OperationType

-- `ast.DirectiveDefinition`
pub record DirectiveDefinition : Type 0 where
  pub name : String
  pub arguments : List ArgumentDefinition
  pub locations : List String
  pub is_repeatable : Bool

-- `ast.SchemaDocument`
pub record SchemaDocument : Type 0 where
  pub schema : List SchemaDefinition
  pub schema_extension : List SchemaDefinition
  pub directives : List DirectiveDefinition
  pub definitions : List Definition
  pub extensions : List Definition

-- `ServiceDefinition`
pub record ServiceDefinition : Type 0 where
  pub type_defs : SchemaDocument
  pub name : String
  pub url : String

-- `federationDirectives`
abbrev pub federation_directives : List String
federation_directives = "key" ∷ "extends" ∷ "external" ∷ "requires" ∷ "provides" ∷ []

-- `otherKnownDirectiveDefinitions`
abbrev pub other_known_directives : List String
other_known_directives = "tag" ∷ []

-- `SpecifiedDirectives` of internal/graphql
abbrev pub specified_directives : List String
specified_directives = "include" ∷ "skip" ∷ "deprecated" ∷ "specifiedBy" ∷ []

-- `findDirectivesOnNode`
unfoldable pub find_directives_on_node : Definition → String → List Directive
find_directives_on_node def name = filter (λ d. d.name == name) def.directives

-- Where a pass over a document puts a definition or an extension.
pub data Placed : Type 0 where
  as_definition as_extension : Definition → Placed
  dropped : Placed

abbrev pub definitions_of : List Placed → List Definition
definitions_of [] = []
definitions_of (as_definition d ∷ ps) = d ∷ definitions_of ps
definitions_of (_ ∷ ps) = definitions_of ps

abbrev pub extensions_of : List Placed → List Definition
extensions_of [] = []
extensions_of (as_extension d ∷ ps) = d ∷ extensions_of ps
extensions_of (_ ∷ ps) = extensions_of ps

-- A node goes back where it comes from.
abbrev pub stay : Bool → Definition → Placed
stay Bool.true d = as_extension d
stay Bool.false d = as_definition d

-- `processDef(definitions, false)`, then `processDef(extensions, true)`, each of which appends to
-- the two lists of the document.
abbrev pub placements : (Bool → Definition → Placed) → SchemaDocument → List Placed
placements place doc =
    map (place Bool.false) doc.definitions ++ map (place Bool.true) doc.extensions

abbrev pub process : (Bool → Definition → Placed) → SchemaDocument → SchemaDocument
process place doc = record doc {
  definitions = definitions_of (placements place doc);
  extensions = extensions_of (placements place doc);
}
