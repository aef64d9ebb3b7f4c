-- ===== src/Federation/Utils/Equivalence.antt =====
-- `typeNodesAreEquivalent` and `directiveTypeNodesAreEquivalent` of internal/federation/utils.go,
-- where `type_string` is gqlparser's `(*Type).String`.
use fedeway.Prelude.{
  String, Bool, true, false, not, ◌&&◌, List, [], ◌∷◌, length, same, ◌==◌, if◌then◌else◌, ◌≡◌,
  arith,
}
use fedeway.Ast.{
  Kind, scalar, object, interface, union, enum, input_object, GqlType, Argument, Directive,
  ArgumentDefinition, FieldDefinition, EnumValue, Definition,
}
use fedeway.Federation.Document.{DirectiveDefinition}

-- `a != b` on two kinds
abbrev pub same_kind : Kind → Kind → Bool
same_kind scalar scalar = true
same_kind object object = true
same_kind interface interface = true
same_kind union union = true
same_kind enum enum = true
same_kind input_object input_object = true
same_kind _ _ = false

-- `reflect.DeepEqual` of two lists of names; a nil list is not told from an empty one
abbrev pub same_names : List String → List String → Bool
same_names [] [] = true
same_names (a ∷ xs) (b ∷ ys) = a == b && same_names xs ys
same_names _ _ = false

abbrev argument_names_equal : List Argument → List Argument → Bool
argument_names_equal [] [] = true
argument_names_equal (a ∷ xs) (b ∷ ys) = a.name == b.name && argument_names_equal xs ys
argument_names_equal _ _ = false

-- `isDirectiveEqual`, which compares the name of the first with that of the second node
unfoldable pub is_directive_equal : Definition → Directive → Directive → Bool
is_directive_equal second_node first second =
    first.name == second_node.name
    && same (length first.arguments) (length second.arguments)
    && argument_names_equal first.arguments second.arguments

-- `isDirectiveListEqual`
unfoldable pub is_directive_list_equal : Definition → List Directive → List Directive → Bool
unfolding is_directive_equal
is_directive_list_equal second_node [] [] = true
is_directive_list_equal second_node (a ∷ xs) (b ∷ ys) =
    is_directive_equal second_node a b && is_directive_list_equal second_node xs ys
is_directive_list_equal second_node _ _ = false

module _ (type_string : GqlType → String) where
  -- the loop over the fields of two lists of one length, and what follows it: a field of another
  -- name ends the function with `true`
  abbrev pub fields_then : List FieldDefinition → List FieldDefinition → Bool → Bool
  fields_then (a ∷ xs) (b ∷ ys) next =
      let rest = fields_then xs ys next in
      if not (a.name == b.name)
      then true
      else if not (type_string a.type == type_string b.type)
      then false
      else rest
  fields_then _ _ next = next

  -- the loop over the enum values, whose directives are compared with those of the second node
  abbrev pub enum_values_equal : Definition → List EnumValue → List EnumValue → Bool
  enum_values_equal second_node (a ∷ xs) (b ∷ ys) =
      a.name == b.name
      && is_directive_list_equal second_node a.directives second_node.directives
      && enum_values_equal second_node xs ys
  enum_values_equal second_node _ _ = true

  -- `typeNodesAreEquivalent`
  unfoldable pub type_nodes_are_equivalent : Definition → Definition → Bool
  unfolding is_directive_list_equal
  type_nodes_are_equivalent first second =
      first.name == second.name
      && same_kind first.kind second.kind
      && is_directive_list_equal second first.directives second.directives
      && same_names first.interfaces second.interfaces
      && same (length first.fields) (length second.fields)
      && fields_then first.fields second.fields (
          same_names first.types second.types
          && same (length first.enum_values) (length second.enum_values)
          && enum_values_equal second first.enum_values second.enum_values)

  abbrev pub arguments_then : List ArgumentDefinition → List ArgumentDefinition → Bool → Bool
  arguments_then (a ∷ xs) (b ∷ ys) next =
      let rest = arguments_then xs ys next in
      if not (a.name == b.name)
      then true
      else if not (type_string a.type == type_string b.type)
      then false
      else rest
  arguments_then _ _ next = next

  -- `directiveTypeNodesAreEquivalent`
  unfoldable pub directive_type_nodes_are_equivalent :
      DirectiveDefinition → DirectiveDefinition → Bool
  directive_type_nodes_are_equivalent first second =
      first.name == second.name
      && same (length first.arguments) (length second.arguments)
      && arguments_then first.arguments second.arguments
          (same_names first.locations second.locations)

  -- Two types whose first fields have different names are equivalent if their names, kinds,
  -- directives and interfaces are and they have as many fields: what follows is not compared.
  pub type_nodes_are_equivalent-of_fields :
      (first second : Definition) (a b : FieldDefinition) (xs ys : List FieldDefinition)
      → first.fields ≡ a ∷ xs
      → second.fields ≡ b ∷ ys
      → (a.name == b.name) ≡ false
      → type_nodes_are_equivalent first second ≡ (
          first.name == second.name
          && same_kind first.kind second.kind
          && is_directive_list_equal second first.directives second.directives
          && same_names first.interfaces second.interfaces
          && same (length xs) (length ys))
  unfolding type_nodes_are_equivalent
  type_nodes_are_equivalent-of_fields first second a b xs ys e f h = rw (e, f, h) (ground arith)
