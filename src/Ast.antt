-- ===== src/Ast.antt =====
-- The part of gqlparser's `ast` that the program reads and builds: the structs, field by field.
-- A `*ast.Definition` or a `*ast.FieldDefinition` is compared by its address in Go and is the key
-- of a map, so each carries its address, `ptr`. Positions, descriptions and the like are left out.
use fedeway.Prelude.{ℕ, String, Bool, Option, List}

-- `ast.DefinitionKind`
pub data Kind : Type 0 where
  scalar object interface union enum input_object : Kind

-- `ast.ValueKind`
pub data ValueKind : Type 0 where
  variable int_value float_value string_value block_value boolean_value null_value enum_value
        list_value object_value :
      ValueKind

-- `ast.Value` with its children, each under a name (empty in a list)
mutual
  pub data Value : Type 0 where
    value : ValueKind → (raw : String) → Children → Value

  pub data Children : Type 0 where
    childless : Children
    child : (name : String) → Value → Children → Children

-- `ast.Type`: a struct of `NamedType`, `Elem` and `NonNull`; `leaf` has no `Elem`.
pub data GqlType : Type 0 where
  leaf : (named_type : String) (non_null : Bool) → GqlType
  wrapper : (named_type : String) (elem : GqlType) (non_null : Bool) → GqlType

-- `ast.Argument`
pub record Argument : Type 0 where
  pub name : String
  pub value : Value

-- `ast.Directive`
pub record Directive : Type 0 where
  pub name : String
  pub arguments : List Argument

-- `ast.ArgumentDefinition`
pub record ArgumentDefinition : Type 0 where
  pub name : String
  pub type : GqlType
  pub default_value : Option Value
  pub directives : List Directive

-- `ast.FieldDefinition`
pub record FieldDefinition : Type 0 where
  pub ptr : ℕ
  pub name : String
  pub arguments : List ArgumentDefinition
  pub type : GqlType
  pub directives : List Directive

-- `ast.EnumValueDefinition`
pub record EnumValue : Type 0 where
  pub name : String
  pub directives : List Directive

-- `ast.Definition`
pub record Definition : Type 0 where
  pub ptr : ℕ
  pub kind : Kind
  pub name : String
  pub directives : List Directive
  pub interfaces : List String
  pub fields : List FieldDefinition
  pub types : List String
  pub enum_values : List EnumValue

-- `ast.Operation`; Go's type is a string
pub data Operation : Type 0 where
  query mutation subscription : Operation
  other_operation : String → Operation

-- `ast.Schema`. `possible_types` is what `(*Schema).GetPossibleTypes` answers.
pub record Schema : Type 0 where
  pub query : Option Definition
  pub mutation : Option Definition
  pub subscription : Option Definition
  pub types : String → Option Definition
  pub possible_types : Definition → List Definition

-- `ast.Selection` and its three implementations
mutual
  pub data Selection : Type 0 where
    field : FieldNode → Selection
    inline_fragment : (type_condition : String) → List Directive → SelectionSet → Selection
    fragment_spread : (name : String) → List Directive → Selection

  pub data FieldNode : Type 0 where
    field_node : (alias name : String) → List Argument → List Directive → SelectionSet → FieldNode

  pub data SelectionSet : Type 0 where
    empty : SelectionSet
    select : Selection → SelectionSet → SelectionSet

abbrev pub alias_of : FieldNode → String
alias_of (field_node alias name args dirs sels) = alias

abbrev pub name_of : FieldNode → String
name_of (field_node alias name args dirs sels) = name

abbrev pub selection_set_of : FieldNode → SelectionSet
selection_set_of (field_node alias name args dirs sels) = sels

-- `copied := *node; copied.SelectionSet = sels`
abbrev pub with_selection_set : FieldNode → SelectionSet → FieldNode
with_selection_set (field_node alias name args dirs old) sels = field_node alias name args dirs sels

abbrev pub is_empty : SelectionSet → Bool
is_empty empty = Bool.true
is_empty (select s rest) = Bool.false

infixr 65 ◌<>◌
-- `append(xs, ys...)`
abbrev pub ◌<>◌ : SelectionSet → SelectionSet → SelectionSet
empty <> ys = ys
(select s rest) <> ys = select s (rest <> ys)

-- `ast.FragmentDefinition`
pub record FragmentDefinition : Type 0 where
  pub name : String
  pub type_condition : String
  pub selection_set : SelectionSet
