-- ===== src/Planner/Scope.antt =====
-- internal/planner/scope.go: the chain of type conditions under which a field is selected.
-- The two caches of a scope hold values that never change and are left out.
pub mod Runtime
pub mod Identity
use fedeway.Prelude.{
  Bool, true, false, ◌&&◌, not, Option, none, some, List, [], ◌∷◌, any, filter, same, if◌then◌else◌,
}
use fedeway.Ast.{Kind, interface, union, object, Directive, Definition, Schema}

-- `Scope`: the parent type and the directives, with and without an enclosing scope
pub data Scope : Type 0 where
  outermost : Definition → List Directive → Scope
  within : Definition → List Directive → Scope → Scope

abbrev pub parent_type : Scope → Definition
parent_type (outermost typ directives) = typ
parent_type (within typ directives enclosing) = typ

abbrev pub directives_of : Scope → List Directive
directives_of (outermost typ directives) = directives
directives_of (within typ directives enclosing) = directives

abbrev pub enclosing : Scope → Option Scope
enclosing (outermost typ directives) = none
enclosing (within typ directives outer) = some outer

-- `newScope`, whose enclosing scope may be nil
abbrev pub new_scope : Definition → List Directive → Option Scope → Scope
new_scope typ directives none = outermost typ directives
new_scope typ directives (some outer) = within typ directives outer

-- `a == b` on two `*ast.Definition`
abbrev pub same_type : Definition → Definition → Bool
same_type a b = same a.ptr b.ptr

-- `containsType`
unfoldable pub contains_type : List Definition → Definition → Bool
contains_type defs elem = any (λ def. same_type def elem) defs

-- `utils.IsAbstractType`
unfoldable pub is_abstract_type : Definition → Bool
is_abstract_type def = elim def.kind [ interface ↦ true | union ↦ true | _ ↦ false ]

abbrev is_interface_or_object : Kind → Bool
is_interface_or_object interface = true
is_interface_or_object object = true
is_interface_or_object _ = false

abbrev pub is_nil : List Directive → Bool
is_nil [] = true
is_nil (d ∷ ds) = false

module _ (schema : Schema) where
  -- `utils.IsTypeDefSubTypeOf`
  unfoldable pub is_type_def_sub_type_of : Definition → Definition → Bool
  unfolding is_abstract_type
  is_type_def_sub_type_of maybe_sub_type super_type =
      if same_type maybe_sub_type super_type
      then true
      else if not (is_abstract_type super_type)
      then false
      else if not (is_interface_or_object maybe_sub_type.kind)
      then false
      else any (λ def. same_type def maybe_sub_type) (schema.possible_types super_type)

  -- `getPossibleTypes` of queryPlanningContext
  unfoldable pub get_possible_types : Definition → List Definition
  unfolding is_abstract_type
  get_possible_types typ = if is_abstract_type typ then schema.possible_types typ else typ ∷ []

  -- the loop of `computePossibleRuntimeTypes` over the enclosing scopes
  unfoldable pub restrict_to : Option Scope → List Definition → List Definition
  unfolding contains_type get_possible_types
  restrict_to none types = types
  restrict_to (some (outermost typ ds)) types =
      filter (contains_type (get_possible_types typ)) types
  restrict_to (some (within typ ds outer)) types =
      restrict_to (some outer) (filter (contains_type (get_possible_types typ)) types)

  unfoldable pub possible_runtime_types : Scope → List Definition
  unfolding get_possible_types restrict_to
  possible_runtime_types s = restrict_to (enclosing s) (get_possible_types (parent_type s))

  -- `pruneRefinedTypes`
  unfoldable pub prune_refined_types : Option Scope → Definition → Option Scope
  unfolding is_type_def_sub_type_of
  prune_refined_types none refining = none
  prune_refined_types (some (outermost typ ds)) refining =
      if is_nil ds && is_type_def_sub_type_of refining typ then none else some (outermost typ ds)
  prune_refined_types (some (within typ ds outer)) refining =
      let rest = prune_refined_types (some outer) refining in
      if is_nil ds && is_type_def_sub_type_of refining typ
      then rest
      else some (new_scope typ ds rest)

  -- `refine`
  unfoldable pub refine : Scope → Definition → List Directive → Scope
  unfolding prune_refined_types
  refine s typ ds =
      if is_nil ds && same_type typ (parent_type s)
      then s
      else new_scope typ ds (prune_refined_types (some s) typ)

  -- `isStrictlyRefining`
  unfoldable pub is_strictly_refining : Scope → Definition → Bool
  unfolding is_type_def_sub_type_of
  is_strictly_refining (outermost parent ds) typ =
      not (same_type parent typ) && is_type_def_sub_type_of parent typ
  is_strictly_refining (within parent ds outer) typ =
      let rest = is_strictly_refining outer typ in
      if not (same_type parent typ) && is_type_def_sub_type_of parent typ then true else rest

-- The parent types of the chain, the innermost first.
abbrev pub chain : Scope → List Definition
chain (outermost typ ds) = typ ∷ []
chain (within typ ds outer) = typ ∷ chain outer
