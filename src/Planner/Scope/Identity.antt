-- ===== src/Planner/Scope/Identity.antt =====
-- The text by which scope.go identifies a scope: `computeIdentityKey` and what it calls.
-- A panic is `none`. `strconv.Quote` and gqlparser's `(*Value).String` are parameters.
pub mod Injective
pub mod Panics
use fedeway.Prelude.{
  String, Option, none, some, List, [], ◌∷◌, map, concat, join, sort_strings, ◌>>=◌, ◌≡◌, ◌≢◌, refl,
  ap, All, arith,
}
use fedeway.Ast.{
  Value, value, ValueKind, variable, int_value, float_value, string_value, block_value,
  boolean_value, null_value, enum_value, list_value, object_value, Children, childless, child,
  Argument, Directive, Definition,
}
use fedeway.Planner.Scope.{Scope, outermost, within, parent_type, chain}

-- the loop that collects what all the steps return, or panics where one does
abbrev collect {ℓ} : {A : Type ℓ} → List (Option A) → Option (List A)
collect [] = some []
collect (o ∷ os) = o >>= λ a. collect os >>= λ rest. some (a ∷ rest)

module _ (quote : String → String) (value_string : Value → String) where
  abbrev list_keys : Children → List String
  list_keys childless = []
  list_keys (child name v vs) = value_string v ∷ list_keys vs

  abbrev object_keys : Children → List String
  object_keys childless = []
  object_keys (child name v vs) = concat (name ∷ "-" ∷ value_string v ∷ []) ∷ object_keys vs

  -- `valueIdentityKey`
  unfoldable pub value_identity_key : Value → Option String
  value_identity_key (value variable raw vs) = some raw
  value_identity_key (value int_value raw vs) = some (concat ("i" ∷ raw ∷ []))
  value_identity_key (value float_value raw vs) = some (concat ("f" ∷ raw ∷ []))
  value_identity_key (value enum_value raw vs) = some (concat ("e" ∷ raw ∷ []))
  value_identity_key (value string_value raw vs) = some (concat ("s" ∷ quote raw ∷ []))
  value_identity_key (value boolean_value raw vs) = some (concat ("b" ∷ quote raw ∷ []))
  value_identity_key (value null_value raw vs) = some "<null>"
  value_identity_key (value list_value raw vs) =
      some (concat ("[" ∷ join "-" (list_keys vs) ∷ "]" ∷ []))
  value_identity_key (value object_value raw vs) =
      some (concat ("{" ∷ join "," (object_keys vs) ∷ "}" ∷ []))
  value_identity_key (value block_value raw vs) = none

  abbrev argument_key : Argument → Option String
  argument_key arg = value_identity_key arg.value >>= λ v. some (concat (arg.name ∷ "-" ∷ v ∷ []))

  -- `directiveIdentityKey`
  unfoldable pub directive_identity_key : Directive → Option String
  unfolding value_identity_key
  directive_identity_key d = collect (map argument_key d.arguments) >>= λ keys.
      some (concat (d.name ∷ "-" ∷ join "-" (sort_strings keys) ∷ []))

  -- `directivesIdentityKey`
  unfoldable pub directives_identity_key : List Directive → Option String
  unfolding directive_identity_key
  directives_identity_key ds =
      collect (map directive_identity_key ds) >>= λ keys. some (join "-" (sort_strings keys))

  -- of no directives the key is empty
  abbrev directives_key : List Directive → Option String
  directives_key [] = some ""
  directives_key (d ∷ ds) = directives_identity_key (d ∷ ds)

  -- `computeIdentityKey`
  unfoldable pub compute_identity_key : Scope → Option String
  unfolding directives_identity_key
  compute_identity_key (outermost typ ds) =
      directives_key ds >>= λ key. some (concat (typ.name ∷ "-" ∷ key ∷ "-" ∷ "" ∷ []))
  compute_identity_key (within typ ds outer) = directives_key ds >>= λ key.
      compute_identity_key outer >>= λ rest. some (concat (typ.name ∷ "-" ∷ key ∷ "-" ∷ rest ∷ []))
