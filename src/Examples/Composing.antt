-- ===== src/Examples/Composing.antt =====
-- Two services: one defines User and Role, the other defines the same Role and extends User.
use fedeway.Prelude.{
  String, false, none, some, List, [], ◌∷◌, filter, contains, lookup, ◌==◌, ◌≡◌, refl,
}
use fedeway.Outcome.{Outcome, done}
use fedeway.Ast.{
  object, enum, GqlType, leaf, wrapper, value, string_value, childless, Directive, FieldDefinition,
  Definition, SelectionSet, empty,
}
use fedeway.Federation.Document.{ServiceDefinition}
use fedeway.Federation.Utils.{is_nonempty}
use fedeway.Federation.Compose.{build_maps}
use fedeway.Federation.Compose.Maps.{BuildMaps, no_maps}
use fedeway.Federation.Compose.Ownership.{owner_at, field_owner_at, last_definer, last_extender}
use fedeway.Federation.Compose.Owners.{build_maps-owners}
use fedeway.Federation.Compose.Definitions.{build_maps-definitions}
use fedeway.Federation.Compose.Kept.{all_extending}
use fedeway.Federation.Compose.RootTypes.{or_root}
use fedeway.Federation.Compose.Tracking.{all_named, as_entry, has_equal_neighbours}

abbrev named : List Directive → String → List Directive
named ds name = filter (λ d. d.name == name) ds

abbrev type_name : GqlType → String
type_name (leaf name non_null) = name
type_name (wrapper name elem non_null) = type_name elem

abbrev parsed : String → Outcome SelectionSet
parsed text = done empty

abbrev field_of : String → FieldDefinition
field_of name = record {
  ptr = 0;
  name = name;
  arguments = [];
  type = leaf "String" false;
  directives = [];
}

abbrev user_with : List String → Definition
user_with names = record {
  ptr = 1;
  kind = object;
  name = "User";
  directives =
      record {
        name = "key";
        arguments = record { name = "fields"; value = value string_value "id" childless } ∷ [];
      }
      ∷ [];
  interfaces = [];
  fields = fields_of names;
  types = [];
  enum_values = [];
}
  where
    fields_of : List String → List FieldDefinition
    fields_of [] = []
    fields_of (n ∷ ns) = field_of n ∷ fields_of ns

abbrev role : Definition
role = record {
  ptr = 2;
  kind = enum;
  name = "Role";
  directives = [];
  interfaces = [];
  fields = [];
  types = [];
  enum_values = record { name = "ADMIN"; directives = [] } ∷ [];
}

abbrev service : String → List Definition → List Definition → ServiceDefinition
service name definitions extensions = record {
  type_defs = record {
    schema = [];
    schema_extension = [];
    directives = [];
    definitions = definitions;
    extensions = extensions;
  };
  name = name;
  url = "";
}

abbrev services : List ServiceDefinition
services =
    service "accounts" (user_with ("id" ∷ "name" ∷ []) ∷ role ∷ []) []
    ∷ service "reviews" (role ∷ []) (user_with ("reviews" ∷ []) ∷ [])
    ∷ []

abbrev maps_of : Outcome BuildMaps → BuildMaps
maps_of (done m) = m
maps_of _ = no_maps

abbrev composed : BuildMaps
unfolding build_maps
composed = maps_of (build_maps named type_name parsed services)

build_maps-owners_example :
    (owner_at "User" composed ≡ last_definer named "User" services "")
    × (field_owner_at "User" "reviews" composed
        ≡ last_extender named "User" "reviews" services none)
unfolding build_maps
build_maps-owners_example =
    build_maps-owners named type_name parsed "User" "reviews" services composed refl

owners_test :
    (owner_at "User" composed ≡ "accounts")
    × (field_owner_at "User" "reviews" composed ≡ some "reviews")
unfolding build_maps
owners_test = (refl, refl)

value_types_test : composed.value_types ≡ "Role" ∷ []
unfolding build_maps
value_types_test = refl

build_maps-definitions_example :
    (lookup "Role" composed.type_definitions
      ≡ as_entry (
          or_root
            (is_nonempty (all_extending named "Mutation" services))
            "Role"
            (all_named named "Role" services)))
    × (contains composed.value_types "Role"
        ≡ has_equal_neighbours type_name (all_named named "Role" services))
unfolding build_maps
build_maps-definitions_example =
    build_maps-definitions named type_name parsed services composed refl "Role"
