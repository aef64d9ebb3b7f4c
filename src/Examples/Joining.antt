-- ===== src/Examples/Joining.antt =====
-- The names of services in the composed schema: two services that share a sanitized name, and
-- eleven of which two get one name.
use fedeway.Prelude.{String, true, some, List, [], ◌∷◌, map, Memᴰ, length, lookup, ◌≡◌, refl, arith}
use fedeway.Federation.Document.{ServiceDefinition}
use fedeway.Federation.Join.{sanitize, join_graph_enum}
use fedeway.Federation.Join.Names.{Name, codes}
use fedeway.Federation.Join.Sanitized.{is_graphql_name, sanitize-is_graphql_name}
use fedeway.Federation.Join.Grouped.{FewShare}
use fedeway.Federation.Join.Distinct.{join_graph_enum-distinct}

abbrev service_named : String → ServiceDefinition
service_named name = record {
  type_defs = record {
    schema = [];
    schema_extension = [];
    directives = [];
    definitions = [];
    extensions = [];
  };
  name = name;
  url = "";
}

abbrev services : List ServiceDefinition
services = service_named "my-books" ∷ service_named "my.books" ∷ service_named "2fa_1" ∷ []

names_test :
    (lookup "my-books" (join_graph_enum services).0 ≡ some (codes "MY_BOOKS_1"))
    × (lookup "my.books" (join_graph_enum services).0 ≡ some (codes "MY_BOOKS_2"))
    × (lookup "2fa_1" (join_graph_enum services).0 ≡ some (codes "_2FA_1_"))
unfolding join_graph_enum
names_test = (refl, refl, refl)

few_share : FewShare services
few_share base = ground arith

join_graph_enum-distinct_example :
    ((s : ServiceDefinition)
      → Memᴰ s services
      → (v : Name) × (t : ServiceDefinition) × (lookup s.name (join_graph_enum services).0 ≡ some v)
        × Memᴰ (v, t) (join_graph_enum services).1
        × (t.name ≡ s.name))
    × ((name other : String) (v : Name)
        → lookup name (join_graph_enum services).0 ≡ some v
        → lookup other (join_graph_enum services).0 ≡ some v
        → name ≡ other)
join_graph_enum-distinct_example = join_graph_enum-distinct services few_share

sanitize-is_graphql_name_example : is_graphql_name (sanitize (codes "2fa")) ≡ true
sanitize-is_graphql_name_example = sanitize-is_graphql_name b'2' (codes "fa")

abbrev colliding : List ServiceDefinition
colliding =
    map service_named (
      "a!a" ∷ "a*a" ∷ "a+a" ∷ "a-a" ∷ "a.a" ∷ "a/a" ∷ "a:a" ∷ "a;a" ∷ "a=a" ∷ "a_a" ∷ "a_a_10" ∷ [])

-- Of eleven services one is lost: the tenth of those that share a name is called A_A_10, as the
-- service a_a_10 is.
collision_test : length (join_graph_enum colliding).1 ≡ 10
unfolding join_graph_enum
collision_test = refl
