-- ===== src/Examples/Scopes.antt =====
-- Scopes over a small schema: an interface `Product` of `Book` and `Furniture`.
use fedeway.Prelude.{
  arith, true, String, none, some, List, [], ◌∷◌, Memᴰ, All, ◌==◌, if◌then◌else◌, ◌≡◌, refl,
}
use fedeway.Ast.{
  object, interface, Value, value, block_value, childless, Directive, Definition, Schema,
}
use fedeway.Planner.Scope.{
  Scope, outermost, within, refine, possible_runtime_types, contains_type, is_type_def_sub_type_of,
  get_possible_types, chain,
}
use fedeway.Planner.Scope.Runtime.{
  possible_for_all, contains_type-possible_runtime_types, possible_runtime_types-refine, Refines,
}
use fedeway.Planner.Scope.Identity.{compute_identity_key}
use fedeway.Planner.Scope.Identity.Injective.{type_names, compute_identity_key-injective}
use fedeway.Planner.Scope.Identity.Panics.{compute_identity_key_panics}
use fedeway.Planner.Grouping.{group_by}
use fedeway.Planner.Grouping.Laws.{columns, first_keys, group_by_lem}
use fedeway.Planner.Grouping.Uniform.{group_by-IsUniform, IsUniform}

abbrev product : Definition
product = record {
  ptr = 1;
  kind = interface;
  name = "Product";
  directives = [];
  interfaces = [];
  fields = [];
  types = [];
  enum_values = [];
}

abbrev book : Definition
book = record {
  ptr = 2;
  kind = object;
  name = "Book";
  directives = [];
  interfaces = "Product" ∷ [];
  fields = [];
  types = [];
  enum_values = [];
}

abbrev furniture : Definition
furniture = record {
  ptr = 3;
  kind = object;
  name = "Furniture";
  directives = [];
  interfaces = "Product" ∷ [];
  fields = [];
  types = [];
  enum_values = [];
}

abbrev shop : Schema
shop = record {
  query = none;
  mutation = none;
  subscription = none;
  types = λ name.
      if name == "Product" then some product else if name == "Book" then some book else none;
  possible_types = λ def. book ∷ furniture ∷ [];
}

abbrev in_product : Scope
in_product = outermost product []

refine_test : refine shop in_product book [] ≡ outermost book []
unfolding refine
refine_test = refl

product_chain :
    (p : Definition)
    → Memᴰ p (chain in_product)
    → is_type_def_sub_type_of shop book p ≡ true
    → Refines shop book p
unfolding get_possible_types contains_type
product_chain p (Memᴰ.head e) h = rw e (refl, tt)
product_chain p (Memᴰ.tail m) h = elim m [ ]

possible_runtime_types-refine_example :
    possible_runtime_types shop (refine shop in_product book [])
    ≡ possible_runtime_types shop (within book [] in_product)
possible_runtime_types-refine_example =
    possible_runtime_types-refine shop book in_product [] product_chain (λ e. cc)

contains_type-possible_runtime_types_example :
    contains_type (possible_runtime_types shop in_product) book
    ≡ possible_for_all shop (chain in_product) book
contains_type-possible_runtime_types_example =
    contains_type-possible_runtime_types shop in_product book

abbrev plain_quote : String → String
plain_quote s = s

abbrev no_text : Value → String
no_text v = ""

compute_identity_key_test :
    compute_identity_key plain_quote no_text (within book [] in_product) ≡ some "Book--Product--"
unfolding compute_identity_key
compute_identity_key_test = refl

compute_identity_key-injective_example : type_names in_product ≡ type_names in_product
compute_identity_key-injective_example =
    compute_identity_key-injective plain_quote no_text in_product in_product refl refl (omega arith)
      (omega arith) refl

abbrev described : Directive
described = record {
  name = "note";
  arguments = record { name = "text"; value = value block_value "x" childless } ∷ [];
}

compute_identity_key_panics_example :
    compute_identity_key plain_quote no_text (outermost book (described ∷ [])) ≡ none
compute_identity_key_panics_example =
    compute_identity_key_panics plain_quote no_text (outermost book (described ∷ [])) described
      (record { name = "text"; value = value block_value "x" childless }) "x" childless
      (Memᴰ.head refl) (Memᴰ.head refl) refl

abbrev words : List String
words = "id" ∷ "name" ∷ "id" ∷ []

group_by_lem_example :
    group_by (λ (s : String). s) words ≡ columns (λ s. s) words (first_keys (λ s. s) [] words)
group_by_lem_example = group_by_lem (λ s. s) words

group_by-IsUniform_example :
    All (IsUniform (λ (s : String). s)) (group_by (λ (s : String). s) words)
group_by-IsUniform_example = group_by-IsUniform (λ s. s) words

group_by_test : group_by (λ (s : String). s) words ≡ ("id" ∷ "id" ∷ []) ∷ ("name" ∷ []) ∷ []
unfolding group_by
group_by_test = refl
