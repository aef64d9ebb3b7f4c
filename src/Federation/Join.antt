-- ===== src/Federation/Join.antt =====
-- `getJoinGraphEnum` of internal/federation/join_spec.go: the enum values that stand for the
-- services in the composed schema. Go ranges over a map of sanitized names in any order; here the
-- order is that of the sorted services. A map from names with its keys sorted is its sorted list
-- of entries.
pub mod Distinct
pub mod Grouped
pub mod Names
pub mod Numbered
pub mod Sanitized
pub mod Sorting
pub mod Storing
use fedeway.Prelude.{
  ℕ, suc, ◌-◌, String, Bool, true, false, ◌&&◌, ◌||◌, Option, none, some, List, [], ◌∷◌, ◌++◌, map,
  same, leb, if◌then◌else◌, decimal, sort_by, assign,
}
use fedeway.Federation.Document.{ServiceDefinition}
use Names.{Name, codes, name_less, value_under, store_under}

abbrev pub is_digit : ℕ → Bool
is_digit c = leb b'0' c && leb c b'9'

abbrev pub is_lower : ℕ → Bool
is_lower c = leb b'a' c && leb c b'z'

-- `\w`
abbrev pub is_word : ℕ → Bool
is_word c = is_lower c || (leb b'A' c && leb c b'Z') || is_digit c || same c b'_'

-- the replacement of `[\W]`
abbrev pub word_or_underscore : ℕ → ℕ
word_or_underscore c = if is_word c then c else b'_'

-- `^\d` gets an underscore in front
abbrev pub prefixed : Name → Name
prefixed [] = []
prefixed (c ∷ s) = if is_digit c then b'_' ∷ c ∷ s else c ∷ s

-- `_\d$`
abbrev pub ends_in_number : Name → Bool
ends_in_number [] = false
ends_in_number (c ∷ []) = false
ends_in_number (c ∷ d ∷ []) = same c b'_' && is_digit d
ends_in_number (c ∷ d ∷ e ∷ s) = ends_in_number (d ∷ e ∷ s)

abbrev pub suffixed : Name → Name
suffixed s = if ends_in_number s then s ++ b'_' ∷ [] else s

-- `strings.ToUpper` on what is left, which is ASCII
abbrev pub to_upper : ℕ → ℕ
to_upper c = if is_lower c then c - 32 else c

-- `sanitizeGraphQLName`
unfoldable pub sanitize : Name → Name
sanitize name = map to_upper (suffixed (prefixed (map word_or_underscore name)))

-- the sanitized name of a service
unfoldable pub sanitized : ServiceDefinition → Name
unfolding sanitize
sanitized service = sanitize (codes service.name)

abbrev pub Groups : Type 0
Groups = List (Name × List ServiceDefinition)

abbrev pub or_no_service : Option (List ServiceDefinition) → List ServiceDefinition
or_no_service none = []
or_no_service (some services) = services

-- `sanitizedNameToServiceDefinitions`
unfoldable pub groups_of : List ServiceDefinition → Groups → Groups
unfolding sanitized
groups_of [] groups = groups
groups_of (s ∷ services) groups =
    groups_of services (
      store_under (sanitized s) (or_no_service (value_under (sanitized s) groups) ++ s ∷ []) groups)

-- `fmt.Sprintf("%s_%d", sanitizedName, idx+1)`
unfoldable pub numbered_name : Name → ℕ → Name
numbered_name base number = base ++ b'_' ∷ codes (decimal number)

abbrev pub Values : Type 0
Values = List (Name × ServiceDefinition)

-- the loop over services that share a sanitized name
unfoldable pub add_numbered : Name → ℕ → List ServiceDefinition → Values → Values
unfolding numbered_name
add_numbered base number [] values = values
add_numbered base number (s ∷ services) values =
    add_numbered base (suc number) services (store_under (numbered_name base number) s values)

unfoldable pub add_group : Name → List ServiceDefinition → Values → Values
unfolding add_numbered
add_group base (s ∷ []) values = store_under base s values
add_group base services values = add_numbered base 1 services values

-- `enumValueNameToServiceDefinition`
unfoldable pub add_groups : Groups → Values → Values
unfolding add_group
add_groups [] values = values
add_groups (g ∷ groups) values = add_groups groups (add_group g.0 g.1 values)

abbrev pub insert_value : Name × ServiceDefinition → Values → Values
insert_value v [] = v ∷ []
insert_value v (w ∷ values) =
    let rest = w ∷ insert_value v values in if name_less w.0 v.0 then rest else v ∷ w ∷ values

abbrev pub sort_values : Values → Values
sort_values [] = []
sort_values (v ∷ values) = insert_value v (sort_values values)

-- `graphNameToEnumValueName`
unfoldable pub name_values : Values → List (String × Name) → List (String × Name)
name_values [] m = m
name_values (v ∷ values) m = name_values values (assign v.1.name v.0 m)

-- the enum values with their services, before they are sorted
unfoldable pub values_for : List ServiceDefinition → Values
unfolding groups_of add_groups
values_for services = add_groups (groups_of (sort_by (λ s. s.name) services) []) []

-- `getJoinGraphEnum`: the names of the services, and the values of the enum
unfoldable pub join_graph_enum : List ServiceDefinition → List (String × Name) × Values
unfolding values_for name_values
join_graph_enum services =
    let sorted = sort_values (values_for services) in (name_values sorted [], sorted)
