-- ===== src/Examples/Dependencies.antt =====
-- Planning where groups depend on groups: `me` and the user's `id` and `name` are of the service
-- "accounts", the user's `reviews` of "reviews".
use fedeway.Prelude.{
  Bool, true, Option, Bool-cases, inl, inr, some_eq, ◌⊎◌, subst, sym, arith, ℕ, String, false, none,
  some, List, [], ◌∷◌, find, ◌==◌, same, if◌then◌else◌, join, ◌≡◌, refl,
}
use fedeway.Outcome.{Outcome, done, is_exhausted}
use fedeway.Ast.{
  object, query, leaf, FieldDefinition, Definition, field, fragment_spread, field_node,
  SelectionSet, empty, select, Value, FragmentDefinition,
}
use fedeway.Plan.{PlanNode}
use fedeway.Planner.Scope.{outermost}
use fedeway.Planner.Scope.Identity.{compute_identity_key}
use fedeway.Planner.Grouping.{Field}
use fedeway.Planner.Context.{PlanningContext, TypeMetadata, scope_for_fragment}
use fedeway.Planner.Context.Fuel.{SpreadsBelow, IsRanked}
use fedeway.Planner.Context.Depth.{Fits, HasDepths}
use fedeway.Planner.Context.Services.{keys_of}
use fedeway.Planner.Context.Services.Ends.{HasKnownSpreads}
use fedeway.Planner.Groups.{Store, dependent_groups, at_index, merge_dependent_groups}
use fedeway.Planner.Groups.Changes.{services}
use fedeway.Planner.Groups.Levels.{IsLevelled}
use fedeway.Planner.Groups.Levels.Merging.{merge_dependent_groups-IsLevelled}
use fedeway.Planner.Splitting.Roots.{split_root_fields}
use fedeway.Planner.Splitting.Roots.Acyclic.{Reaches, split_groups-acyclic}
use fedeway.Planner.Build.{QueryDocument, build_query_plan}
use fedeway.Planner.Build.Total.{build_query_plan-Ends}
use fedeway.Examples.Planning.{
  text_field, text_type, served_by, named, no_quote, no_value, no_marshal, nothing_planned,
  result_of,
}

abbrev selecting : String → SelectionSet → SelectionSet
selecting name rest = select (field (field_node name name [] [] empty)) rest

abbrev user_type : Definition
user_type = record {
  ptr = 12;
  kind = object;
  name = "User";
  directives = [];
  interfaces = [];
  fields = text_field 6 "id" ∷ text_field 7 "name" ∷ text_field 8 "reviews" ∷ [];
  types = [];
  enum_values = [];
}

abbrev me_field : FieldDefinition
me_field = record {
  ptr = 3;
  name = "me";
  arguments = [];
  type = leaf "User" false;
  directives = [];
}

abbrev query_type : Definition
query_type = record {
  ptr = 11;
  kind = object;
  name = "Query";
  directives = [];
  interfaces = [];
  fields = me_field ∷ [];
  types = [];
  enum_values = [];
}

abbrev user_metadata : TypeMetadata
user_metadata = record {
  is_value_type = false;
  graph_name = "accounts";
  keys = ("accounts", selecting "id" empty) ∷ ("reviews", selecting "id" empty) ∷ [];
}

abbrev name_fragment : FragmentDefinition
name_fragment = record {
  name = "Name";
  type_condition = "User";
  selection_set = selecting "name" empty;
}

abbrev review_context : PlanningContext
review_context = record {
  schema = record {
    query = some query_type;
    mutation = none;
    subscription = none;
    types = λ name.
        if name == "User"
        then some user_type
        else if name == "Query"
        then some query_type
        else if name == "String"
        then some text_type
        else none;
    possible_types = λ def. [];
  };
  operation = query;
  type_metadata = λ ptr. if same ptr 12 then some user_metadata else none;
  field_metadata = λ ptr. some (served_by (if same ptr 8 then "reviews" else "accounts"));
  fragment_for_name = λ name. if name == "Name" then some name_fragment else none;
  field_for_name = λ def name. find (λ d. d.name == name) def.fields;
  auto_fragmentation = false;
}

abbrev me : Field
me = record {
  scope = outermost query_type [];
  field_node = field_node "me" "me" [] [] (selecting "name" (selecting "reviews" empty));
  field_def = me_field;
}

-- The groups: 0 for `me`, 1 for its selections in "accounts", 2 in "reviews".
abbrev split_me : List ℕ × Store
unfolding split_root_fields compute_identity_key
split_me = result_of (
    split_root_fields review_context named (join ".") (compute_identity_key no_quote no_value)
      no_marshal 4 4 (me ∷ []) nothing_planned)

split_me_test :
    (split_me.0 ≡ 0 ∷ []) × (services split_me.1.groups ≡ "accounts" ∷ "accounts" ∷ "reviews" ∷ [])
unfolding split_me
split_me_test = (refl, refl)

abbrev dependent_on : ℕ → List ℕ
unfolding split_me dependent_groups
dependent_on ref = elim (at_index ref split_me.1.groups) [ none ↦ [] | some g ↦ dependent_groups g ]

dependent_on_test : (dependent_on 0 ≡ 2 ∷ []) × (dependent_on 1 ≡ 2 ∷ []) × (dependent_on 2 ≡ [])
unfolding dependent_on
dependent_on_test = (refl, refl, refl)

split_groups-acyclic_example : ¬ Reaches split_me.1.groups 0 0
unfolding split_me
split_groups-acyclic_example =
    split_groups-acyclic review_context named (join ".") (compute_identity_key no_quote no_value)
      no_marshal false 4 4 (me ∷ []) nothing_planned split_me.1 split_me.0 refl refl 0

abbrev no_text : QueryDocument → String
no_text document = ""

abbrev no_values : SelectionSet → List FragmentDefinition → List Value
no_values selections fragments = []

abbrev rank : String → ℕ
rank name = 0

abbrev depth : String → ℕ
depth name = 1

review-IsRanked : IsRanked review_context rank
unfolding SpreadsBelow
review-IsRanked name fragment h = elim (Bool-cases (name == "Name")) [
  | inl e ↦
      let same_one : some name_fragment ≡ some fragment = rw e at h in
      rw (← some_eq same_one) (tt, tt)
  | inr e ↦ let nothing : none ≡ some fragment = rw e at h in cc
]

review-HasDepths : HasDepths review_context rank depth 5
unfolding Fits
review-HasDepths name fragment h = elim (Bool-cases (name == "Name")) [
  | inl e ↦
      let same_one : some name_fragment ≡ some fragment = rw e at h in
      rw (← some_eq same_one) (tt, tt)
  | inr e ↦ let nothing : none ≡ some fragment = rw e at h in cc
]

user_keys :
    (service : String)
    → (keys_of review_context (some user_metadata) service ≡ selecting "id" empty)
      ⊎ (keys_of review_context (some user_metadata) service ≡ empty)
user_keys service = elim (Bool-cases ("accounts" == service)) [
  | inl e ↦ inl (rw (e, keys_of) refl)
  | inr e ↦ elim (Bool-cases ("reviews" == service)) [
    | inl f ↦ inl (rw (e, f, keys_of) refl)
    | inr f ↦ inr (rw (e, f, keys_of) refl)
  ]
]

user_keys-SpreadsBelow :
    (service : String)
    → SpreadsBelow review_context rank 5 (keys_of review_context (some user_metadata) service)
unfolding SpreadsBelow
user_keys-SpreadsBelow service = elim (user_keys service) [
  | inl e ↦ subst (SpreadsBelow review_context rank 5) (sym e) (tt, tt)
  | inr e ↦ subst (SpreadsBelow review_context rank 5) (sym e) tt
]

review-HasKnownSpreads : HasKnownSpreads review_context rank 5
unfolding SpreadsBelow
review-HasKnownSpreads = record {
  keys = λ def service. elim (Bool-cases (same def.ptr 12)) [
    | inl e ↦ rw e (user_keys-SpreadsBelow service)
    | inr e ↦ rw e tt
  ];
  requires = λ def. tt;
  provides = λ def. tt;
}

abbrev reviews_query : SelectionSet
reviews_query =
    select
      (field (
        field_node "me" "me" [] []
          (select (fragment_spread "Name" []) (selecting "reviews" empty))))
      empty

reviews_query-Fits : Fits review_context rank depth 5 2 reviews_query
unfolding Fits
reviews_query-Fits = (((omega arith, omega arith), (tt, tt)), tt)

build_query_plan-Ends_example :
    is_exhausted (
      build_query_plan review_context named
        (join ".")
        (compute_identity_key no_quote no_value)
        no_marshal
        no_text
        no_values
        []
        5
        reviews_query)
    ≡ false
build_query_plan-Ends_example =
    build_query_plan-Ends review_context named (join ".") (compute_identity_key no_quote no_value)
      no_marshal no_text no_values [] rank depth review-IsRanked 5 review-HasDepths
      review-HasKnownSpreads (λ selections. refl) 2 (omega arith) reviews_query reviews_query-Fits

-- Merging once more finds the group of "reviews" in both.
merge_dependent_groups-IsLevelled_example :
    (t : Store) × (merge_dependent_groups (join ".") 3 0 1 split_me.1 ≡ done (tt, t))
    × IsLevelled (0 ∷ 0 ∷ 1 ∷ []) t
unfolding split_me
merge_dependent_groups-IsLevelled_example =
    merge_dependent_groups-IsLevelled (join ".") (0 ∷ 0 ∷ 1 ∷ []) 3 0 1 0 split_me.1
      (
        ((tt, (refl, tt)), (((refl, tt), tt), ((tt, tt), tt))),
        (omega arith, (omega arith, (omega arith, tt))),
      )
      refl refl (omega arith)

abbrev is_planned : Outcome (Option PlanNode) → Bool
is_planned (done (some n)) = true
is_planned _ = false

build_query_plan_test :
    is_planned (
      build_query_plan review_context named
        (join ".")
        (compute_identity_key no_quote no_value)
        no_marshal
        no_text
        no_values
        []
        5
        reviews_query)
    ≡ true
unfolding build_query_plan compute_identity_key scope_for_fragment
build_query_plan_test = refl
