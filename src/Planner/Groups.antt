-- ===== src/Planner/Groups.antt =====
-- The fetch groups of internal/planner/build_query_plan.go. They are shared by pointer and changed
-- through any of their references, so they live in a store: a reference is an index into it.
pub mod Changes
pub mod Frame
pub mod Levels
use fedeway.Prelude.{
  ℕ, zero, suc, String, Bool, true, false, ◌&&◌, Option, none, some, List, [], ◌∷◌, ◌++◌, map,
  length, lookup, assign, sort_by, ◌==◌, if◌then◌else◌, join,
}
use fedeway.Outcome
use fedeway.Outcome.{Outcome, done, failed, panicked, exhausted, or_panic}
use fedeway.Ast.{SelectionSet, FragmentDefinition}
use fedeway.Planner.Grouping.{Field}
use fedeway.Plan.{ResponsePath}

-- `FetchGroup`
pub record FetchGroup : Type 0 where
  pub service_name : String
  pub fields : List Field
  pub internal_fragments : List FragmentDefinition
  pub required_fields : List Field
  pub provided_fields : List Field
  pub merge_at : ResponsePath
  pub dependent_groups_by_service : List (String × ℕ)
  pub other_dependent_groups : List ℕ

-- `internalFragment`
pub record InternalFragment : Type 0 where
  pub definition : FragmentDefinition
  pub selection_set : SelectionSet

-- What planning changes: the groups, `internalFragments` of the context, and the variables
-- `fetchGroups` and `groupsByService` of the two functions that split the root fields.
pub record Store : Type 0 where
  pub groups : List FetchGroup
  pub fragments : List (String × InternalFragment)
  pub root_groups : List ℕ
  pub root_groups_by_service : List (String × ℕ)

abbrev pub Planning {ℓ} : Type ℓ → Type ℓ
Planning A = Store → Outcome (A × Store)

infixl 5 ◌>>=◌
abbrev pub ◌>>=◌ {ℓ κ} : {A : Type ℓ} {B : Type κ} → Planning A → (A → Planning B) → Planning B
m >>= f = λ s. Outcome.◌>>=◌ (m s) (λ r. f r.0 r.1)

infixl 5 ◌>>◌
abbrev pub ◌>>◌ {ℓ κ} : {A : Type ℓ} {B : Type κ} → Planning A → Planning B → Planning B
m >> n = m >>= λ a. n

abbrev pub return {ℓ} : {A : Type ℓ} → A → Planning A
return a = λ s. done (a, s)

-- A call that changes nothing.
abbrev pub lift {ℓ} : {A : Type ℓ} → Outcome A → Planning A
lift o = λ s. Outcome.◌>>=◌ o (λ a. done (a, s))

module _ {A : Type 0} where
  abbrev pub at_index : ℕ → List A → Option A
  at_index i [] = none
  at_index zero (x ∷ xs) = some x
  at_index (suc i) (x ∷ xs) = at_index i xs

  abbrev pub set_at : ℕ → A → List A → List A
  set_at i y [] = []
  set_at zero y (x ∷ xs) = y ∷ xs
  set_at (suc i) y (x ∷ xs) = x ∷ set_at i y xs

-- `*group`
unfoldable pub load : ℕ → Planning FetchGroup
load ref = λ s. Outcome.◌>>=◌ (or_panic (at_index ref s.groups)) (λ g. done (g, s))

unfoldable pub store : ℕ → FetchGroup → Planning (Unit {0})
store ref g = λ s. done (tt, record s { groups = set_at ref g s.groups })

-- `&FetchGroup{…}`
unfoldable pub allocate : FetchGroup → Planning ℕ
allocate g = λ s. done (length s.groups, record s { groups = s.groups ++ g ∷ [] })

-- `&FetchGroup{ServiceName: …, MergeAt: …}`
abbrev pub new_group : String → ResponsePath → FetchGroup
new_group service path = record {
  service_name = service;
  fields = [];
  internal_fragments = [];
  required_fields = [];
  provided_fields = [];
  merge_at = path;
  dependent_groups_by_service = [];
  other_dependent_groups = [];
}

-- the group for the service, made if there is none
abbrev pub find_or_make : ℕ → String → FetchGroup → Option ℕ → Planning ℕ
find_or_make fg service parent (some ref) = return ref
find_or_make fg service parent none = do
  ref ← allocate (new_group service parent.merge_at)
  store fg (record parent {
    dependent_groups_by_service = assign service ref parent.dependent_groups_by_service;
  })
  return ref

abbrev pub require : ℕ → ℕ → List Field → Planning (Unit {0})
require fg ref [] = return tt
require fg ref (f ∷ fields) = do
  group ← load ref
  store ref (record group { required_fields = group.required_fields ++ f ∷ fields })
  parent ← load fg
  store fg (record parent { fields = parent.fields ++ f ∷ fields })

-- `dependentGroupForService` of `fg`
unfoldable pub dependent_group_for_service : ℕ → String → List Field → Planning ℕ
unfolding load allocate store
dependent_group_for_service fg service required = do
  parent ← load fg
  ref ← find_or_make fg service parent (lookup service parent.dependent_groups_by_service)
  require fg ref required
  return ref

abbrev pub references : List (String × ℕ) → List ℕ
references [] = []
references (entry ∷ entries) = entry.1 ∷ references entries

-- `dependentGroups`: those of the map by the name of their service, then the others
unfoldable pub dependent_groups : FetchGroup → List ℕ
dependent_groups g =
    references (sort_by (λ entry. entry.0) g.dependent_groups_by_service)
    ++ g.other_dependent_groups

-- the first of the groups with the service and the path; paths are compared as texts, which
-- `(ast.Path).String` makes of them
module _ (path_string : ResponsePath → String) where
  unfoldable pub find_existing : FetchGroup → List ℕ → Planning (Option ℕ)
  unfolding load
  find_existing wanted [] = return none
  find_existing wanted (ref ∷ refs) = do
    group ← load ref
    let found =
        group.service_name == wanted.service_name
        && path_string group.merge_at == path_string wanted.merge_at
    if found then return (some ref) else find_existing wanted refs

  -- an existing group takes the dependent groups of the other one, or the other is added
  abbrev pub merge_into : (ℕ → ℕ → Planning (Unit {0})) → ℕ → ℕ → Option ℕ → Planning (Unit {0})
  merge_into merge fg dependent (some existing) = merge existing dependent
  merge_into merge fg dependent none = do
    group ← load fg
    store fg
        (record group { other_dependent_groups = group.other_dependent_groups ++ dependent ∷ [] })

  -- the loop of `mergeDependentGroups` over the dependent groups of `that`
  unfoldable pub merge_each : (ℕ → ℕ → Planning (Unit {0})) → ℕ → List ℕ → Planning (Unit {0})
  unfolding load store find_existing dependent_groups
  merge_each merge fg [] = return tt
  merge_each merge fg (dependent ∷ others) = do
    wanted ← load dependent
    group ← load fg
    existing ← find_existing wanted (dependent_groups group)
    merge_into merge fg dependent existing
    merge_each merge fg others

  -- `mergeDependentGroups`; the fuel bounds how deep the dependent groups go
  unfoldable pub merge_dependent_groups : ℕ → ℕ → ℕ → Planning (Unit {0})
  unfolding merge_each
  merge_dependent_groups zero fg that = λ s. exhausted
  merge_dependent_groups (suc fuel) fg that = do
    group ← load that
    merge_each (merge_dependent_groups fuel) fg (dependent_groups group)
