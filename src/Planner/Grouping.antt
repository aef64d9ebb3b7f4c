-- ===== src/Planner/Grouping.antt =====
-- internal/planner/field_set.go: fields in their scopes, and how they are grouped.
use fedeway.Prelude.{
  ℕ, zero, suc, ◌+◌, String, Bool, Option, none, some, List, [], ◌∷◌, ◌++◌, length, lookup, ◌==◌,
  if◌then◌else◌,
}
use fedeway.Ast.{FieldNode, FieldDefinition, alias_of, name_of}
use fedeway.Planner.Scope.{Scope}
pub mod Laws
pub mod Uniform

-- `Field`
pub record Field : Type 0 where
  pub scope : Scope
  pub field_node : FieldNode
  pub field_def : FieldDefinition

-- `getResponseName`
unfoldable pub get_response_name : FieldNode → String
get_response_name node = if alias_of node == "" then name_of node else alias_of node

-- `fieldSets[idx] = append(fieldSets[idx], field)`; an index out of range, at which Go panics,
-- changes nothing here, and `Laws` shows that none occurs.
unfoldable pub append_at : {A : Type 0} → ℕ → A → List (List A) → List (List A)
append_at i x [] = []
append_at zero x (g ∷ gs) = (g ++ x ∷ []) ∷ gs
append_at (suc i) x (g ∷ gs) = g ∷ append_at i x gs

-- The variables of the loop that `groupByResponseName` and `groupByScope` share: the map
-- `nameIdx`, newest entry first, and `fieldSets`.
pub record Grouped (A : Type 0) : Type 0 where
  pub name_idx : List (String × ℕ)
  pub field_sets : List (List A)

module _ {A : Type 0} (key : A → String) where
  -- the body of the loop, after the look-up of the name
  abbrev place : A → Option ℕ → Grouped A → Grouped A
  place field (some idx) g = record g { field_sets = append_at idx field g.field_sets }
  place field none g = record {
    name_idx = (key field, length g.name_idx) ∷ g.name_idx;
    field_sets = append_at (length g.name_idx) field (g.field_sets ++ [] ∷ []);
  }

  unfoldable pub group_step : Grouped A → A → Grouped A
  unfolding append_at
  group_step g field = place field (lookup (key field) g.name_idx) g

  unfoldable pub group_loop : Grouped A → List A → Grouped A
  unfolding group_step
  group_loop g [] = g
  group_loop g (field ∷ fields) = group_loop (group_step g field) fields

  unfoldable pub group_by : List A → List (List A)
  unfolding group_loop
  group_by fields = (group_loop (record { name_idx = []; field_sets = [] }) fields).field_sets

-- `groupByResponseName`
unfoldable pub group_by_response_name : List Field → List (List Field)
unfolding group_by
group_by_response_name = group_by (λ field. get_response_name field.field_node)
