-- ===== src/Engine/Representation.antt =====
-- `executeSelectionSet` and `doesTypeConditionMatch` of internal/engine/execute_query_plan.go: the
-- part of an entity that a fetch requires. A `gqlerror` is `failed`.
use fedeway.Prelude.{
  String, Bool, true, false, ◌&&◌, Option, none, some, [], ◌∷◌, ◌==◌, if◌then◌else◌, concat,
}
use fedeway.Outcome.{Outcome, done, failed, or_panic, ◌>>=◌}
use fedeway.Ast.{Schema}
use fedeway.Json.{Json, str, arr, obj, Items, nil, cons, Members, end, get, put}
use fedeway.DeepMerge.{deep_merge}
use fedeway.Plan.{PlanSelection, plan_field, plan_fragment, PlanSelections, none_selected, selected}
use fedeway.Planner.Scope.{is_abstract_type, is_type_def_sub_type_of}

-- `doesTypeConditionMatch`
unfoldable pub does_type_condition_match : Schema → String → String → Bool
unfolding is_abstract_type is_type_def_sub_type_of
does_type_condition_match schema condition typename =
    if condition == typename then true else elim (schema.types typename) [
      | none ↦ false
      | some typ ↦ elim (schema.types condition) [
        | none ↦ false
        | some conditional ↦
            is_abstract_type conditional && is_type_def_sub_type_of schema typ conditional
      ]
    ]

abbrev pub response_name : String → String → String
response_name alias name = if alias == "" then name else alias

-- `source["__typename"].(string)`
abbrev pub typename_of : Option Json → Outcome String
typename_of (some (str name)) = done name
typename_of _ = failed "unexpected type"

-- the loop over a list, for selections that are not empty
abbrev pub each_object : (Members → Outcome Members) → Items → Outcome Items
each_object execute nil = done nil
each_object execute (cons (obj ms) xs) = do
  here ← execute ms
  rest ← each_object execute xs
  done (cons (obj here) rest)
each_object execute (cons _ xs) = failed "unexpected type"

abbrev pub has_selections : PlanSelections → Bool
has_selections none_selected = false
has_selections (selected s rest) = true

-- the value of a field, given `executeSelectionSet` for its selections
abbrev pub project : (Members → Outcome Members) → Bool → Json → Outcome Json
project execute nested (arr xs) =
    let all = (do projected ← each_object execute xs; done (arr projected)) in
    if nested then all else done (arr xs)
project execute nested (obj ms) = do projected ← execute ms; done (obj projected)
project execute nested v = done v

-- `utils.DeepMerge(result, value)`
abbrev pub merge_result : Members → Members → Outcome Members
merge_result result value = or_panic (deep_merge (obj result) (obj value)) >>= λ merged.
    elim merged [ obj ms ↦ done ms | _ ↦ Outcome.panicked ]

module _ (schema : Schema) where
  -- the loop over the selections, from the result so far
  unfoldable mutual
    unfolding does_type_condition_match deep_merge

    pub execute_loop : PlanSelections → Members → Members → Outcome Members
    execute_loop none_selected source result = done result
    execute_loop (selected s rest) source result = do
      next ← execute_selection s source result
      execute_loop rest source next

    pub execute_selection : PlanSelection → Members → Members → Outcome Members
    execute_selection (plan_field alias name selections) source result =
        let key = response_name alias name in
        elim (get key source) [
          | none ↦ failed (concat ("field \"" ∷ key ∷ "\" was not found in response" ∷ []))
          | some v ↦
              project (λ ms. execute_loop selections ms end) (has_selections selections) v >>= λ w.
              done (put key w result)
        ]
    execute_selection (plan_fragment condition selections) source result =
        let matching = (do
          typename ← typename_of (get "__typename" source)
          let merged = (do value ← execute_loop selections source end; merge_result result value)
          if does_type_condition_match schema condition typename then merged else done result) in
        if condition == "" then done result else matching

  -- `executeSelectionSet`
  unfoldable pub execute_selection_set : Members → PlanSelections → Outcome Members
  unfolding execute_loop
  execute_selection_set source selections = execute_loop selections source end
