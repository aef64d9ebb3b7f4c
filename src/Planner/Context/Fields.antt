-- ===== src/Planner/Context/Fields.antt =====
-- `collectFields`: what holds of every field that it collects, by induction on the selections.
use fedeway.Prelude.{
  ℕ, zero, suc, String, false, Option, none, some, some_eq, List, [], ◌∷◌, ◌++◌, All, All-append,
  Option-cases, Bool-cases, inl, inr, ◌≡◌, refl,
}
use fedeway.Outcome.{Outcome, done, failed, panicked, exhausted, ◌>>=◌}
use fedeway.Ast.{
  Directive, Selection, field, inline_fragment, fragment_spread, FieldNode, name_of, SelectionSet,
  empty, select, FragmentDefinition,
}
use fedeway.Planner.Scope.{Scope, parent_type, refine, possible_runtime_types}
use fedeway.Planner.Grouping.{Field}
use fedeway.Planner.Context.{
  PlanningContext, get_field_def, field_def_of, get_condition, scope_for_fragment, is_nil, in_scope,
  in_fragment, collect_set, collect_selection, collect_fields,
}

module _ (qpctx : PlanningContext) where
  -- Some object can meet the selections of the scope.
  abbrev pub IsInhabited : Scope → Type 0
  IsInhabited scope = is_nil (possible_runtime_types qpctx.schema scope) ≡ false

  -- The field's definition is the one that its name has in the parent type of its scope, which some
  -- object can meet.
  abbrev pub IsSelected : Field → Type 0
  IsSelected f =
      (get_field_def qpctx (parent_type f.scope) (name_of f.field_node) ≡ some f.field_def)
      × IsInhabited f.scope

  abbrev pub AreSelected : Outcome (List Field) → Type 0
  AreSelected (done fields) = All IsSelected fields
  AreSelected _ = Unit

  selected-append :
      (a b : Outcome (List Field))
      → AreSelected a
      → AreSelected b
      → AreSelected (a >>= λ xs. b >>= λ ys. done (xs ++ ys))
  selected-append (done xs) (done ys) h k = All-append IsSelected xs ys h k
  selected-append (done xs) (failed m) h k = tt
  selected-append (done xs) panicked h k = tt
  selected-append (done xs) exhausted h k = tt
  selected-append (failed m) b h k = tt
  selected-append panicked b h k = tt
  selected-append exhausted b h k = tt

  scope_for_fragment-IsInhabited :
      (scope refined : Scope) (condition : String) (directives : List Directive)
      → scope_for_fragment qpctx scope condition directives ≡ some refined
      → IsInhabited refined
  unfolding scope_for_fragment
  scope_for_fragment-IsInhabited scope refined condition directives h =
      let target =
        refine qpctx.schema scope (get_condition qpctx (parent_type scope) condition) directives in
      elim (Bool-cases (is_nil (possible_runtime_types qpctx.schema target))) [
        | inl e ↦ let nothing : none ≡ some refined = rw e at h in cc
        | inr e ↦
            let same_scope : some target ≡ some refined = rw e at h in rw (← some_eq same_scope) e
      ]

  field-AreSelected :
      (scope : Scope) (node : FieldNode)
      → IsInhabited scope
      → AreSelected (
          field_def_of qpctx (parent_type scope) node >>= λ def.
          done (record { scope = scope; field_node = node; field_def = def } ∷ []))
  unfolding field_def_of
  field-AreSelected scope node inhabited =
      elim (Option-cases (get_field_def qpctx (parent_type scope) (name_of node))) [
        | inl e ↦ rw e tt
        | inr (def, e) ↦ rw e ((e, inhabited), tt)
      ]

  in_scope-AreSelected :
      (o : Option Scope) (collect : Scope → Outcome (List Field))
      → ((refined : Scope) → o ≡ some refined → AreSelected (collect refined))
      → AreSelected (in_scope qpctx o collect)
  in_scope-AreSelected none collect h = tt
  in_scope-AreSelected (some refined) collect h = h refined refl

  in_fragment-AreSelected :
      (o : Option FragmentDefinition) (scope : Scope) (ds : List Directive)
      (spread : Scope → SelectionSet → Outcome (List Field))
      → ((refined : Scope) (selections : SelectionSet)
          → IsInhabited refined
          → AreSelected (spread refined selections))
      → AreSelected (in_fragment qpctx o scope ds spread)
  in_fragment-AreSelected none scope ds spread h = tt
  in_fragment-AreSelected (some fragment) scope ds spread h =
      in_scope-AreSelected (scope_for_fragment qpctx scope fragment.type_condition ds)
        (λ refined. spread refined fragment.selection_set)
        (λ refined r.
          h refined fragment.selection_set
            (scope_for_fragment-IsInhabited scope refined fragment.type_condition ds r))

  set-AreSelected :
      (spread : Scope → SelectionSet → Outcome (List Field)) (scope : Scope) (s : Selection)
      (rest : SelectionSet)
      → AreSelected (collect_selection qpctx spread scope s)
      → AreSelected (collect_set qpctx spread scope rest)
      → AreSelected (collect_set qpctx spread scope (select s rest))
  unfolding collect_set
  set-AreSelected spread scope s rest h k =
      selected-append (collect_selection qpctx spread scope s) (collect_set qpctx spread scope rest)
        h k

  empty-AreSelected :
      (spread : Scope → SelectionSet → Outcome (List Field)) (scope : Scope)
      → AreSelected (collect_set qpctx spread scope empty)
  unfolding collect_set
  empty-AreSelected spread scope = tt

  selection-AreSelected :
      (spread : Scope → SelectionSet → Outcome (List Field)) (scope : Scope) (node : FieldNode)
      → IsInhabited scope
      → AreSelected (collect_selection qpctx spread scope (field node))
  unfolding collect_set
  selection-AreSelected spread scope node inhabited = field-AreSelected scope node inhabited

  inline-AreSelected :
      (spread : Scope → SelectionSet → Outcome (List Field)) (scope : Scope) (condition : String)
      (ds : List Directive) (selections : SelectionSet)
      → ((refined : Scope)
          → IsInhabited refined
          → AreSelected (collect_set qpctx spread refined selections))
      → AreSelected (collect_selection qpctx spread scope (inline_fragment condition ds selections))
  unfolding collect_set
  inline-AreSelected spread scope condition ds selections h =
      in_scope-AreSelected (scope_for_fragment qpctx scope condition ds)
        (λ refined. collect_set qpctx spread refined selections)
        (λ refined r. h refined (scope_for_fragment-IsInhabited scope refined condition ds r))

  spread-AreSelected :
      (spread : Scope → SelectionSet → Outcome (List Field)) (scope : Scope) (name : String)
      (ds : List Directive)
      → ((refined : Scope) (selections : SelectionSet)
          → IsInhabited refined
          → AreSelected (spread refined selections))
      → AreSelected (collect_selection qpctx spread scope (fragment_spread name ds))
  unfolding collect_set
  spread-AreSelected spread scope name ds h =
      in_fragment-AreSelected (qpctx.fragment_for_name name) scope ds spread h

  module _ (spread : Scope → SelectionSet → Outcome (List Field))
      (h : (scope : Scope) (selections : SelectionSet)
        → IsInhabited scope
        → AreSelected (spread scope selections)) where
    mutual
      collect_set-AreSelected :
          (selections : SelectionSet) (scope : Scope)
          → IsInhabited scope
          → AreSelected (collect_set qpctx spread scope selections)
      collect_set-AreSelected empty scope i = empty-AreSelected spread scope
      collect_set-AreSelected (select s rest) scope i =
          set-AreSelected spread scope s rest (collect_selection-AreSelected s scope i)
            (collect_set-AreSelected rest scope i)

      collect_selection-AreSelected :
          (s : Selection) (scope : Scope)
          → IsInhabited scope
          → AreSelected (collect_selection qpctx spread scope s)
      collect_selection-AreSelected (field node) scope i = selection-AreSelected spread scope node i
      collect_selection-AreSelected (inline_fragment condition ds selections) scope i =
          inline-AreSelected spread scope condition ds selections
            (λ refined r. collect_set-AreSelected selections refined r)
      collect_selection-AreSelected (fragment_spread name ds) scope i =
          spread-AreSelected spread scope name ds h

  -- Every field that `collectFields` returns, for a scope that some object can meet, has the
  -- definition that its name has in the parent type of its own scope, and some object can meet that
  -- scope too.
  pub collect_fields-AreSelected :
      (fuel : ℕ) (scope : Scope) (selections : SelectionSet)
      → IsInhabited scope
      → AreSelected (collect_fields qpctx fuel scope selections)
  unfolding collect_fields
  collect_fields-AreSelected zero scope selections i =
      collect_set-AreSelected (λ s t. exhausted) (λ s t j. tt) selections scope i
  collect_fields-AreSelected (suc fuel) scope selections i =
      collect_set-AreSelected (collect_fields qpctx fuel) (collect_fields-AreSelected fuel)
        selections scope i
