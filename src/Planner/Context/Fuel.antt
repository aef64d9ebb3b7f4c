-- ===== src/Planner/Context/Fuel.antt =====
-- `collectFields` returns if no fragment spreads itself: fuel for the deepest chain is enough.
use fedeway.Prelude.{
  ℕ, zero, suc, ◌≤◌, ◌<◌, String, false, Option, none, some, List, Option-cases, inl, inr, ◌≡◌,
  refl, arith,
}
use fedeway.Outcome.{Outcome, is_exhausted, is_exhausted-bind}
use fedeway.Ast.{
  Directive, Selection, field, inline_fragment, fragment_spread, FieldNode, name_of, SelectionSet,
  empty, select, FragmentDefinition,
}
use fedeway.Planner.Scope.{Scope, parent_type}
use fedeway.Planner.Grouping.{Field}
use fedeway.Planner.Context.{
  PlanningContext, get_field_def, field_def_of, scope_for_fragment, in_scope, in_fragment,
  collect_set, collect_selection, collect_fields,
}

module _ (qpctx : PlanningContext) where
  -- The call returns, with fields or an error.
  abbrev pub Returns : Outcome (List Field) → Type 0
  Returns o = is_exhausted o ≡ false

  set-Returns :
      (spread : Scope → SelectionSet → Outcome (List Field)) (scope : Scope) (s : Selection)
      (rest : SelectionSet)
      → Returns (collect_selection qpctx spread scope s)
      → Returns (collect_set qpctx spread scope rest)
      → Returns (collect_set qpctx spread scope (select s rest))
  unfolding collect_set
  set-Returns spread scope s rest h k =
      is_exhausted-bind (collect_selection qpctx spread scope s) _ h
        (λ found e. is_exhausted-bind (collect_set qpctx spread scope rest) _ k (λ others f. refl))

  empty-Returns :
      (spread : Scope → SelectionSet → Outcome (List Field)) (scope : Scope)
      → Returns (collect_set qpctx spread scope empty)
  unfolding collect_set
  empty-Returns spread scope = refl

  field-Returns :
      (spread : Scope → SelectionSet → Outcome (List Field)) (scope : Scope) (node : FieldNode)
      → Returns (collect_selection qpctx spread scope (field node))
  unfolding collect_set field_def_of
  field-Returns spread scope node =
      elim (Option-cases (get_field_def qpctx (parent_type scope) (name_of node))) [
        | inl e ↦ rw e refl
        | inr (def, e) ↦ rw e refl
      ]

  in_scope-Returns :
      (o : Option Scope) (collect : Scope → Outcome (List Field))
      → ((refined : Scope) → Returns (collect refined))
      → Returns (in_scope qpctx o collect)
  in_scope-Returns none collect h = refl
  in_scope-Returns (some refined) collect h = h refined

  in_fragment-Returns :
      (o : Option FragmentDefinition) (scope : Scope) (ds : List Directive)
      (spread : Scope → SelectionSet → Outcome (List Field))
      → ((fragment : FragmentDefinition)
          → o ≡ some fragment
          → (refined : Scope) → Returns (spread refined fragment.selection_set))
      → Returns (in_fragment qpctx o scope ds spread)
  in_fragment-Returns none scope ds spread h = refl
  in_fragment-Returns (some fragment) scope ds spread h =
      in_scope-Returns (scope_for_fragment qpctx scope fragment.type_condition ds) _
        (h fragment refl)

  inline-Returns :
      (spread : Scope → SelectionSet → Outcome (List Field)) (scope : Scope) (condition : String)
      (ds : List Directive) (selections : SelectionSet)
      → ((refined : Scope) → Returns (collect_set qpctx spread refined selections))
      → Returns (collect_selection qpctx spread scope (inline_fragment condition ds selections))
  unfolding collect_set
  inline-Returns spread scope condition ds selections h =
      in_scope-Returns (scope_for_fragment qpctx scope condition ds) _ h

  spread-Returns :
      (spread : Scope → SelectionSet → Outcome (List Field)) (scope : Scope) (name : String)
      (ds : List Directive)
      → ((fragment : FragmentDefinition)
          → qpctx.fragment_for_name name ≡ some fragment
          → (refined : Scope) → Returns (spread refined fragment.selection_set))
      → Returns (collect_selection qpctx spread scope (fragment_spread name ds))
  unfolding collect_set
  spread-Returns spread scope name ds h =
      in_fragment-Returns (qpctx.fragment_for_name name) scope ds spread h

  -- How deep the fragments under a name go: below `n` for every fragment that a selection set
  -- spreads.
  module _ (rank : String → ℕ) where
    unfoldable mutual
      pub SpreadsBelow : ℕ → SelectionSet → Type 0
      SpreadsBelow n empty = Unit
      SpreadsBelow n (select s rest) = SelectionSpreadsBelow n s × SpreadsBelow n rest

      pub SelectionSpreadsBelow : ℕ → Selection → Type 0
      SelectionSpreadsBelow n (field node) = Unit
      SelectionSpreadsBelow n (inline_fragment condition ds selections) = SpreadsBelow n selections
      SelectionSpreadsBelow n (fragment_spread name ds) = rank name < n

    -- No fragment spreads itself, directly or through others: the ranks go down.
    abbrev pub IsRanked : Type 0
    IsRanked =
        (name : String) (fragment : FragmentDefinition)
        → qpctx.fragment_for_name name ≡ some fragment
        → SpreadsBelow (rank name) fragment.selection_set

    mutual
      unfolding SpreadsBelow

      weaken :
          (selections : SelectionSet) {m n : ℕ}
          → m ≤ n
          → SpreadsBelow m selections
          → SpreadsBelow n selections
      weaken empty le h = tt
      weaken (select s rest) le h = (weaken_selection s le h.0, weaken rest le h.1)

      weaken_selection :
          (s : Selection) {m n : ℕ} → m ≤ n → SelectionSpreadsBelow m s → SelectionSpreadsBelow n s
      weaken_selection (field node) le h = tt
      weaken_selection (inline_fragment condition ds selections) le h = weaken selections le h
      weaken_selection (fragment_spread name ds) le h = omega arith

    -- The fragments of rank below `n` return for the call that is made for them.
    abbrev SpreadReturns : ℕ → (Scope → SelectionSet → Outcome (List Field)) → Type 0
    SpreadReturns n spread =
        (name : String) (fragment : FragmentDefinition)
        → qpctx.fragment_for_name name ≡ some fragment
        → rank name < n
        → (scope : Scope) → Returns (spread scope fragment.selection_set)

    module _ (n : ℕ) (spread : Scope → SelectionSet → Outcome (List Field))
        (h : SpreadReturns n spread) where
      mutual
        unfolding SpreadsBelow

        collect_set-Returns :
            (selections : SelectionSet) (scope : Scope)
            → SpreadsBelow n selections
            → Returns (collect_set qpctx spread scope selections)
        collect_set-Returns empty scope b = empty-Returns spread scope
        collect_set-Returns (select s rest) scope b =
            set-Returns spread scope s rest (collect_selection-Returns s scope b.0)
              (collect_set-Returns rest scope b.1)

        collect_selection-Returns :
            (s : Selection) (scope : Scope)
            → SelectionSpreadsBelow n s
            → Returns (collect_selection qpctx spread scope s)
        collect_selection-Returns (field node) scope b = field-Returns spread scope node
        collect_selection-Returns (inline_fragment condition ds selections) scope b =
            inline-Returns spread scope condition ds selections
              (λ refined. collect_set-Returns selections refined b)
        collect_selection-Returns (fragment_spread name ds) scope b =
            spread-Returns spread scope name ds (λ fragment e. h name fragment e b)

    pub collect_fields-Returns :
        IsRanked
        → (fuel : ℕ) (scope : Scope) (selections : SelectionSet) → SpreadsBelow fuel selections
        → Returns (collect_fields qpctx fuel scope selections)
    unfolding collect_fields
    collect_fields-Returns ranked zero scope selections below =
        collect_set-Returns zero _ (λ name fragment e lt. elim lt [ ]) selections scope below
    collect_fields-Returns ranked (suc fuel) scope selections below =
        collect_set-Returns (suc fuel) (collect_fields qpctx fuel)
          (λ name fragment e lt refined.
            collect_fields-Returns ranked fuel refined fragment.selection_set
              (weaken fragment.selection_set (omega arith) (ranked name fragment e)))
          selections scope below
