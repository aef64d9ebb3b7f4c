-- ===== src/Planner/Context/Depth.antt =====
-- How deep the selections of collected fields nest, fragments included.
use fedeway.Prelude.{
  ℕ, zero, suc, ◌≤◌, ◌<◌, String, Option, none, some, List, [], ◌∷◌, ◌++◌, All, All-append, ◌≡◌,
  refl, arith,
}
use fedeway.Outcome.{Outcome, done, failed, panicked, exhausted, or_fail, ◌>>=◌}
use fedeway.Ast.{
  Directive, Selection, field, inline_fragment, fragment_spread, FieldNode, field_node, name_of,
  SelectionSet, empty, select, selection_set_of, FragmentDefinition, FieldDefinition,
}
use fedeway.Planner.Scope.{Scope, parent_type}
use fedeway.Planner.Grouping.{Field}
use fedeway.Planner.Context.{
  PlanningContext, get_field_def, field_def_of, scope_for_fragment, in_scope, in_fragment,
  collect_set, collect_selection, collect_fields,
}
use fedeway.Planner.Context.Fuel.{SpreadsBelow, SelectionSpreadsBelow}

module _ (qpctx : PlanningContext) (rank depth : String → ℕ) (fuel : ℕ) where
  -- Fields nest in at most so many fields; a fragment that is spread counts with its depth, and its
  -- rank is below the fuel.
  unfoldable mutual
    pub Fits : ℕ → SelectionSet → Type 0
    Fits d empty = Unit
    Fits d (select s rest) = SelectionFits d s × Fits d rest

    pub SelectionFits : ℕ → Selection → Type 0
    SelectionFits d (field node) = NodeFits d node
    SelectionFits d (inline_fragment condition ds selections) = Fits d selections
    SelectionFits d (fragment_spread name ds) = (rank name < fuel) × (depth name ≤ d)

    pub NodeFits : ℕ → FieldNode → Type 0
    NodeFits zero (field_node alias name args ds selections) = ⊥
    NodeFits (suc d) (field_node alias name args ds selections) = Fits d selections

  -- The fragments have these depths.
  abbrev pub HasDepths : Type 0
  HasDepths =
      (name : String) (fragment : FragmentDefinition)
      → qpctx.fragment_for_name name ≡ some fragment
      → Fits (depth name) fragment.selection_set

  mutual
    unfolding Fits

    grow : (selections : SelectionSet) (d e : ℕ) → d ≤ e → Fits d selections → Fits e selections
    grow empty d e le h = tt
    grow (select s rest) d e le h = (grow_selection s d e le h.0, grow rest d e le h.1)

    grow_selection : (s : Selection) (d e : ℕ) → d ≤ e → SelectionFits d s → SelectionFits e s
    grow_selection (field node) d e le h = grow_node node d e le h
    grow_selection (inline_fragment condition ds selections) d e le h = grow selections d e le h
    grow_selection (fragment_spread name ds) d e le h = (h.0, omega (arith, h.1, le))

    grow_node : (node : FieldNode) (d e : ℕ) → d ≤ e → NodeFits d node → NodeFits e node
    grow_node (field_node alias name args ds selections) zero e le h = absurd h
    grow_node (field_node alias name args ds selections) (suc d) zero le h =
        absurd (omega (arith, le))
    grow_node (field_node alias name args ds selections) (suc d) (suc e) le h =
        grow selections d e (omega (arith, le)) h

  mutual
    unfolding Fits SpreadsBelow

    pub Fits-SpreadsBelow :
        (d : ℕ) (selections : SelectionSet)
        → Fits d selections
        → SpreadsBelow qpctx rank fuel selections
    Fits-SpreadsBelow d empty h = tt
    Fits-SpreadsBelow d (select s rest) h =
        (selection_spreads d s h.0, Fits-SpreadsBelow d rest h.1)

    selection_spreads :
        (d : ℕ) (s : Selection) → SelectionFits d s → SelectionSpreadsBelow qpctx rank fuel s
    selection_spreads d (field node) h = tt
    selection_spreads d (inline_fragment condition ds selections) h =
        Fits-SpreadsBelow d selections h
    selection_spreads d (fragment_spread name ds) h = h.0

  abbrev pub FieldFits : ℕ → Field → Type 0
  FieldFits d f = NodeFits d f.field_node

  pub NodeFits-selections :
      (d : ℕ) (node : FieldNode) → NodeFits (suc d) node → Fits d (selection_set_of node)
  unfolding Fits
  NodeFits-selections d (field_node alias name args ds selections) h = h

  pub NodeFits-zero : (node : FieldNode) → NodeFits zero node → ⊥
  unfolding Fits
  NodeFits-zero (field_node alias name args ds selections) h = h

  abbrev pub AllFit : ℕ → Outcome (List Field) → Type 0
  AllFit d (done fields) = All (FieldFits d) fields
  AllFit d _ = Unit

  pub AllFit-append :
      (d : ℕ) (a b : Outcome (List Field))
      → AllFit d a
      → AllFit d b
      → AllFit d (a >>= λ xs. b >>= λ ys. done (xs ++ ys))
  AllFit-append d (done xs) (done ys) h k = All-append (FieldFits d) xs ys h k
  AllFit-append d (done xs) (failed m) h k = tt
  AllFit-append d (done xs) panicked h k = tt
  AllFit-append d (done xs) exhausted h k = tt
  AllFit-append d (failed m) b h k = tt
  AllFit-append d panicked b h k = tt
  AllFit-append d exhausted b h k = tt

  in_scope-AllFit :
      (d : ℕ) (o : Option Scope) (collect : Scope → Outcome (List Field))
      → ((refined : Scope) → AllFit d (collect refined))
      → AllFit d (in_scope qpctx o collect)
  in_scope-AllFit d none collect h = tt
  in_scope-AllFit d (some refined) collect h = h refined

  in_fragment-AllFit :
      (d : ℕ) (o : Option FragmentDefinition) (scope : Scope) (ds : List Directive)
      (spread : Scope → SelectionSet → Outcome (List Field))
      → ((fragment : FragmentDefinition)
          → o ≡ some fragment
          → (refined : Scope) → AllFit d (spread refined fragment.selection_set))
      → AllFit d (in_fragment qpctx o scope ds spread)
  in_fragment-AllFit d none scope ds spread h = tt
  in_fragment-AllFit d (some fragment) scope ds spread h =
      in_scope-AllFit d (scope_for_fragment qpctx scope fragment.type_condition ds) _
        (h fragment refl)

  field-AllFit :
      (d : ℕ) (scope : Scope) (node : FieldNode) (o : Option FieldDefinition) (message : String)
      → NodeFits d node
      → AllFit d (
          or_fail message o >>= λ def.
          done (record { scope = scope; field_node = node; field_def = def } ∷ []))
  field-AllFit d scope node none message h = tt
  field-AllFit d scope node (some def) message h = (h, tt)

  module _ (spread : Scope → SelectionSet → Outcome (List Field))
      (spreads : (d : ℕ) (name : String) (fragment : FragmentDefinition)
        → qpctx.fragment_for_name name ≡ some fragment
        → depth name ≤ d
        → (scope : Scope) → AllFit d (spread scope fragment.selection_set)) where
    mutual
      unfolding Fits collect_set field_def_of

      collect_set-AllFit :
          (d : ℕ) (selections : SelectionSet) (scope : Scope)
          → Fits d selections
          → AllFit d (collect_set qpctx spread scope selections)
      collect_set-AllFit d empty scope h = tt
      collect_set-AllFit d (select s rest) scope h =
          AllFit-append d (collect_selection qpctx spread scope s)
            (collect_set qpctx spread scope rest) (collect_selection-AllFit d s scope h.0)
            (collect_set-AllFit d rest scope h.1)

      collect_selection-AllFit :
          (d : ℕ) (s : Selection) (scope : Scope)
          → SelectionFits d s
          → AllFit d (collect_selection qpctx spread scope s)
      collect_selection-AllFit d (field node) scope h =
          field-AllFit d scope node (get_field_def qpctx (parent_type scope) (name_of node)) _ h
      collect_selection-AllFit d (inline_fragment condition ds selections) scope h =
          in_scope-AllFit d (scope_for_fragment qpctx scope condition ds) _
            (λ refined. collect_set-AllFit d selections refined h)
      collect_selection-AllFit d (fragment_spread name ds) scope h =
          in_fragment-AllFit d (qpctx.fragment_for_name name) scope ds spread
            (λ fragment e. spreads d name fragment e h.1)

  -- The fields that are collected from selections nest no deeper than these.
  pub collect_fields-AllFit :
      HasDepths
      → (k d : ℕ) (scope : Scope) (selections : SelectionSet) → Fits d selections
      → AllFit d (collect_fields qpctx k scope selections)
  unfolding collect_fields
  collect_fields-AllFit depths zero d scope selections h =
      collect_set-AllFit _ (λ e name fragment found le refined. tt) d selections scope h
  collect_fields-AllFit depths (suc k) d scope selections h =
      collect_set-AllFit (collect_fields qpctx k)
        (λ e name fragment found le refined.
          collect_fields-AllFit depths k e refined fragment.selection_set
            (grow fragment.selection_set (depth name) e le (depths name fragment found)))
        d selections scope h
