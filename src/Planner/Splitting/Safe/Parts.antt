-- ===== src/Planner/Splitting/Safe/Parts.antt =====
-- The parts of `completeField`: `collectSubfields` and the calls on fragments.
use fedeway.Prelude.{
  ℕ, suc, ◌≤◌, String, ◌&&◌, Option, none, some, List, [], ◌∷◌, ◌++◌, lookup, All, All-append, ◌≡◌,
  refl, ap, subst,
}
use fedeway.Outcome.{Outcome, done, Ends, is_exhausted-bind, bind-eq-done, done_eq}
use fedeway.Ast.{GqlType, Definition, SelectionSet, selection_set_of, FragmentDefinition}
use fedeway.Plan.{ResponsePath}
use fedeway.Planner.Scope.{Scope, outermost}
use fedeway.Planner.Grouping.{Field}
use fedeway.Planner.Context.{PlanningContext, collect_fields}
use fedeway.Planner.Context.Fuel.{IsRanked}
use fedeway.Planner.Context.Depth.{
  FieldFits, HasDepths, AllFit, Fits-SpreadsBelow, NodeFits-selections, collect_fields-AllFit,
}
use fedeway.Planner.Context.Services.Ends.{HasKnownSpreads, collect-Ends}
use fedeway.Planner.Groups.{FetchGroup, InternalFragment, Store, at_index}
use fedeway.Planner.Splitting.Complete.{
  collect_subfields, known_or_made, get_internal_fragment, fragment_if_large, add_fragments,
  has_three,
}
use fedeway.Planner.Splitting.Safe.{
  Grows-refl, Grows-trans, at-Grows, IsBelow, Safe, Anything, bind-Safe, return-Safe, lift-Safe,
  if-Safe,
}
use fedeway.Planner.Splitting.Safe.Groups.{refine-Safe}

module _ (qpctx : PlanningContext) (rank depth : String → ℕ) (ranked : IsRanked qpctx rank)
    (fuel : ℕ) (depths : HasDepths qpctx rank depth fuel)
    (known : HasKnownSpreads qpctx rank fuel) where
  -- Selections that fit are of fields that fit one level further up.
  abbrev pub FitsBelow : ℕ → List Field → Type 0
  FitsBelow d fields = All (FieldFits qpctx rank depth fuel d) fields

  pub fitting :
      (d : ℕ) (o : Outcome (List Field)) (fields : List Field)
      → AllFit qpctx rank depth fuel d o
      → o ≡ done fields
      → FitsBelow d fields
  fitting d o fields h e = subst (AllFit qpctx rank depth fuel d) e h

  pub collect_subfields-Ends :
      (d : ℕ) (return_type : Definition) (fields : List Field)
      → FitsBelow (suc d) fields
      → Ends (collect_subfields qpctx fuel return_type fields)
  unfolding collect_subfields
  collect_subfields-Ends d return_type [] h = refl
  collect_subfields-Ends d return_type (f ∷ fields) h =
      let selections = selection_set_of f.field_node in
      let fits = NodeFits-selections qpctx rank depth fuel d f.field_node h.0 in
      is_exhausted-bind (collect_fields qpctx fuel (outermost return_type []) selections) _
        (collect-Ends qpctx rank ranked fuel known (outermost return_type []) selections
          (Fits-SpreadsBelow qpctx rank depth fuel d selections fits))
        (λ found e.
          is_exhausted-bind (collect_subfields qpctx fuel return_type fields) _
            (collect_subfields-Ends d return_type fields h.1) (λ others k. refl))

  pub collect_subfields-FitsBelow :
      (d : ℕ) (return_type : Definition) (fields found : List Field)
      → FitsBelow (suc d) fields
      → collect_subfields qpctx fuel return_type fields ≡ done found
      → FitsBelow d found
  unfolding collect_subfields
  collect_subfields-FitsBelow d return_type [] found h e = subst (FitsBelow d) (done_eq e) tt
  collect_subfields-FitsBelow d return_type (f ∷ fields) found h e =
      let selections = selection_set_of f.field_node in
      let fits = NodeFits-selections qpctx rank depth fuel d f.field_node h.0 in
      let collected = collect_fields qpctx fuel (outermost return_type []) selections in
      let (xs, first, e1) = bind-eq-done collected _ e in
      let (ys, second, e2) = bind-eq-done (collect_subfields qpctx fuel return_type fields) _ e1 in
      subst (FitsBelow d) (done_eq e2) (
        All-append (FieldFits qpctx rank depth fuel d) xs ys
          (fitting d collected xs
            (collect_fields-AllFit qpctx rank depth fuel depths fuel d (outermost return_type [])
              selections fits)
            first)
          (collect_subfields-FitsBelow d return_type fields ys h.1 second))

  module _ (bound : ℕ) (enough : bound ≤ fuel) (type_name : GqlType → String)
      (path_string : ResponsePath → String) (key : Scope → Option String)
      (marshal : SelectionSet → Outcome String)
      (marshals : (selections : SelectionSet) → Ends (marshal selections)) where
    pub add_fragments-Safe :
        (ls : List ℕ) (ref l : ℕ) (fragments : List FragmentDefinition)
        → at_index ref ls ≡ some l
        → Safe bound ls (Anything bound) (add_fragments ref fragments)
    add_fragments-Safe ls ref l fragments at =
        refine-Safe bound ls ref l
          (λ group. record group { internal_fragments = group.internal_fragments ++ fragments }) at
          (λ g. (refl, refl, refl))

    known_or_made-Safe :
        (ls : List ℕ) (text : String) (made : InternalFragment) (o : Option InternalFragment)
        → Safe bound ls (Anything bound) (known_or_made text made o)
    known_or_made-Safe ls text made (some old) =
        return-Safe bound ls (Anything bound) (old.definition, old.selection_set) tt
    known_or_made-Safe ls text made none = λ s p. (
      refl,
      λ t a e. (
        ls,
        Grows-refl ls,
        subst (IsBelow bound ls)
            (ap (λ (r : (FragmentDefinition × SelectionSet) × Store). r.1) (done_eq e)) p,
        tt,
      ),
    )

    get_internal_fragment-Safe :
        (ls : List ℕ) (text : String) (selections : SelectionSet) (return_type : Definition)
        → Safe bound ls (Anything bound) (get_internal_fragment text selections return_type)
    unfolding get_internal_fragment
    get_internal_fragment-Safe ls text selections return_type s p =
        known_or_made-Safe ls text _ (lookup text s.fragments) s p

    pub fragment_if_large-Safe :
        (ls : List ℕ) (ref l : ℕ) (sub : FetchGroup) (selections : SelectionSet)
        (return_type : Definition)
        → at_index ref ls ≡ some l
        → Safe bound ls (Anything bound) (
            fragment_if_large qpctx type_name path_string key marshal fuel ref sub selections
              return_type)
    unfolding fragment_if_large
    fragment_if_large-Safe ls ref l sub selections return_type at =
        if-Safe bound ls (Anything bound) (qpctx.auto_fragmentation && has_three sub.fields) _ _
          (bind-Safe bound ls (Anything bound) (Anything bound) _ _
            (lift-Safe bound ls (λ text. Unit {0}) (marshal selections) (marshals selections)
              (λ text e. tt))
            (λ ms g text _.
              bind-Safe bound ms (Anything bound) (Anything bound) _ _
                (get_internal_fragment-Safe ms text selections return_type)
                (λ ns g2 made _.
                  bind-Safe bound ns (Anything bound) (Anything bound) _ _
                    (add_fragments-Safe ns ref l (made.0 ∷ [])
                      (at-Grows ls ns ref l (Grows-trans ls ms ns g g2) at))
                    (λ os g3 u _. return-Safe bound os (Anything bound) made.1 tt))))
          (return-Safe bound ls (Anything bound) selections tt)
