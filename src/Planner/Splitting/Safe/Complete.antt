-- ===== src/Planner/Splitting/Safe/Complete.antt =====
-- `completeField` with fuel for the depth of the selections.
use fedeway.Prelude.{
  ℕ, zero, suc, ◌<◌, ◌≤◌, ◌+◌, String, Option, some, List, [], ◌∷◌, ◌≡◌, refl, arith,
}
use fedeway.Outcome.{Outcome, or_panic, Ends, is_exhausted-or_panic}
use fedeway.Ast.{GqlType, Definition, SelectionSet, with_selection_set}
use fedeway.Plan.{ResponsePath}
use fedeway.Planner.Scope.{Scope}
use fedeway.Planner.Grouping.{Field, get_response_name}
use fedeway.Planner.FieldSets.{is_composite_type, selection_set_from_field_set}
use fedeway.Planner.FieldSets.Ends.{selection_set_from_field_set-Ends}
use fedeway.Planner.Context.{PlanningContext}
use fedeway.Planner.Context.Fuel.{IsRanked}
use fedeway.Planner.Context.Depth.{FieldFits, HasDepths, NodeFits-zero}
use fedeway.Planner.Context.Services.{get_provided_fields}
use fedeway.Planner.Context.Services.Ends.{HasKnownSpreads, get_provided_fields-Ends}
use fedeway.Planner.Groups.{Planning, ◌>>=◌, return, lift, at_index, load}
use fedeway.Planner.Groups.Levels.{Links}
use fedeway.Planner.Groups.Levels.Steps.{IsLevelled-lt}
use fedeway.Planner.Splitting.{add_path}
use fedeway.Planner.Splitting.Subfields.{group_for_subfield}
use fedeway.Planner.Splitting.Complete.{
  collect_subfields, fragment_if_large, add_fragments, complete_composite, split_subfields,
  complete_field,
}
use fedeway.Planner.Splitting.Safe.{
  Grows-trans, at-Grows, IsAtMost, Safe, Anything, bind-Safe, return-Safe, lift-Safe, if-Safe,
}
use fedeway.Planner.Splitting.Safe.Groups.{
  load-Safe, store-Safe, allocate-Safe, merge_dependent_groups-Safe,
}
use fedeway.Planner.Splitting.Safe.Fields.{split_fields-Safe}
use fedeway.Planner.Splitting.Safe.Subfields.{group_for_subfield-Safe}
use fedeway.Planner.Splitting.Safe.Parts.{
  FitsBelow, collect_subfields-Ends, collect_subfields-FitsBelow, add_fragments-Safe,
  fragment_if_large-Safe,
}

module _ (qpctx : PlanningContext) (rank depth : String → ℕ) (ranked : IsRanked qpctx rank)
    (fuel : ℕ) (depths : HasDepths qpctx rank depth fuel) (known : HasKnownSpreads qpctx rank fuel)
    (bound : ℕ) (enough : bound ≤ fuel) (type_name : GqlType → String)
    (path_string : ResponsePath → String) (key : Scope → Option String)
    (marshal : SelectionSet → Outcome String)
    (marshals : (selections : SelectionSet) → Ends (marshal selections)) where
  abbrev AllFitting : ℕ → List Field → Type 0
  AllFitting d fields = FitsBelow qpctx rank depth ranked fuel depths known d fields

  -- After the merge: the selections of the sub-group go into the field.
  finish-Safe :
      (ls : List ℕ) (parent_ref sub_ref l : ℕ) (scope : Scope) (field : Field)
      (return_type : Definition)
      → at_index parent_ref ls ≡ some l
      → at_index sub_ref ls ≡ some l
      → Safe bound ls (Anything bound) (
          load sub_ref >>= λ sub.
          lift
            (selection_set_from_field_set qpctx.schema type_name key sub.fields (some return_type))
          >>= λ selections.
              fragment_if_large qpctx type_name path_string key marshal fuel parent_ref sub
                selections return_type
              >>= λ final. add_fragments parent_ref sub.internal_fragments >>= λ u.
                  return (record field {
                    scope = scope;
                    field_node = with_selection_set field.field_node final;
                  }))
  finish-Safe ls parent_ref sub_ref l scope field return_type at sub_at =
      bind-Safe bound ls (λ ms g. Links ms (suc l) g) (Anything bound) _ _
        (load-Safe bound ls sub_ref l sub_at)
        (λ ms g sub links.
          bind-Safe bound ms (Anything bound) (Anything bound) _ _
            (lift-Safe bound ms (λ x. Unit {0})
              (selection_set_from_field_set qpctx.schema type_name key sub.fields
                (some return_type))
              (selection_set_from_field_set-Ends key qpctx.schema type_name sub.fields
                (some return_type))
              (λ x e. tt))
            (λ ns g2 selections _.
              let here = at-Grows ls ns parent_ref l (Grows-trans ls ms ns g g2) at in
              bind-Safe bound ns (Anything bound) (Anything bound) _ _
                (fragment_if_large-Safe qpctx rank depth ranked fuel depths known bound enough
                  type_name path_string key marshal marshals ns parent_ref l sub selections
                  return_type here)
                (λ os g3 final _.
                  bind-Safe bound os (Anything bound) (Anything bound) _ _
                    (add_fragments-Safe qpctx rank depth ranked fuel depths known bound enough
                      type_name path_string key marshal marshals os parent_ref l
                      sub.internal_fragments (at-Grows ns os parent_ref l g3 here))
                    (λ qs g4 u _. return-Safe bound qs (Anything bound) _ tt))))

  complete_composite-Safe :
      (split : ResponsePath → List Field → ℕ → Planning (Unit {0})) (d l : ℕ)
      → ((ms : List ℕ) (path : ResponsePath) (fields : List Field) (ref : ℕ)
          → at_index ref ms ≡ some l
          → AllFitting d fields
          → Safe bound ms (Anything bound) (split path fields ref))
      → (ls : List ℕ) (scope : Scope) (parent_ref : ℕ) (path : ResponsePath) (field : Field)
        (fields : List Field) (return_type : Definition)
      → at_index parent_ref ls ≡ some l
      → l < bound
      → AllFitting (suc d) (field ∷ fields)
      → Safe bound ls (Anything bound) (
          complete_composite qpctx type_name path_string key marshal fuel split scope parent_ref
            path field fields return_type)
  complete_composite-Safe split d l splits ls scope parent_ref path field fields return_type at
        below h =
      let field_path = add_path path (get_response_name field.field_node) field.field_def.type in
      bind-Safe bound ls (λ ms g. Links ms (suc l) g) (Anything bound) _ _
        (load-Safe bound ls parent_ref l at)
        (λ ms g parent links.
          let at_parent = at-Grows ls ms parent_ref l g at in
          bind-Safe bound ms (λ ns r. at_index r ns ≡ some l) (Anything bound) _ _
            (λ s p.
              allocate-Safe bound ms l parent.service_name field_path
                (omega (arith, IsLevelled-lt ms s parent_ref l p.0 at_parent)) below s p)
            (λ ns g2 sub_ref at_sub.
              bind-Safe bound ns (Anything bound) (Anything bound) _ _
                (lift-Safe bound ns (λ x. Unit {0})
                  (get_provided_fields qpctx fuel type_name field.field_def parent.service_name)
                  (get_provided_fields-Ends qpctx rank ranked fuel known type_name field.field_def
                    parent.service_name)
                  (λ x e. tt))
                (λ os g3 provided _.
                  let sub_os = at-Grows ns os sub_ref l g3 at_sub in
                  bind-Safe bound os (λ ps made. Links ps (suc l) made) (Anything bound) _ _
                    (load-Safe bound os sub_ref l sub_os)
                    (λ ps g4 made made_links.
                      let sub_ps = at-Grows os ps sub_ref l g4 sub_os in
                      bind-Safe bound ps (Anything bound) (Anything bound) _ _
                        (store-Safe bound ps sub_ref l _ sub_ps made_links)
                        (λ qs g5 u _.
                          let sub_qs = at-Grows ps qs sub_ref l g5 sub_ps in
                          bind-Safe bound qs (λ rs x. AllFitting d x) (Anything bound) _ _
                            (lift-Safe bound qs (AllFitting d)
                              (collect_subfields qpctx fuel return_type (field ∷ fields))
                              (collect_subfields-Ends qpctx rank depth ranked fuel depths known d
                                return_type (field ∷ fields) h)
                              (λ x e.
                                collect_subfields-FitsBelow qpctx rank depth ranked fuel depths
                                  known d return_type (field ∷ fields) x h e))
                            (λ rs g6 subfields fit.
                              let sub_rs = at-Grows qs rs sub_ref l g6 sub_qs in
                              bind-Safe bound rs (Anything bound) (Anything bound) _ _
                                (splits rs field_path subfields sub_ref sub_rs fit)
                                (λ ts g7 v _.
                                  let sub_ts = at-Grows rs ts sub_ref l g7 sub_rs in
                                  let all_grown = Grows-trans ms ns ts g2 (
                                    Grows-trans ns os ts g3 (
                                      Grows-trans os ps ts g4
                                        (Grows-trans ps qs ts g5 (Grows-trans qs rs ts g6 g7)))) in
                                  let parent_ts = at-Grows ms ts parent_ref l all_grown at_parent in
                                  bind-Safe bound ts (Anything bound) (Anything bound) _ _
                                    (merge_dependent_groups-Safe bound path_string ts fuel
                                      parent_ref sub_ref l parent_ts sub_ts enough)
                                    (λ us g8 w _.
                                      finish-Safe us parent_ref sub_ref l scope field return_type
                                        (at-Grows ts us parent_ref l g8 parent_ts)
                                        (at-Grows ts us sub_ref l g8 sub_ts)))))))))

  pub complete_field-Safe :
      (n d k : ℕ) (ls : List ℕ) (scope : Scope) (ref : ℕ) (path : ResponsePath)
      (fields : List Field)
      → d ≤ n
      → k + (d + d) < bound
      → IsAtMost k ls ref
      → AllFitting d fields
      → Safe bound ls
          (Anything bound)
          (complete_field qpctx type_name path_string key marshal fuel n scope ref path fields)
  unfolding complete_field split_subfields
  complete_field-Safe n d k ls scope ref path [] deep room low h = λ s p. (refl, λ t a e. cc)
  complete_field-Safe n zero k ls scope ref path (field ∷ fields) deep room low h =
      absurd (NodeFits-zero qpctx rank depth fuel field.field_node h.0)
  complete_field-Safe zero (suc d) k ls scope ref path (field ∷ fields) deep room low h =
      absurd (omega (arith, deep))
  complete_field-Safe (suc n) (suc d) k ls scope ref path (field ∷ fields) deep room (l, at, le) h =
      bind-Safe bound ls (Anything bound) (Anything bound) _ _
        (lift-Safe bound ls (λ x. Unit {0})
          (or_panic (qpctx.schema.types (type_name field.field_def.type)))
          (is_exhausted-or_panic (qpctx.schema.types (type_name field.field_def.type))) (λ x e. tt))
        (λ ms g return_type _.
          if-Safe bound ms (Anything bound) (is_composite_type return_type) _ _
            (complete_composite-Safe _ d l
              (λ ns at_path subfields sub_ref sub_at fit.
                split_fields-Safe qpctx type_name bound (l + 2) (FieldFits qpctx rank depth fuel d)
                  (λ f def x. x) (group_for_subfield qpctx fuel sub_ref)
                  (complete_field qpctx type_name path_string key marshal fuel n) at_path ns
                  (λ os g2 f.
                    group_for_subfield-Safe qpctx rank ranked fuel known bound sub_ref l
                      (omega (arith, room, le)) os f (at-Grows ns os sub_ref l g2 sub_at))
                  (λ os sub_scope r fs low fits.
                    complete_field-Safe n d (l + 2) os sub_scope r at_path fs (omega (arith, deep))
                      (omega (arith, room, le)) low fits)
                  key subfields fit)
              ms scope ref path field fields return_type (at-Grows ls ms ref l g at)
              (omega (arith, room, le)) h)
            (return-Safe bound ms (Anything bound) _ tt))
