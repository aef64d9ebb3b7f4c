-- ===== src/Engine/Execute/Shapes.antt =====
-- `executeNode` and the shape of the results; what a flatten node leaves at its path.
use fedeway.Prelude.{
  String, Bool, Option, none, some, List, [], ◌∷◌, ◌++◌, ◌==◌, Bool-cases, inl, inr, ◌≡◌, refl, sym,
  ap, ◌∙◌, subst,
}
use fedeway.Outcome.{Outcome, done, failed, panicked, exhausted, ◌>>=◌, bind-eq-done, done_eq}
use fedeway.Ast.{Schema}
use fedeway.Json.{Json, null, bool, num, str, arr, obj, Items, nil, cons, Members, get}
use fedeway.Plan.{ResponsePath, PlanNode, sequence, parallel, fetch, flatten, Nodes, no_nodes, node}
use fedeway.Engine.Fetch.{GqlError, Response, execute_fetch}
use fedeway.Engine.Fetch.Shapes.{execute_fetch-Fits}
use fedeway.Engine.Flatten.{
  flatten_each, descend, flatten_at, take_back, spread, restore_one, restore_each, restore_under,
  ascend, restore_at,
}
use fedeway.Engine.Flatten.Shape.{AreAlike, Fits, Fits-refl, Fits-trans, shape_of_Fits}
use fedeway.Engine.Flatten.Back.{spread-Splits, flatten_at-restore_at}
use fedeway.Engine.Execute.{Execution, after_fetch, execute_node, execute_nodes}

-- A value in which something that fits is put back fits it.
abbrev Keeps : (Json → Outcome Json) → (Json → Json → Json) → Type 0
Keeps found deeper = (v w new : Json) → found v ≡ done w → Fits w new → Fits v (deeper v new)

module _ (found : Json → Outcome Json) (deeper : Json → Json → Json) (ih : Keeps found deeper) where
  restore_each-AreAlike :
      (xs vs ys : Items)
      → flatten_each found xs ≡ done vs
      → AreAlike vs ys
      → AreAlike xs (restore_each found deeper xs ys)
  unfolding restore_each flatten_each
  restore_each-AreAlike nil vs ys h a = tt
  restore_each-AreAlike (cons x xs) vs ys h a =
      let (v, here, h1) = bind-eq-done (found x) _ h in
      let (rest, others, h2) = bind-eq-done (flatten_each found xs) _ h1 in
      let a' : AreAlike (spread v rest) ys = subst (λ z. AreAlike z ys) (sym (done_eq h2)) a in
      let (fits, alike, whole) = spread-Splits v rest ys a' in
      let (mine, later) = take_back v ys in
      subst (AreAlike (cons x xs))
        (ap (λ o. restore_one deeper x o ys (restore_each found deeper xs)) (sym here))
        (
          shape_of_Fits x (deeper x (take_back v ys).0) (ih x v (take_back v ys).0 here fits),
          restore_each-AreAlike xs rest (take_back v ys).1 others alike,
        )

  restore_under_object :
      (current : String) (ms : Members) (new : Json) (o : Option Json)
      → Fits (obj ms) (restore_under current deeper ms new o)
  restore_under_object current ms new none = refl
  restore_under_object current ms new (some v) = refl

  ascend-Keeps : (current : String) → Keeps (descend current found) (ascend current found deeper)
  unfolding descend ascend
  ascend-Keeps current null w new h fits = refl
  ascend-Keeps current (obj ms) w new h fits = restore_under_object current ms new (get current ms)
  ascend-Keeps current (arr xs) w new h fits = elim (Bool-cases (current == "@")) [
    | inl e ↦
        let h' : (flatten_each found xs >>= λ ys. done (arr ys)) ≡ done w = rw e at h in
        let (vs, each, h1) = bind-eq-done (flatten_each found xs) _ h' in
        let (ys, is_list, alike) : Fits (arr vs) new =
          subst (λ z. Fits z new) (sym (done_eq h1)) fits in
        rw (e, is_list)
          (restore_each found deeper xs ys, refl, restore_each-AreAlike xs vs ys each alike)
    | inr e ↦ let nothing : panicked ≡ done w = rw e at h in cc
  ]
  ascend-Keeps current (bool b) w new h fits = refl
  ascend-Keeps current (num n) w new h fits = refl
  ascend-Keeps current (str s) w new h fits = refl

restore_at-Keeps : (path : ResponsePath) → Keeps (flatten_at path) (restore_at path)
unfolding flatten_at restore_at
restore_at-Keeps [] = λ v w new h fits. subst (λ z. Fits z new) (sym (done_eq h)) fits
restore_at-Keeps (current ∷ rest) =
    ascend-Keeps (flatten_at rest) (restore_at rest) (restore_at-Keeps rest) current

after_fetch-Fits :
    (e after : Execution) (errors : List GqlError) (outcome : Outcome Json)
    → ((results : Json) → outcome ≡ done results → Fits e.results results)
    → after_fetch e errors outcome ≡ done after
    → Fits e.results after.results
after_fetch-Fits e after errors (done results) fits h =
    subst (λ (a : Execution). Fits e.results a.results) (done_eq h) (fits results refl)
after_fetch-Fits e after errors (failed m) fits h =
    subst (λ (a : Execution). Fits e.results a.results) (done_eq h) (Fits-refl e.results)
after_fetch-Fits e after errors panicked fits h = cc
after_fetch-Fits e after errors exhausted fits h = cc

module _ (schema : Schema) (answer : String → String → List (String × Json) → Outcome Response)
    (has_service : String → Bool) (variables : List (String × Json)) where
  mutual
    unfolding execute_node

    execute_node-Fits :
        (n : PlanNode) (path : ResponsePath) (e after : Execution)
        → execute_node schema answer has_service variables n path e ≡ done after
        → Fits e.results after.results
    execute_node-Fits (sequence ns) path e after h = execute_nodes-Fits ns path e after h
    execute_node-Fits (parallel ns) path e after h = execute_nodes-Fits ns path e after h
    execute_node-Fits (fetch f) path e after h =
        let fetched = execute_fetch schema answer has_service f path variables e.results in
        after_fetch-Fits e after fetched.errors fetched.outcome
          (execute_fetch-Fits schema answer has_service f path variables e.results) h
    execute_node-Fits (flatten sub n) path e after h =
        let (found, there, h1) = bind-eq-done (flatten_at sub e.results) _ h in
        let start = record e { results = found } in
        let (inner, ran, h2) =
          bind-eq-done (execute_node schema answer has_service variables n (path ++ sub) start) _
            h1 in
        subst (λ (a : Execution). Fits e.results a.results) (done_eq h2)
          (restore_at-Keeps sub e.results found inner.results there
            (execute_node-Fits n (path ++ sub) start inner ran))

    execute_nodes-Fits :
        (ns : Nodes) (path : ResponsePath) (e after : Execution)
        → execute_nodes schema answer has_service variables ns path e ≡ done after
        → Fits e.results after.results
    execute_nodes-Fits no_nodes path e after h =
        subst (λ (a : Execution). Fits e.results a.results) (done_eq h) (Fits-refl e.results)
    execute_nodes-Fits (node n ns) path e after h =
        let (next, first, rest) =
          bind-eq-done (execute_node schema answer has_service variables n path e) _ h in
        Fits-trans e.results next.results after.results (execute_node-Fits n path e next first)
          (execute_nodes-Fits ns path next after rest)

  -- A flatten node runs its child on what is found at its path, and what the child leaves there is
  -- what is found at the path in the results afterwards, whatever the services answer.
  pub flatten_node_lem :
      (sub path : ResponsePath) (n : PlanNode) (e after : Execution)
      → execute_node schema answer has_service variables (flatten sub n) path e ≡ done after
      → (found : Json) × (inner : Execution) × (flatten_at sub e.results ≡ done found)
        × (execute_node schema answer has_service variables n
              (path ++ sub)
              (record e { results = found })
            ≡ done inner)
        × (flatten_at sub after.results ≡ done inner.results)
        × (after.errors ≡ inner.errors)
  unfolding execute_node
  flatten_node_lem sub path n e after h =
      let (found, there, h1) = bind-eq-done (flatten_at sub e.results) _ h in
      let start = record e { results = found } in
      let (inner, ran, h2) =
        bind-eq-done (execute_node schema answer has_service variables n (path ++ sub) start) _
          h1 in
      (
        found,
        inner,
        there,
        ran,
        ap (λ (a : Execution). flatten_at sub a.results) (sym (done_eq h2))
            ∙ flatten_at-restore_at sub e.results found inner.results there
                (execute_node-Fits n (path ++ sub) start inner ran),
        ap (λ (a : Execution). a.errors) (sym (done_eq h2)),
      )
