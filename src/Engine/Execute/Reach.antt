-- ===== src/Engine/Execute/Reach.antt =====
-- Which parts of the results a plan can change: those under the paths of its flatten nodes.
use fedeway.Prelude
use fedeway.Prelude.{
  String, Bool, true, false, ◌&&◌, &&-eq-true, Option, none, some, ◌==◌, if◌then◌else◌, Bool-cases,
  Option-cases, List, [], ◌∷◌, ◌++◌, inl, inr, eq_iff, ◌≡◌, refl, sym, ap, ◌∙◌, arith,
}
use fedeway.Outcome.{Outcome, done, panicked, bind-eq-done, done_eq}
use fedeway.Ast.{Schema}
use fedeway.Json.{Json, null, bool, num, str, arr, obj, get}
use fedeway.Json.Access.{get-put}
use fedeway.Plan.{ResponsePath, PlanNode, sequence, parallel, fetch, flatten, Nodes, no_nodes, node}
use fedeway.Engine.Fetch.{Response}
use fedeway.Engine.Flatten.{or_null, descend, flatten_at, ascend, restore_at, restore_under}
use fedeway.Engine.Execute.{Execution, execute_node, execute_nodes}

-- What stands under the keys, one after the other.
abbrev pub value_at : List String → Json → Option Json
value_at [] v = some v
value_at (k ∷ keys) (obj ms) = Prelude.◌>>=◌ (get k ms) (value_at keys)
value_at (k ∷ keys) _ = none

-- The path turns off before the keys end, or what is left of them is spared there.
abbrev pub turns_off : ResponsePath → List String → (List String → Bool) → Bool
turns_off [] keys spared = spared keys
turns_off (p ∷ path) [] spared = false
turns_off (p ∷ path) (k ∷ keys) spared =
    let further = turns_off path keys spared in if p == k then further else true

-- No fetch of the plan is made at the keys, above them or below them.
unfoldable mutual
  pub spares : PlanNode → List String → Bool
  spares (sequence ns) keys = all_spare ns keys
  spares (parallel ns) keys = all_spare ns keys
  spares (flatten path n) keys = turns_off path keys (spares n)
  spares (fetch f) keys = false

  pub all_spare : Nodes → List String → Bool
  all_spare no_nodes keys = true
  all_spare (node n ns) keys = spares n keys && all_spare ns keys

-- The value that is put back agrees with what was found wherever it is spared.
abbrev Agrees : (List String → Bool) → Json → Json → Type 0
Agrees spared found new =
    (keys : List String) → spared keys ≡ true → value_at keys new ≡ value_at keys found

module _ (spared : List String → Bool) where
  value_at-restore_at :
      (path : ResponsePath) (keys : List String) (results found new : Json)
      → turns_off path keys spared ≡ true
      → flatten_at path results ≡ done found
      → Agrees spared found new
      → value_at keys (restore_at path results new) ≡ value_at keys results
  unfolding flatten_at descend restore_at ascend
  value_at-restore_at [] keys results found new t h agrees =
      agrees keys t ∙ ap (value_at keys) (sym (done_eq h))
  value_at-restore_at (p ∷ path) [] results found new t h agrees = cc
  value_at-restore_at (p ∷ path) (k ∷ keys) null found new t h agrees = refl
  value_at-restore_at (p ∷ path) (k ∷ keys) (bool b) found new t h agrees = refl
  value_at-restore_at (p ∷ path) (k ∷ keys) (num n) found new t h agrees = refl
  value_at-restore_at (p ∷ path) (k ∷ keys) (str s) found new t h agrees = refl
  value_at-restore_at (p ∷ path) (k ∷ keys) (arr xs) found new t h agrees = refl
  value_at-restore_at (p ∷ path) (k ∷ keys) (obj ms) found new t h agrees =
      elim (Option-cases (get p ms)) [
        | inl e ↦ ap (λ o. value_at (k ∷ keys) (restore_under p (restore_at path) ms new o)) e
        | inr (v, e) ↦
            let below = restore_at path v new in
            ap (λ o. value_at (k ∷ keys) (restore_under p (restore_at path) ms new o)) e
            ∙ ap (λ o. Prelude.◌>>=◌ o (value_at keys)) (get-put p k below ms)
            ∙ elim (Bool-cases (p == k)) [
              | inr other ↦ rw other refl
              | inl same_key ↦ elim (Bool-cases (p == "@")) [
                | inl at_sign ↦ let nothing : panicked ≡ done found = rw at_sign at h in cc
                | inr name ↦
                    let t' : turns_off path keys spared ≡ true = rw same_key at t in
                    let h' : flatten_at path (or_null (get p ms)) ≡ done found = rw name at h in
                    let h'' : flatten_at path v ≡ done found =
                      ap (λ o. flatten_at path (or_null o)) (sym e) ∙ h' in
                    let under : get k ms ≡ some v =
                      ap (λ j. get j ms) (sym ((eq_iff p k).0 same_key)) ∙ e in
                    rw same_key (
                      value_at-restore_at path keys v found new t' h'' agrees
                      ∙ ap (λ o. Prelude.◌>>=◌ o (value_at keys)) (sym under))
              ]
            ]
      ]

module _ (schema : Schema) (answer : String → String → List (String × Json) → Outcome Response)
    (has_service : String → Bool) (variables : List (String × Json)) where
  mutual
    unfolding execute_node spares

    keeps_spared :
        (n : PlanNode) (path : ResponsePath) (e after : Execution)
        → execute_node schema answer has_service variables n path e ≡ done after
        → Agrees (spares n) e.results after.results
    keeps_spared (sequence ns) path e after h keys t = keep_spared ns path e after h keys t
    keeps_spared (parallel ns) path e after h keys t = keep_spared ns path e after h keys t
    keeps_spared (fetch f) path e after h keys t = cc
    keeps_spared (flatten sub n) path e after h keys t =
        let (found, there, h1) = bind-eq-done (flatten_at sub e.results) _ h in
        let start = record e { results = found } in
        let (inner, ran, h2) =
          bind-eq-done (execute_node schema answer has_service variables n (path ++ sub) start) _
            h1 in
        ap (λ (a : Execution). value_at keys a.results) (sym (done_eq h2))
        ∙ value_at-restore_at (spares n) sub keys e.results found inner.results t there
            (keeps_spared n (path ++ sub) start inner ran)

    keep_spared :
        (ns : Nodes) (path : ResponsePath) (e after : Execution)
        → execute_nodes schema answer has_service variables ns path e ≡ done after
        → Agrees (all_spare ns) e.results after.results
    keep_spared no_nodes path e after h keys t =
        ap (λ (a : Execution). value_at keys a.results) (sym (done_eq h))
    keep_spared (node n ns) path e after h keys t =
        let (next, first, rest) =
          bind-eq-done (execute_node schema answer has_service variables n path e) _ h in
        let (here, later) = &&-eq-true (spares n keys) (all_spare ns keys) t in
        keep_spared ns path next after rest keys later ∙ keeps_spared n path e next first keys here

  -- Whatever the services answer, `executeNode` leaves what stands in the results under some keys
  -- as it is if no fetch of the node is made at these keys, above them or below them.
  pub execute_node-spares :
      (n : PlanNode) (path : ResponsePath) (e after : Execution) (keys : List String)
      → spares n keys ≡ true
      → execute_node schema answer has_service variables n path e ≡ done after
      → value_at keys after.results ≡ value_at keys e.results
  execute_node-spares n path e after keys t h = keeps_spared n path e after h keys t
