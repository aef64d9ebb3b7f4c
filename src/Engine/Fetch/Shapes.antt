-- ===== src/Engine/Fetch/Shapes.antt =====
-- A fetch keeps the shape of the results: a list keeps its length, and its elements their shapes.
use fedeway.Prelude.{
  ℕ, zero, suc, String, Bool, Option, none, some, some_eq, bind-eq-some, is_some, List, [], ◌∷◌,
  assign, lookup, length, same, Bool-cases, inl, inr, concat, ◌≡◌, refl, ap, ◌∙◌, subst,
}
use fedeway.Outcome.{
  Outcome, done, failed, panicked, exhausted, ◌>>=◌, bind-eq-done, done_eq, or_panic,
}
use fedeway.Ast.{Schema}
use fedeway.Json.{
  Json, null, bool, num, str, arr, obj, Items, nil, cons, Members, get, size, as_object,
}
use fedeway.DeepMerge.{deep_merge, merge_members}
use fedeway.Plan.{FetchNode, ResponsePath}
use fedeway.Engine.Representation.{has_selections}
use fedeway.Engine.Fetch.{
  Response, Representations, after_answer, entities_of, is_empty_list, provided_variables,
  represent, merge_at, merge_received, merge_all, with_entities, list_of, members_of, array_of,
  merge_answer, fetch_root, ask_entities, fetch_entities, execute_fetch,
}
use fedeway.Engine.Flatten.Shape.{shape, AreAlike, AreAlike-refl, AreAlike-trans, Fits, Fits-refl}

shape-deep_merge : (t x : Json) {y : Json} → deep_merge t x ≡ some y → shape t ≡ shape y
unfolding deep_merge
shape-deep_merge t null h = ap shape (some_eq h)
shape-deep_merge t (obj source) h =
    let (ts, e, h1) = bind-eq-some (as_object t) _ h in
    let (merged, e1, h2) = bind-eq-some (merge_members ts source) _ h1 in
    object_shape t ts e ∙ ap shape (some_eq h2)
  where
    object_shape : (t : Json) (ts : Members) → as_object t ≡ some ts → shape t ≡ shape (obj ts)
    object_shape (obj ms) ts e = refl
    object_shape null ts e = cc
    object_shape (bool b) ts e = cc
    object_shape (num n) ts e = cc
    object_shape (str s) ts e = cc
    object_shape (arr xs) ts e = cc
shape-deep_merge t (bool b) h = cc
shape-deep_merge t (num n) h = cc
shape-deep_merge t (str s) h = cc
shape-deep_merge t (arr xs) h = cc

of_panic {ℓ} : {A : Type ℓ} (o : Option A) {a : A} → or_panic o ≡ done a → o ≡ some a
of_panic none h = cc
of_panic (some b) h = ap some (done_eq h)

merge_at-AreAlike :
    (i : ℕ) (x : Json) (xs : Items) {ys : Items} → merge_at i x xs ≡ some ys → AreAlike xs ys
unfolding merge_at
merge_at-AreAlike i x nil h = cc
merge_at-AreAlike zero x (cons y ys) h =
    let (z, e, h1) = bind-eq-some (deep_merge y x) _ h in
    subst (AreAlike (cons y ys)) (some_eq h1) (shape-deep_merge y x e, AreAlike-refl ys)
merge_at-AreAlike (suc i) x (cons y ys) h =
    let (zs, e, h1) = bind-eq-some (merge_at i x ys) _ h in
    subst (AreAlike (cons y ys)) (some_eq h1) (refl, merge_at-AreAlike i x ys e)

merge_received-AreAlike :
    (reps : Representations) (received entities after : Items)
    → merge_received reps received entities ≡ done after
    → AreAlike entities after
unfolding merge_received
merge_received-AreAlike [] received entities after h =
    subst (AreAlike entities) (done_eq h) (AreAlike-refl entities)
merge_received-AreAlike (r ∷ reps) nil entities after h =
    subst (AreAlike entities) (done_eq h) (AreAlike-refl entities)
merge_received-AreAlike (r ∷ reps) (cons x xs) entities after h =
    let (next, e, h1) = bind-eq-done (or_panic (merge_at r.1 x entities)) _ h in
    AreAlike-trans entities next after (merge_at-AreAlike r.1 x entities (of_panic _ e))
      (merge_received-AreAlike reps xs next after h1)

merge_all-AreAlike :
    (received : Members) (xs after : Items) → merge_all received xs ≡ done after → AreAlike xs after
unfolding merge_all
merge_all-AreAlike received nil after h = subst (AreAlike nil) (done_eq h) tt
merge_all-AreAlike received (cons x xs) after h =
    let (y, e, h1) = bind-eq-done (or_panic (deep_merge x (obj received))) _ h in
    let (ys, e1, h2) = bind-eq-done (merge_all received xs) _ h1 in
    subst (AreAlike (cons x xs)) (done_eq h2)
      (shape-deep_merge x (obj received) (of_panic _ e), merge_all-AreAlike received xs ys e1)

merge_answer-AreAlike :
    (reps : Representations) (entities : Items) (answered : Option Members) (after : Items)
    → merge_answer reps entities answered ≡ done after
    → AreAlike entities after
merge_answer-AreAlike reps entities none after h =
    subst (AreAlike entities) (done_eq h) (AreAlike-refl entities)
merge_answer-AreAlike reps entities (some ms) after h =
    let (received, e, h1) = bind-eq-done (array_of (get "_entities" ms)) _ h in
    elim (Bool-cases (same (size received) (length reps))) [
      | inl equal ↦
          let merged : merge_received reps received entities ≡ done after = rw equal at h1 in
          merge_received-AreAlike reps received entities after merged
      | inr differs ↦
          let nothing : failed "expected \"data._entities\" to contain as many elements"
              ≡ done after =
            rw differs at h1 in
          cc
    ]

of_answer :
    {A : Type 0} (o : Outcome Response) (f : Option Members → Outcome A) (a : A)
    → (after_answer o f).outcome ≡ done a
    → (received : Option Members) × (f received ≡ done a)
of_answer (done r) f a h = let (received, e, h1) = bind-eq-done r.decoded f h in (received, h1)
of_answer (failed m) f a h = cc
of_answer panicked f a h = cc
of_answer exhausted f a h = cc

-- What becomes of the entities in the place where they stood.
with_entities-Fits :
    (results : Json) (after : Items)
    → AreAlike (entities_of results) after
    → Fits results (with_entities results after)
with_entities-Fits (arr xs) after h = (after, refl, h)
with_entities-Fits null nil h = elim h [ ]
with_entities-Fits null (cons y ys) h = h.0
with_entities-Fits (bool b) nil h = elim h [ ]
with_entities-Fits (bool b) (cons y ys) h = h.0
with_entities-Fits (num n) nil h = elim h [ ]
with_entities-Fits (num n) (cons y ys) h = h.0
with_entities-Fits (str s) nil h = elim h [ ]
with_entities-Fits (str s) (cons y ys) h = h.0
with_entities-Fits (obj ms) nil h = elim h [ ]
with_entities-Fits (obj ms) (cons y ys) h = h.0

module _ (schema : Schema) (answer : String → String → List (String × Json) → Outcome Response)
    (node : FetchNode) (variables : List (String × Json)) (entities after : Items) where
  fetch_root-AreAlike :
      (fetch_root schema answer node variables entities).outcome ≡ done after
      → AreAlike entities after
  fetch_root-AreAlike h =
      let (received, e) =
        of_answer (answer node.service_name node.operation variables)
          (λ r. merge_all (members_of r) entities) after h in
      merge_all-AreAlike (members_of received) entities after e

  ask_entities-AreAlike :
      (reps : Representations)
      → (ask_entities schema answer node variables entities reps).outcome ≡ done after
      → AreAlike entities after
  ask_entities-AreAlike [] h = subst (AreAlike entities) (done_eq h) (AreAlike-refl entities)
  ask_entities-AreAlike (r ∷ reps) h =
      elim (Bool-cases (is_some (lookup "representations" variables))) [
        | inl clash ↦
            let nothing : failed "variables cannot contain key \"representations\"" ≡ done after =
              rw clash at h in
            cc
        | inr free ↦
            let asked =
              answer node.service_name node.operation
                (assign "representations" (arr (list_of (r ∷ reps))) variables) in
            let h' : (after_answer asked (merge_answer (r ∷ reps) entities)).outcome ≡ done after =
              rw free at h in
            let (received, e) = of_answer asked (merge_answer (r ∷ reps) entities) after h' in
            merge_answer-AreAlike (r ∷ reps) entities received after e
      ]

  fetch_entities-AreAlike :
      (made : Outcome Representations)
      → (fetch_entities schema answer node variables entities made).outcome ≡ done after
      → AreAlike entities after
  fetch_entities-AreAlike (done reps) h = ask_entities-AreAlike reps h
  fetch_entities-AreAlike (failed m) h = cc
  fetch_entities-AreAlike panicked h = cc
  fetch_entities-AreAlike exhausted h = cc

module _ (schema : Schema) (answer : String → String → List (String × Json) → Outcome Response)
    (has_service : String → Bool) (node : FetchNode) (path : ResponsePath)
    (variables : List (String × Json)) where
  -- The results after a fetch fit those before it.
  pub execute_fetch-Fits :
      (results after : Json)
      → (execute_fetch schema answer has_service node path variables results).outcome ≡ done after
      → Fits results after
  unfolding execute_fetch
  execute_fetch-Fits results after h =
      let entities = entities_of results in
      let used = provided_variables node.variable_usages variables in
      elim (Bool-cases (has_service node.service_name)) [
        | inr unknown ↦
            let nothing : failed
                  (concat ("couldn't find service with name \"" ∷ node.service_name ∷ "\"" ∷ []))
                ≡ done after =
              rw unknown at h in
            cc
        | inl known ↦ elim (Bool-cases (is_empty_list entities)) [
          | inl none_there ↦
              let kept : done results ≡ done after = rw (known, none_there) at h in
              subst (Fits results) (done_eq kept) (Fits-refl results)
          | inr some_there ↦ elim (Bool-cases (has_selections node.requires)) [
            | inl requires ↦
                let asked =
                  fetch_entities schema answer node used entities
                    (represent schema node.requires 0 entities) in
                let h' : (asked.outcome >>= λ items. done (with_entities results items))
                    ≡ done after =
                  rw (known, some_there, requires) at h in
                let (items, e, h1) = bind-eq-done asked.outcome _ h' in
                subst (Fits results) (done_eq h1) (
                  with_entities-Fits results items (
                    fetch_entities-AreAlike schema answer node used entities items
                      (represent schema node.requires 0 entities) e))
            | inr root ↦
                let asked = fetch_root schema answer node used entities in
                let h' : (asked.outcome >>= λ items. done (with_entities results items))
                    ≡ done after =
                  rw (known, some_there, root) at h in
                let (items, e, h1) = bind-eq-done asked.outcome _ h' in
                subst (Fits results) (done_eq h1) (
                  with_entities-Fits results items
                    (fetch_root-AreAlike schema answer node used entities items e))
          ]
        ]
      ]
