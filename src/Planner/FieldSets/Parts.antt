-- ===== src/Planner/FieldSets/Parts.antt =====
-- The fields in the groups of `groupByResponseName` and `groupByScope`.
use fedeway.Prelude.{
  String, Option, List, [], ◌∷◌, All, All-append, All-filter_of_All, ◌==◌, ◌≡◌, subst,
}
use fedeway.Outcome.{done, or_panic, bind-eq-done, done_eq}
use fedeway.Planner.Scope.{Scope}
use fedeway.Planner.Grouping.{Field, group_by, get_response_name, group_by_response_name}
use fedeway.Planner.Grouping.Laws.{columns, first_keys, with_key, group_by_lem}
use fedeway.Planner.FieldSets.{with_keys, without_keys, all_without_keys, group_by_scope}

-- Groups of fields that all have a property.
module _ {A : Type 0} (P : A → Type 0) (key : A → String) where
  columns-All :
      (fields : List A) (names : List String)
      → All P fields
      → All (All P) (columns key fields names)
  columns-All fields [] h = tt
  columns-All fields (n ∷ names) h =
      All-append (All P) (columns key fields names) (with_key key n fields ∷ [])
        (columns-All fields names h) (All-filter_of_All P (λ x. key x == n) fields h, tt)

  group_by-All : (fields : List A) → All P fields → All (All P) (group_by key fields)
  group_by-All fields h = rw (group_by_lem key) (columns-All fields (first_keys key [] fields) h)

module _ (P : Field → Type 0) where
  pub group_by_response_name-All :
      (fields : List Field) → All P fields → All (All P) (group_by_response_name fields)
  unfolding group_by_response_name
  group_by_response_name-All fields h =
      group_by-All P (λ f. get_response_name f.field_node) fields h

  with_keys-All :
      (key : Scope → Option String) (fields : List Field) (named : List (String × Field))
      → with_keys key fields ≡ done named
      → All P fields
      → All (λ e. P e.1) named
  with_keys-All key [] named e h = subst (All (λ (x : String × Field). P x.1)) (done_eq e) tt
  with_keys-All key (f ∷ fields) named e h =
      let (name, first, e1) = bind-eq-done (or_panic (key f.scope)) _ e in
      let (rest, second, e2) = bind-eq-done (with_keys key fields) _ e1 in
      subst (All (λ (x : String × Field). P x.1)) (done_eq e2)
        (h.0, with_keys-All key fields rest second h.1)

  without_keys-All :
      (fields : List (String × Field)) → All (λ e. P e.1) fields → All P (without_keys fields)
  without_keys-All [] h = tt
  without_keys-All (f ∷ fields) h = (h.0, without_keys-All fields h.1)

  all_without_keys-All :
      (groups : List (List (String × Field)))
      → All (All (λ e. P e.1)) groups
      → All (All P) (all_without_keys groups)
  all_without_keys-All [] h = tt
  all_without_keys-All (g ∷ groups) h = (without_keys-All g h.0, all_without_keys-All groups h.1)

  pub group_by_scope-All :
      (key : Scope → Option String) (fields : List Field) (groups : List (List Field))
      → group_by_scope key fields ≡ done groups
      → All P fields
      → All (All P) groups
  unfolding group_by_scope
  group_by_scope-All key fields groups e h =
      let (named, first, second) = bind-eq-done (with_keys key fields) _ e in
      subst (All (All P)) (done_eq second) (
        all_without_keys-All (group_by (λ f. f.0) named)
          (group_by-All (λ x. P x.1) (λ f. f.0) named (with_keys-All key fields named first h)))
