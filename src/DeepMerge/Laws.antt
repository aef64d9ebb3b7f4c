-- ===== src/DeepMerge/Laws.antt =====
-- What a merge stores under each key, that it loses none, and that a second merge changes nothing.
use fedeway.Prelude.{
  bind-eq-some, String, false, Option, none, some, ◌>>=◌, ◌==◌, eq_iff, if◌then◌else◌, ◌≡◌, ap, ◌∙◌,
  arith, Bool-cases, inl, inr,
}
use fedeway.Json.{Json, Members, end, member, get, put, has_key}
use fedeway.Json.Access.{get-put, get_of_no_key}
use fedeway.DeepMerge.{is_skipped, merge_members, merge_value}

-- What the merge stores under a key: the old value where the source says nothing.
abbrev pub stored : Option Json → Option Json → Option Json
stored old none = old
stored old (some v) = if is_skipped v then old else merge_value old v

-- the body of the loop, for one key
abbrev pub entry : Members → String → Json → Option Members
entry ts k v =
    if is_skipped v then some ts else (merge_value (get k ts) v >>= λ w. some (put k w ts))

pub entry-stored :
    (ts next : Members) (k j : String) (v : Json)
    → entry ts k v ≡ some next
    → get j next ≡ (if k == j then stored (get k ts) (some v) else get j ts)
entry-stored ts next k j v h = elim (Bool-cases (is_skipped v)) [
  | inl s ↦ ground (arith, eq_iff k j)
  | inr s ↦
      let (w, merged, put_eq) = bind-eq-some (merge_value (get k ts) v) _ (rw s at h) in
      ground (arith, get-put k j w ts)
]

-- No key of the object occurs twice.
abbrev pub HasDistinctKeys : Members → Type 0
HasDistinctKeys end = Unit {0}
HasDistinctKeys (member k v ms) = (has_key k ms ≡ false) × HasDistinctKeys ms

-- Under each key the merge stores the target's value where the source has none, a null or the text
-- "__proto__", and what `merge_value` makes of the two values elsewhere, whatever the order of the
-- source's keys.
pub get-merge_members :
    (source ts merged : Members) (j : String)
    → HasDistinctKeys source
    → merge_members ts source ≡ some merged
    → get j merged ≡ stored (get j ts) (get j source)
unfolding merge_members
get-merge_members end ts merged j d h = ground arith
get-merge_members (member k v ms) ts merged j d h =
    let (next, step, later) = bind-eq-some (entry ts k v) (λ next. merge_members next ms) h in
    let ih = get-merge_members ms next merged j d.1 later in
    let here = entry-stored ts next k j v step in
    elim (Bool-cases (k == j)) [
      | inl e ↦
          let same_key = (eq_iff k j).0 e in
          let gone : get j ms ≡ none = rw (← same_key) (get_of_no_key k ms d.0) in
          let unchanged : get j merged ≡ get j next = rw gone at ih in
          let stored_here : get j next ≡ stored (get k ts) (some v) = rw e at here in
          rw e (unchanged ∙ stored_here ∙ ap (λ i. stored (get i ts) (some v)) same_key)
      | inr e ↦
          let unchanged : get j next ≡ get j ts = rw e at here in
          rw e (ih ∙ ap (λ o. stored o (get j ms)) unchanged)
    ]
