-- ===== src/DeepMerge/Panics.antt =====
-- When the merge panics, and that it loses no key.
use fedeway.Prelude.{
  bind-eq-some, String, none, some, ◌==◌, eq_iff, ◌≡◌, ◌≢◌, ap, ◌>>=◌, ◌∙◌, arith, Option-cases,
  Bool-cases, inl, inr,
}
use fedeway.Json.{Json, obj, Members, end, member, get, as_object}
use fedeway.Json.Access.{get-put}
use fedeway.DeepMerge.{is_skipped, deep_merge, merge_members, merge_value}
use fedeway.DeepMerge.Laws.{entry, entry-stored, HasDistinctKeys}

merge_value-not_object :
    (t : Json) (ms : Members) → as_object t ≡ none → merge_value (some t) (obj ms) ≡ none
unfolding merge_value
merge_value-not_object t ms h = rw h

entry-not_object :
    (ts : Members) (k : String) (t : Json) (ms : Members)
    → get k ts ≡ some t
    → as_object t ≡ none
    → entry ts k (obj ms) ≡ none
entry-not_object ts k t ms old other = rw (old, merge_value-not_object t ms other)

merge_members-none :
    (source ts : Members) (k : String) (t : Json) (ms : Members)
    → get k source ≡ some (obj ms)
    → get k ts ≡ some t
    → as_object t ≡ none
    → HasDistinctKeys source
    → merge_members ts source ≡ none
unfolding merge_members
merge_members-none end ts k t ms own old other d = cc
merge_members-none (member j v rest) ts k t ms own old other d = elim (Bool-cases (j == k)) [
  | inl e ↦
      let here : v ≡ obj ms = ground arith in
      let same_key = (eq_iff j k).0 e in
      let old_here : get j ts ≡ some t = rw same_key old in
      let panics : entry ts j v ≡ none = rw here (entry-not_object ts j t ms old_here other) in
      ap (λ o. o >>= λ next. merge_members next rest) panics
  | inr e ↦ elim (Option-cases (entry ts j v)) [
    | inl panics ↦ rw panics
    | inr (next, step) ↦ rw step (
        merge_members-none rest next k t ms (rw e at own)
          (entry-stored ts next j k v step ∙ rw e old) other d.1)
  ]
]

-- The merge panics if the source has an object under a key where the target has anything else:
-- a null, which GraphQL gives for a field that failed, as well as a number or a list.
pub deep_merge_panics :
    (source ts : Members) (k : String) (t : Json) (ms : Members)
    → HasDistinctKeys source
    → get k source ≡ some (obj ms)
    → get k ts ≡ some t
    → as_object t ≡ none
    → deep_merge (obj ts) (obj source) ≡ none
unfolding deep_merge
deep_merge_panics source ts k t ms d own old other =
    rw (merge_members-none source ts k t ms own old other d)

has_value-entry :
    (ts next : Members) (j k : String) (v : Json)
    → entry ts j v ≡ some next
    → get k ts ≢ none
    → get k next ≢ none
has_value-entry ts next j k v step h = elim (Bool-cases (is_skipped v)) [
  | inl s ↦ ground arith
  | inr s ↦
      let (w, merged, e) = bind-eq-some (merge_value (get j ts) v) _ (rw s at step) in
      ground (arith, get-put j k w ts)
]

-- A merge loses no key of the target.
pub merge_members-keeps :
    (source ts merged : Members) (k : String)
    → merge_members ts source ≡ some merged
    → get k ts ≢ none
    → get k merged ≢ none
unfolding merge_members
merge_members-keeps end ts merged k h old = ground arith
merge_members-keeps (member j v rest) ts merged k h old =
    let (next, step, later) = bind-eq-some (entry ts j v) (λ next. merge_members next rest) h in
    merge_members-keeps rest next merged k later (has_value-entry ts next j k v step old)
