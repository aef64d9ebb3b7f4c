-- ===== src/DeepMerge/Absorbs.antt =====
-- When the members of a source leave a target as it is in `DeepMerge`.
use fedeway.Prelude.{
  bind-eq-some, String, false, Option, none, some, ◌==◌, eq_iff, eq_refl, ◌≡◌, refl, ◌∙◌, arith,
  Bool-cases, inl, inr,
}
use fedeway.Json.{Json, arr, obj, Members, end, member, get, put, has_key, IsProper, IsProperObject}
use fedeway.Json.Access.{get-put, put-get, get_of_no_key}
use fedeway.DeepMerge.{is_skipped, merge_members, merge_value}
use fedeway.DeepMerge.Laws.{entry, HasDistinctKeys, get-merge_members}

abbrev pub AllMembers : (String → Json → Type 0) → Members → Type 0
AllMembers P end = Unit
AllMembers P (member k v ms) = P k v × AllMembers P ms

pub AllMembers-map :
    {P Q : String → Json → Type 0} (ms : Members)
    → ((k : String) (v : Json) → P k v → Q k v)
    → AllMembers P ms
    → AllMembers Q ms
AllMembers-map end f h = tt
AllMembers-map (member k v ms) f h = (f k v h.0, AllMembers-map ms f h.1)

other_keys :
    (k : String) (ms : Members) → has_key k ms ≡ false → AllMembers (λ j v. (k == j) ≡ false) ms
other_keys k end h = tt
other_keys k (member j v ms) h =
    (ground (arith, eq_iff k j, eq_iff j k), other_keys k ms (ground arith))

pub distinct_of_proper : (ms : Members) → IsProperObject ms → HasDistinctKeys ms
unfolding IsProper
distinct_of_proper end h = tt
distinct_of_proper (member k v ms) h = (h.0, distinct_of_proper ms h.2)

-- The merge of `v` with some old value left `w` under `k`.
abbrev pub Left : Members → String → Json → Type 0
Left rs k v =
    is_skipped v ≡ false
    → (w : Json) × (get k rs ≡ some w) × (old : Option Json) × (merge_value old v ≡ some w)

-- Merging `v` once more leaves what is under `k`.
abbrev pub Stays : Members → String → Json → Type 0
Stays rs k v =
    is_skipped v ≡ false → (w : Json) × (get k rs ≡ some w) × (merge_value (some w) v ≡ some w)

pub merged_each :
    (ms ts rs : Members)
    → HasDistinctKeys ms
    → merge_members ts ms ≡ some rs
    → AllMembers (Left rs) ms
unfolding merge_members
merged_each end ts rs d h = tt
merged_each (member k v ms) ts rs d h =
    let (next, step, later) = bind-eq-some (entry ts k v) (λ next. merge_members next ms) h in
    let gone = get_of_no_key k ms d.0 in
    let kept : get k rs ≡ get k next = rw gone at (get-merge_members ms next rs k d.1 later) in
    (
      λ s.
          let (w, merged, e) =
            bind-eq-some (merge_value (get k ts) v) (λ w. some (put k w ts)) (rw s at step) in
          let put_here : get k next ≡ some w = ground (arith, get-put k k w ts, eq_refl k) in
          (w, kept ∙ put_here, get k ts, merged),
      merged_each ms next rs d.1 later,
    )

pub all_own : (ms : Members) → HasDistinctKeys ms → AllMembers (λ k v. get k ms ≡ some v) ms
all_own end d = tt
all_own (member k v ms) d = (rw eq_refl, grow ms (other_keys k ms d.0) (all_own ms d.1))
  where
    grow :
        (rest : Members)
        → AllMembers (λ j w. (k == j) ≡ false) rest
        → AllMembers (λ j w. get j ms ≡ some w) rest
        → AllMembers (λ j w. get j (member k v ms) ≡ some w) rest
    grow end a b = tt
    grow (member j w rest) a b = (rw a.0 b.0, grow rest a.1 b.1)

pub absorbed : (ms rs : Members) → AllMembers (Stays rs) ms → merge_members rs ms ≡ some rs
unfolding merge_members
absorbed end rs h = refl
absorbed (member k v ms) rs h = elim (Bool-cases (is_skipped v)) [
  | inl s ↦ rw s (absorbed ms rs h.1)
  | inr s ↦
      let (w, got, stays) = h.0 s in rw (s, got, stays, put-get k w rs got) (absorbed ms rs h.1)
]

pub merge_value-none : (v : Json) → merge_value none v ≡ some v
unfolding merge_value
merge_value-none (arr xs) = refl
merge_value-none (obj ms) = refl
merge_value-none _ = refl
