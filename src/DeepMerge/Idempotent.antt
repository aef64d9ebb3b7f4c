-- ===== src/DeepMerge/Idempotent.antt =====
-- Merging the same source a second time changes nothing.
use fedeway.Prelude.{
  some_eq, bind-eq-some, suc, Option, none, some, same, same_refl, eq_of_same, ◌≡◌, ◌≢◌, refl, sym,
  ap, ◌∙◌, arith, Bool-cases, inl, inr,
}
use fedeway.Json.{
  Json, null, bool, num, str, arr, obj, Items, nil, cons, Members, end, member, size, as_object,
  IsProper, AreProper, IsProperObject,
}
use fedeway.DeepMerge.{deep_merge, merge_members, merge_value, merge_items, merge_item}
use fedeway.DeepMerge.Absorbs.{
  AllMembers, AllMembers-map, distinct_of_proper, Left, Stays, merged_each, all_own, absorbed,
  merge_value-none,
}

-- What the two cases with parts need of the parts, for an object and for a slice.
abbrev EachStays : Members → Type 0
EachStays ms = (rs : Members) → AllMembers (Left rs) ms → AllMembers (Stays rs) ms

abbrev ItemsStay : Items → Type 0
ItemsStay xs =
    (ts ys : Items)
    → size ts ≡ size xs
    → merge_items ts xs ≡ some ys
    → (merge_items ys xs ≡ some ys) × (size ys ≡ size xs)

module _ (ms : Members) (p : IsProperObject ms) (each : EachStays ms) where
  object_absorbs_merged :
      (ts rs : Members) → merge_members ts ms ≡ some rs → merge_members rs ms ≡ some rs
  object_absorbs_merged ts rs h =
      absorbed ms rs (each rs (merged_each ms ts rs (distinct_of_proper ms p) h))

  object_absorbs_self : merge_members ms ms ≡ some ms
  object_absorbs_self = absorbed ms ms (
      each ms (
        AllMembers-map ms (λ k v own s. (v, own, none, merge_value-none v))
          (all_own ms (distinct_of_proper ms p))))

  self_object : merge_value (some (obj ms)) (obj ms) ≡ some (obj ms)
  unfolding merge_value
  self_object = rw object_absorbs_self

  stable_object :
      (old : Option Json) (w : Json)
      → merge_value old (obj ms) ≡ some w
      → merge_value (some w) (obj ms) ≡ some w
  unfolding merge_value
  stable_object none w h = rw (← some_eq h) self_object
  stable_object (some (obj ts)) w h =
      let (rs, merged, e) = bind-eq-some (merge_members ts ms) (λ m. some (obj m)) h in
      rw (← some_eq e, object_absorbs_merged ts rs merged)
  stable_object (some null) w h = cc
  stable_object (some (bool b)) w h = cc
  stable_object (some (num n)) w h = cc
  stable_object (some (str s)) w h = cc
  stable_object (some (arr xs)) w h = cc

  stable_object_item :
      (t y : Json) → merge_item t (obj ms) ≡ some y → merge_item y (obj ms) ≡ some y
  unfolding merge_item
  stable_object_item (obj ts) y h =
      let (rs, merged, e) = bind-eq-some (merge_members ts ms) (λ m. some (obj m)) h in
      rw (← some_eq e, object_absorbs_merged ts rs merged)
  stable_object_item _ y h = rw (← some_eq h, object_absorbs_self)

  self_object_item : merge_item (obj ms) (obj ms) ≡ some (obj ms)
  unfolding merge_item
  self_object_item = rw object_absorbs_self

module _ (xs : Items) (stay : ItemsStay xs) (self : merge_items xs xs ≡ some xs) where
  self_array : merge_value (some (arr xs)) (arr xs) ≡ some (arr xs)
  unfolding merge_value
  self_array = rw (same_refl (size xs), self)

  stable_array :
      (old : Option Json) (w : Json)
      → merge_value old (arr xs) ≡ some w
      → merge_value (some w) (arr xs) ≡ some w
  unfolding merge_value
  stable_array (some (arr ts)) w h = elim (Bool-cases (same (size ts) (size xs))) [
    | inl e ↦
        let (ys, merged, eq) = bind-eq-some (merge_items ts xs) (λ m. some (arr m)) (rw e at h) in
        let (again, len) = stay ts ys (eq_of_same _ _ e) merged in
        rw (← some_eq eq, len, same_refl (size xs), again)
    | inr e ↦ rw (← some_eq (rw e at h)) self_array
  ]
  stable_array none w h = rw (← some_eq h) self_array
  stable_array (some _) w h = rw (← some_eq h) self_array

merge_items-nil : (ts : Items) → merge_items ts nil ≡ some ts
unfolding merge_items
merge_items-nil ts = refl

stable_items_cons :
    (x t : Json) (xs ts ys : Items)
    → ((y : Json) → merge_item t x ≡ some y → merge_item y x ≡ some y)
    → ItemsStay xs
    → size ts ≡ size xs
    → merge_items (cons t ts) (cons x xs) ≡ some ys
    → (merge_items ys (cons x xs) ≡ some ys) × (size ys ≡ suc (size xs))
unfolding merge_items
stable_items_cons x t xs ts ys item items e h =
    let (y, one, h') = bind-eq-some (merge_item t x) _ h in
    let (rest, many, eq) = bind-eq-some (merge_items ts xs) (λ zs. some (cons y zs)) h' in
    let (again, len) = items ts rest e many in
    rw (← some_eq eq) (rw (item y one, again), ap suc len)

self_items_cons :
    (x : Json) (xs : Items)
    → merge_item x x ≡ some x
    → merge_items xs xs ≡ some xs
    → merge_items (cons x xs) (cons x xs) ≡ some (cons x xs)
unfolding merge_items
self_items_cons x xs h k = rw (h, k)

plain_value :
    (v : Json) (old : Option Json) (w : Json)
    → as_object v ≡ none
    → ((xs : Items) → v ≢ arr xs)
    → merge_value old v ≡ some w
    → merge_value (some w) v ≡ some w
unfolding merge_value
plain_value (arr xs) old w o a h = absurd (a xs refl)
plain_value (obj ms) old w o a h = cc
plain_value _ old w o a h = h

merge_item-plain : (x t : Json) → as_object x ≡ none → merge_item t x ≡ some x
unfolding merge_item
merge_item-plain (obj ms) t h = cc
merge_item-plain _ t h = refl

mutual
  unfolding IsProper

  stable_value :
      (v : Json) (old : Option Json) (w : Json)
      → IsProper v
      → merge_value old v ≡ some w
      → merge_value (some w) v ≡ some w
  stable_value (arr xs) old w p h = stable_array xs (stable_items xs p) (self_items xs p) old w h
  stable_value (obj ms) old w p h = stable_object ms p (stable_each ms p) old w h
  stable_value v old w p h = plain_value v old w refl (λ xs. cc) h

  stable_each : (ms : Members) → IsProperObject ms → EachStays ms
  stable_each end p rs h = tt
  stable_each (member k v ms) p rs h = (
    λ s. let (w, got, old, merged) = h.0 s in (w, got, stable_value v old w p.1 merged),
    stable_each ms p.2 rs h.1,
  )

  stable_item : (x t y : Json) → IsProper x → merge_item t x ≡ some y → merge_item y x ≡ some y
  stable_item (obj ms) t y p h = stable_object_item ms p (stable_each ms p) t y h
  stable_item x t y p h = cc (merge_item-plain x t refl, merge_item-plain x y refl)

  stable_items : (xs : Items) → AreProper xs → ItemsStay xs
  stable_items nil p ts ys e h =
      let same_items = some_eq (sym (merge_items-nil ts) ∙ h) in
      (merge_items-nil ys, rw (← same_items) e)
  stable_items (cons x xs) p nil ys e h = absurd (omega arith)
  stable_items (cons x xs) p (cons t ts) ys e h =
      stable_items_cons x t xs ts ys (λ y one. stable_item x t y p.0 one) (stable_items xs p.1)
        (omega arith) h

  self_items : (xs : Items) → AreProper xs → merge_items xs xs ≡ some xs
  self_items nil p = merge_items-nil nil
  self_items (cons x xs) p = self_items_cons x xs (self_item x p.0) (self_items xs p.1)

  self_item : (x : Json) → IsProper x → merge_item x x ≡ some x
  self_item (obj ms) p = self_object_item ms p (stable_each ms p)
  self_item x p = merge_item-plain x x refl

object_of_merge :
    (target : Json) (ms : Members) (merged : Json)
    → deep_merge target (obj ms) ≡ some merged
    → (ts : Members) × (rs : Members) × (merge_members ts ms ≡ some rs) × (obj rs ≡ merged)
unfolding deep_merge
object_of_merge (obj ts) ms merged h =
    let (rs, e, eq) = bind-eq-some (merge_members ts ms) (λ m. some (obj m)) h in
    (ts, rs, e, some_eq eq)
object_of_merge null ms merged h = cc
object_of_merge (bool b) ms merged h = cc
object_of_merge (num n) ms merged h = cc
object_of_merge (str s) ms merged h = cc
object_of_merge (arr xs) ms merged h = cc

deep_merge-object :
    (rs ms qs : Members)
    → merge_members rs ms ≡ some qs
    → deep_merge (obj rs) (obj ms) ≡ some (obj qs)
unfolding deep_merge
deep_merge-object rs ms qs h = rw h

deep_merge-null :
    (target merged : Json)
    → deep_merge target null ≡ some merged
    → deep_merge merged null ≡ some merged
unfolding deep_merge
deep_merge-null target merged h = refl

deep_merge_panics_on :
    (v : Json)
    → as_object v ≡ none
    → v ≢ null
    → (target merged : Json) → deep_merge target v ≡ some merged
    → ⊥
unfolding deep_merge
deep_merge_panics_on null o n target merged h = n refl
deep_merge_panics_on (obj ms) o n target merged h = cc
deep_merge_panics_on (bool b) o n target merged h = cc
deep_merge_panics_on (num k) o n target merged h = cc
deep_merge_panics_on (str s) o n target merged h = cc
deep_merge_panics_on (arr xs) o n target merged h = cc

-- Merging a source of which no object has a key twice into a result that it was merged into
-- before, on whatever target, changes nothing and does not panic.
pub deep_merge_idempotent :
    (source target merged : Json)
    → IsProper source
    → deep_merge target source ≡ some merged
    → deep_merge merged source ≡ some merged
deep_merge_idempotent null target merged p h = deep_merge-null target merged h
deep_merge_idempotent (obj ms) target merged p h =
    let proper : IsProperObject ms = (unfold IsProper in p) in
    let (ts, rs, e, eq) = object_of_merge target ms merged h in
    rw (← eq)
      (deep_merge-object rs ms rs (object_absorbs_merged ms proper (stable_each ms proper) ts rs e))
deep_merge_idempotent v target merged p h =
    absurd (deep_merge_panics_on v refl (λ e. cc) target merged h)
