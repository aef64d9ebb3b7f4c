-- ===== src/DeepMerge.antt =====
-- `DeepMerge` of internal/utils/utils.go, which merges what a service answered into the results.
-- `none` is a panic.
pub mod Laws
pub mod Absorbs
pub mod Idempotent
pub mod Panics
use fedeway.Prelude.{
  ℕ, String, Bool, true, false, Option, none, some, ◌>>=◌, same, ◌==◌, if◌then◌else◌,
}
use fedeway.Json.{
  Json, null, bool, num, str, arr, obj, Items, nil, cons, Members, end, member, size, get, put,
  as_object,
}

-- The values of the source that the loop passes over.
abbrev pub is_skipped : Json → Bool
is_skipped null = true
is_skipped (str s) = s == "__proto__"
is_skipped _ = false

unfoldable mutual
  pub deep_merge : Json → Json → Option Json
  deep_merge target null = some target
  deep_merge target (obj source) =
      as_object target >>= λ ts. merge_members ts source >>= λ merged. some (obj merged)
  deep_merge target _ = none

  -- the loop over the keys of the source
  pub merge_members : Members → Members → Option Members
  merge_members ts end = some ts
  merge_members ts (member k v source) =
      (if is_skipped v then some ts else (merge_value (get k ts) v >>= λ w. some (put k w ts)))
      >>= λ next. merge_members next source

  -- what the loop stores under a key that the target has, or has not
  pub merge_value : Option Json → Json → Option Json
  merge_value old (obj source) = elim old [
    | none ↦ some (obj source)
    | some t ↦ as_object t >>= λ ts. merge_members ts source >>= λ merged. some (obj merged)
  ]
  merge_value old (arr source) = elim old [
    | none ↦ some (arr source)
    | some t ↦ elim t [
      | arr ts ↦
          if same (size ts) (size source)
          then (merge_items ts source >>= λ merged. some (arr merged))
          else some (arr source)
      | _ ↦ some (arr source)
    ]
  ]
  merge_value old v = some v

  -- the loop over two slices of one length
  pub merge_items : Items → Items → Option Items
  merge_items ts nil = some ts
  merge_items ts (cons x xs) = elim ts [
    | nil ↦ some nil
    | cons t rest ↦ merge_item t x >>= λ y. merge_items rest xs >>= λ ys. some (cons y ys)
  ]

  pub merge_item : Json → Json → Option Json
  merge_item t (obj source) = elim t [
    | obj ts ↦ merge_members ts source >>= λ merged. some (obj merged)
    | _ ↦ some (obj source)
  ]
  merge_item t x = some x
