-- ===== src/Engine/Flatten.antt =====
-- `flattenResultsAtPath` of internal/engine/execute_query_plan.go. Go answers with references into
-- the results, which `DeepMerge` changes in place; here it answers with the values, and `restore_at`
-- puts what became of them back where they were found.
pub mod Back
pub mod Laws
pub mod Shape
use fedeway.Prelude.{
  String, Bool, true, false, Option, none, some, List, [], ◌∷◌, ◌==◌, if◌then◌else◌,
}
use fedeway.Outcome.{Outcome, done, failed, panicked, exhausted, ◌>>=◌}
use fedeway.Json.{Json, null, bool, num, str, arr, obj, Items, nil, cons, Members, get, put}
use fedeway.Plan.{ResponsePath}

infixr 65 ◌+++◌
-- `append(xs, ys...)`
abbrev pub ◌+++◌ : Items → Items → Items
nil +++ ys = ys
(cons x xs) +++ ys = cons x (xs +++ ys)

-- `newValues = append(newValues, …)`: the elements of a list, or the one value
abbrev pub spread : Json → Items → Items
spread (arr vs) rest = vs +++ rest
spread v rest = cons v rest

-- the value of a map under a key; nil if there is none
abbrev pub or_null : Option Json → Json
or_null none = null
or_null (some v) = v

-- the loop over the elements for "@"
unfoldable pub flatten_each : (Json → Outcome Json) → Items → Outcome Items
flatten_each deeper nil = done nil
flatten_each deeper (cons x xs) = do
  v ← deeper x
  rest ← flatten_each deeper xs
  done (spread v rest)

-- one part of the path; `deeper` follows the rest
unfoldable pub descend : String → (Json → Outcome Json) → Json → Outcome Json
unfolding flatten_each
descend current deeper null = done null
descend current deeper (arr xs) =
    let found = flatten_each deeper xs >>= λ ys. done (arr ys) in
    if current == "@" then found else panicked
descend current deeper (obj ms) =
    let found = deeper (or_null (get current ms)) in if current == "@" then panicked else found
descend current deeper _ = panicked

unfoldable pub flatten_at : ResponsePath → Json → Outcome Json
unfolding descend
flatten_at [] v = done v
flatten_at (current ∷ rest) v = descend current (flatten_at rest) v

abbrev pub take_like : Items → Items → Items
take_like nil ys = nil
take_like (cons v vs) nil = nil
take_like (cons v vs) (cons y ys) = cons y (take_like vs ys)

abbrev pub drop_like : Items → Items → Items
drop_like nil ys = ys
drop_like (cons v vs) nil = nil
drop_like (cons v vs) (cons y ys) = drop_like vs ys

-- What became of `v`, and what follows it.
abbrev pub take_back : Json → Items → Json × Items
take_back (arr vs) ys = (arr (take_like vs ys), drop_like vs ys)
take_back v nil = (v, nil)
take_back v (cons y ys) = (y, ys)

abbrev pub items_of : Json → Items
items_of (arr xs) = xs
items_of _ = nil

-- One element with what was found under it, and how the others go on.
abbrev pub restore_one :
    (Json → Json → Json) → Json → Outcome Json → Items → (Items → Items) → Items
restore_one deeper x (done v) ys others =
    let (back, rest) = take_back v ys in cons (deeper x back) (others rest)
restore_one deeper x _ ys others = cons x (others ys)

unfoldable pub restore_each : (Json → Outcome Json) → (Json → Json → Json) → Items → Items → Items
restore_each found deeper nil ys = nil
restore_each found deeper (cons x xs) ys =
    restore_one deeper x (found x) ys (restore_each found deeper xs)

abbrev pub restore_under : String → (Json → Json → Json) → Members → Json → Option Json → Json
restore_under current deeper ms new none = obj ms
restore_under current deeper ms new (some v) = obj (put current (deeper v new) ms)

unfoldable pub ascend : String → (Json → Outcome Json) → (Json → Json → Json) → Json → Json → Json
unfolding restore_each
ascend current found deeper (arr xs) new =
    arr (if current == "@" then restore_each found deeper xs (items_of new) else xs)
ascend current found deeper (obj ms) new = restore_under current deeper ms new (get current ms)
ascend current found deeper v new = v

unfoldable pub restore_at : ResponsePath → Json → Json → Json
unfolding ascend flatten_at
restore_at [] v new = new
restore_at (current ∷ rest) v new = ascend current (flatten_at rest) (restore_at rest) v new
