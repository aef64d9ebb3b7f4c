-- ===== src/Engine/Fetch/Merging.antt =====
-- Which entity gets which part of an answer.
use fedeway.Prelude.{ℕ, zero, suc, ◌<◌, Bool, false, Option, none, some, [], ◌∷◌, any, same, ◌≡◌}
use fedeway.Json.{Json, Items, nil, cons}
use fedeway.DeepMerge.{deep_merge}
use fedeway.Engine.Fetch.{Representations}

-- `entities[i]`
abbrev pub item_at : ℕ → Items → Option Json
item_at i nil = none
item_at zero (cons x xs) = some x
item_at (suc i) (cons x xs) = item_at i xs

-- The entity at the index is merged with the received value, and is the result there.
abbrev pub MergedAt : Items → Items → ℕ → Json → Type 0
MergedAt before after i received =
    (old : Json) × (new : Json) × (item_at i before ≡ some old)
    × (deep_merge old received ≡ some new)
    × (item_at i after ≡ some new)

-- The index is one of a representation.
abbrev pub is_represented : Representations → ℕ → Bool
is_represented reps j = any (λ r. same r.1 j) reps

abbrev pub HasDistinctIndices : Representations → Type 0
HasDistinctIndices [] = Unit {0}
HasDistinctIndices (r ∷ reps) = (is_represented reps r.1 ≡ false) × HasDistinctIndices reps

-- Each representation's entity is merged with the value received in its place.
abbrev pub AllMerged : Items → Items → Representations → Items → Type 0
AllMerged before after [] received = Unit {0}
AllMerged before after (r ∷ reps) nil = Unit {0}
AllMerged before after (r ∷ reps) (cons v received) =
    MergedAt before after r.1 v × AllMerged before after reps received

-- The indices of the representations are at least `index` and distinct.
abbrev IsFrom : ℕ → Representations → Type 0
IsFrom index reps = HasDistinctIndices reps × ((j : ℕ) → j < index → is_represented reps j ≡ false)
