-- ===== src/Engine/Flatten/Laws.antt =====
-- What `flattenResultsAtPath` finds at a path and what is put back there: the two are inverse.
use fedeway.Prelude.{◌≡◌}
use fedeway.Outcome.{Outcome, done}
use fedeway.Json.{Json}

-- What is found, put back, changes nothing.
abbrev Restores : (Json → Outcome Json) → (Json → Json → Json) → Type 0
Restores found deeper = (v w : Json) → found v ≡ done w → deeper v w ≡ v
