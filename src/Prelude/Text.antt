-- ===== src/Prelude/Text.antt =====
-- Dictionaries with text keys, as Go's maps are used.
use Prim.Native.String
use Prim.Native.String.{String}
use Prim.Native.Nat.{ℕ, zero, suc, ◌%◌, ◌/◌}
use mathlib.Core.Path.{◌≡◌, refl}
use mathlib.Core.Bool.{Bool, false, ◌||◌}
use mathlib.Core.Option.{Option, none, some}
use mathlib.Core.List.{List, [], ◌∷◌}
use native.Mathlib.Omega.{arith}
use text.Mathlib.Text.{◌==◌}
use text.Mathlib.TextEquality.{eq_iff}
use fedeway.Prelude.Tests.{same, if◌then◌else◌}

-- Whether a text is among the listed ones.
abbrev pub contains : List String → String → Bool
contains [] k = false
contains (j ∷ js) k = j == k || contains js k

module _ {ℓ} {V : Type ℓ} where
  -- `v, ok := entries[key]`
  abbrev pub lookup : (key : String) → (entries : List (String × V)) → Option V
  lookup key [] = none
  lookup key (entry ∷ entries) = if entry.0 == key then some entry.1 else lookup key entries

  -- `entries[key] = value`; a new key comes last
  abbrev pub assign : (key : String) (value : V) → (entries : List (String × V)) → List (String × V)
  assign key value [] = (key, value) ∷ []
  assign key value (entry ∷ entries) =
      if entry.0 == key then (key, value) ∷ entries else entry ∷ assign key value entries

  pub lookup-assign :
      (key other : String) (value : V) (entries : List (String × V))
      → lookup other (assign key value entries)
        ≡ (if key == other then some value else lookup other entries)
  lookup-assign key other value [] = refl
  lookup-assign key other value (entry ∷ entries) = ground (
    arith,
    lookup-assign key other value entries,
    eq_iff entry.0 key,
    eq_iff entry.0 other,
    eq_iff key other,
  )

-- `a + b + …` on texts, and what `fmt.Sprintf` does with `%s`.
abbrev pub concat : List String → String
concat [] = ""
concat (s ∷ ss) = String.◌++◌ s (concat ss)

-- `strings.Join`
abbrev pub join : String → List String → String
join sep [] = ""
join sep (s ∷ []) = s
join sep (s ∷ t ∷ ts) = concat (s ∷ sep ∷ join sep (t ∷ ts) ∷ [])

-- `%d`
abbrev digit : ℕ → String
digit n = String.slice "0123456789" n (suc n)

abbrev digits : ℕ → ℕ → String
digits zero n = ""
digits (suc fuel) n =
    let front = digits fuel (n / 10) in
    concat ((if same (n / 10) 0 then "" else front) ∷ digit (n % 10) ∷ [])

abbrev pub decimal : ℕ → String
decimal n = digits (suc n) n
