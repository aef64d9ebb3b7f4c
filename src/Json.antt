-- ===== src/Json.antt =====
-- The values that `encoding/json` decodes into `interface{}`, with numbers kept as text
-- (`UseNumber`). A Go map is a list of members; what Go leaves open, the order of an iteration,
-- is the order of the list. No two values share parts here: a theorem speaks of values of which
-- no part is reached twice.
pub mod Access
use fedeway.Prelude.{
  ℕ, suc, String, Bool, true, false, Option, none, some, ◌==◌, if◌then◌else◌, ◌≡◌,
}

mutual
  pub data Json : Type 0 where
    null : Json
    bool : Bool → Json
    num : String → Json
    str : String → Json
    arr : Items → Json
    obj : Members → Json

  pub data Items : Type 0 where
    nil : Items
    cons : Json → Items → Items

  pub data Members : Type 0 where
    end : Members
    member : String → Json → Members → Members

-- `len(xs)`
abbrev pub size : Items → ℕ
size nil = 0
size (cons x xs) = suc (size xs)

-- `m[k]` with its `ok`
abbrev pub get : String → Members → Option Json
get k end = none
get k (member j v ms) = if j == k then some v else get k ms

-- `m[k] = v`
abbrev pub put : String → Json → Members → Members
put k v end = member k v end
put k v (member j w ms) = if j == k then member k v ms else member j w (put k v ms)

-- `x.(map[string]interface{})`
abbrev pub as_object : Json → Option Members
as_object (obj ms) = some ms
as_object _ = none

-- The object has the key.
abbrev pub has_key : String → Members → Bool
has_key k end = false
has_key k (member j v ms) = if j == k then true else has_key k ms

-- No key occurs twice, here and in every part.
unfoldable mutual
  pub IsProper : Json → Type 0
  IsProper null = Unit
  IsProper (bool b) = Unit
  IsProper (num n) = Unit
  IsProper (str s) = Unit
  IsProper (arr xs) = AreProper xs
  IsProper (obj ms) = IsProperObject ms

  pub AreProper : Items → Type 0
  AreProper nil = Unit
  AreProper (cons x xs) = IsProper x × AreProper xs

  pub IsProperObject : Members → Type 0
  IsProperObject end = Unit
  IsProperObject (member k v ms) = (has_key k ms ≡ false) × IsProper v × IsProperObject ms
