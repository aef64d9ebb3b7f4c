-- ===== src/Json/Access.antt =====
-- Laws of the members of an object.
use fedeway.Prelude.{String, false, none, some, ◌==◌, eq_iff, if◌then◌else◌, ◌≡◌, refl, arith}
use fedeway.Json.{Json, Members, end, member, get, put, has_key}

pub get-put :
    (k j : String) (v : Json) (ms : Members)
    → get j (put k v ms) ≡ (if k == j then some v else get j ms)
get-put k j v end = refl
get-put k j v (member i w ms) = ground (arith, eq_iff k j, eq_iff i k, eq_iff i j, get-put k j v ms)

pub put-get : (k : String) (v : Json) (ms : Members) → get k ms ≡ some v → put k v ms ≡ ms
put-get k v end h = ground arith
put-get k v (member i w ms) h = ground (arith, eq_iff i k, put-get k v ms)

pub get_of_no_key : (k : String) (ms : Members) → has_key k ms ≡ false → get k ms ≡ none
get_of_no_key k end h = refl
get_of_no_key k (member j v ms) h = ground (arith, get_of_no_key k ms)
