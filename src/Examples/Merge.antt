-- ===== src/Examples/Merge.antt =====
-- Merging, at the results of two services.
use fedeway.Prelude.{some, none, ◌≡◌, ◌≢◌, refl}
use fedeway.Json.{null, num, str, arr, obj, nil, cons, Members, end, member, get, IsProper}
use fedeway.DeepMerge.{deep_merge, merge_members}
use fedeway.DeepMerge.Laws.{stored, get-merge_members}
use fedeway.DeepMerge.Idempotent.{deep_merge_idempotent}
use fedeway.DeepMerge.Panics.{deep_merge_panics, merge_members-keeps}

abbrev account : Members
account =
    member "id" (str "1")
      (member "name" null (member "tags" (arr (cons (obj (member "a" (num "1") end)) nil)) end))

abbrev answer : Members
answer = member "id" null (
    member "name" (str "Ada") (
      member "tags" (arr (cons (obj (member "b" (num "2") end)) nil))
        (member "note" (str "__proto__") end)))

abbrev together : Members
together = member "id" (str "1") (
    member "name" (str "Ada")
      (member "tags" (arr (cons (obj (member "a" (num "1") (member "b" (num "2") end))) nil)) end))

account_merged : merge_members account answer ≡ some together
unfolding deep_merge
account_merged = refl

get-merge_members_example : get "tags" together ≡ stored (get "tags" account) (get "tags" answer)
get-merge_members_example =
    get-merge_members answer account together "tags" (refl, (refl, (refl, (refl, tt))))
      account_merged

deep_merge_idempotent_example : deep_merge (obj together) (obj answer) ≡ some (obj together)
unfolding deep_merge IsProper
deep_merge_idempotent_example =
    deep_merge_idempotent (obj answer) (obj account) (obj together)
      (refl, tt, (refl, tt, (refl, ((refl, tt, tt), tt), (refl, tt, tt)))) refl

deep_merge_panics_example :
    deep_merge (obj (member "me" null end)) (obj (member "me" (obj end) end)) ≡ none
deep_merge_panics_example =
    deep_merge_panics (member "me" (obj end) end) (member "me" null end) "me" null end (refl, tt)
      refl refl refl

merge_members-keeps_example : get "id" together ≢ none
merge_members-keeps_example =
    merge_members-keeps answer account together "id" account_merged (λ e. cc)
