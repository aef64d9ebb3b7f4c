-- ===== src/Engine/Flatten/Back.antt =====
-- `flattenResultsAtPath` after a change: what was put back at the path is found there.
use fedeway.Prelude.{
  String, some, Bool, true, false, [], ◌∷◌, ◌==◌, Bool-cases, Option-cases, inl, inr, eq_refl, ◌≡◌,
  refl, sym, ap, ap₂, subst, ◌∙◌,
}
use fedeway.Outcome.{Outcome, done, panicked, ◌>>=◌, bind-eq-done, done_eq}
use fedeway.Json.{Json, null, bool, num, str, arr, obj, Items, nil, cons, Members, get, put}
use fedeway.Json.Access.{get-put}
use fedeway.Plan.{ResponsePath}
use fedeway.Engine.Flatten.Shape.{Shape, no_value, list_value, one_value, shape, AreAlike, Fits}
use fedeway.Engine.Flatten.{
  ◌+++◌, spread, or_null, flatten_each, descend, flatten_at, take_like, drop_like, take_back,
  restore_one, restore_under, restore_each, ascend, restore_at,
}

-- A list splits in front of the elements that became of a value.
abbrev pub Splits : Json → Items → Items → Type 0
Splits v rest ys =
    Fits v (take_back v ys).0
    × AreAlike rest (take_back v ys).1
    × (spread (take_back v ys).0 (take_back v ys).1 ≡ ys)

AreAlike-append :
    (vs rest ys : Items)
    → AreAlike (vs +++ rest) ys
    → AreAlike vs (take_like vs ys)
      × AreAlike rest (drop_like vs ys)
      × ((take_like vs ys +++ drop_like vs ys) ≡ ys)
AreAlike-append nil rest ys h = (tt, h, refl)
AreAlike-append (cons v vs) rest nil h = elim h [ ]
AreAlike-append (cons v vs) rest (cons y ys) h =
    let (first, last, whole) = AreAlike-append vs rest ys h.1 in
    ((h.0, first), last, ap (cons y) whole)

abbrev is_list : Shape → Bool
is_list list_value = true
is_list _ = false

spread_single :
    (s : Shape) (y : Json) (zs : Items) → is_list s ≡ false → s ≡ shape y → spread y zs ≡ cons y zs
spread_single s null zs n e = refl
spread_single s (bool b) zs n e = refl
spread_single s (num b) zs n e = refl
spread_single s (str b) zs n e = refl
spread_single s (arr xs) zs n e = cc
spread_single s (obj ms) zs n e = refl

pub spread-Splits : (v : Json) (rest ys : Items) → AreAlike (spread v rest) ys → Splits v rest ys
spread-Splits (arr vs) rest ys h =
    let (first, last, whole) = AreAlike-append vs rest ys h in
    ((take_like vs ys, refl, first), last, whole)
spread-Splits null rest nil h = elim h [ ]
spread-Splits null rest (cons y ys) h = (h.0, h.1, spread_single no_value y ys refl h.0)
spread-Splits (bool b) rest nil h = elim h [ ]
spread-Splits (bool b) rest (cons y ys) h = (h.0, h.1, spread_single one_value y ys refl h.0)
spread-Splits (num n) rest nil h = elim h [ ]
spread-Splits (num n) rest (cons y ys) h = (h.0, h.1, spread_single one_value y ys refl h.0)
spread-Splits (str s) rest nil h = elim h [ ]
spread-Splits (str s) rest (cons y ys) h = (h.0, h.1, spread_single one_value y ys refl h.0)
spread-Splits (obj ms) rest nil h = elim h [ ]
spread-Splits (obj ms) rest (cons y ys) h = (h.0, h.1, spread_single one_value y ys refl h.0)

get-put_self : (k : String) (v : Json) (ms : Members) → get k (put k v ms) ≡ some v
get-put_self k v ms = simp (get-put, eq_refl)

-- What is put back is found again.
abbrev Finds : (Json → Outcome Json) → (Json → Json → Json) → Type 0
Finds found deeper =
    (v w new : Json) → found v ≡ done w → Fits w new → found (deeper v new) ≡ done new

null_of_shape : (new : Json) → no_value ≡ shape new → new ≡ null
null_of_shape null h = refl
null_of_shape (bool b) h = cc
null_of_shape (num n) h = cc
null_of_shape (str s) h = cc
null_of_shape (arr xs) h = cc
null_of_shape (obj ms) h = cc

module _ (found : Json → Outcome Json) (deeper : Json → Json → Json) (ih : Finds found deeper)
    (nulls : found null ≡ done null) where
  flatten_each-restore_each :
      (xs vs ys : Items)
      → flatten_each found xs ≡ done vs
      → AreAlike vs ys
      → flatten_each found (restore_each found deeper xs ys) ≡ done ys
  unfolding restore_each flatten_each
  flatten_each-restore_each nil vs nil h a = refl
  flatten_each-restore_each nil vs (cons y ys) h a =
      let nothing = subst (λ z. AreAlike z (cons y ys)) (sym (done_eq h)) a in elim nothing [ ]
  flatten_each-restore_each (cons x xs) vs ys h a =
      let (v, here, h1) = bind-eq-done (found x) _ h in
      let (rest, others, h2) = bind-eq-done (flatten_each found xs) _ h1 in
      let a' : AreAlike (spread v rest) ys = rw (done_eq h2) a in
      let (fits, alike, whole) = spread-Splits v rest ys a' in
      let mine = (take_back v ys).0 in
      let later = (take_back v ys).1 in
      ap (λ o. flatten_each found (restore_one deeper x o ys (restore_each found deeper xs))) here
      ∙ ap₂ (λ o zs. o >>= λ w. zs >>= λ us. done (spread w us)) (ih x v mine here fits)
          (flatten_each-restore_each xs rest later others alike)
      ∙ ap done whole

  unnamed :
      (current : String) (ms : Members)
      → (current == "@") ≡ false
      → descend current found (obj ms) ≡ found (or_null (get current ms))
  unfolding descend
  unnamed current ms e = rw e refl

  descend-ascend : (current : String) → Finds (descend current found) (ascend current found deeper)
  unfolding descend ascend
  descend-ascend current null w new h fits =
      let fits' : Fits null new = subst (λ z. Fits z new) (sym (done_eq h)) fits in
      ap done (sym (null_of_shape new fits'))
  descend-ascend current (arr xs) w new h fits = elim (Bool-cases (current == "@")) [
    | inl e ↦
        let h' : (flatten_each found xs >>= λ ys. done (arr ys)) ≡ done w = rw e at h in
        let (vs, each, h1) = bind-eq-done (flatten_each found xs) _ h' in
        let (ys, is_list, alike) : Fits (arr vs) new =
          subst (λ z. Fits z new) (sym (done_eq h1)) fits in
        rw (e, is_list)
          (ap (λ o. o >>= λ zs. done (arr zs)) (flatten_each-restore_each xs vs ys each alike))
    | inr e ↦ let nothing : panicked ≡ done w = rw e at h in cc
  ]
  descend-ascend current (obj ms) w new h fits = elim (Bool-cases (current == "@")) [
    | inl at_sign ↦ let nothing : panicked ≡ done w = rw at_sign at h in cc
    | inr name ↦
        let h' : found (or_null (get current ms)) ≡ done w = rw name at h in
        elim (Option-cases (get current ms)) [
          | inl e ↦
              let none_found : done null ≡ done w =
                sym nulls ∙ ap (λ o. found (or_null o)) (sym e) ∙ h' in
              let fits' : Fits null new = subst (λ z. Fits z new) (sym (done_eq none_found)) fits in
              ap (λ o. descend current found (restore_under current deeper ms new o)) e
              ∙ unnamed current ms name
              ∙ ap (λ o. found (or_null o)) e
              ∙ nulls
              ∙ ap done (sym (null_of_shape new fits'))
          | inr (v, e) ↦
              let h'' : found v ≡ done w = ap (λ o. found (or_null o)) (sym e) ∙ h' in
              ap (λ o. descend current found (restore_under current deeper ms new o)) e
              ∙ unnamed current (put current (deeper v new) ms) name
              ∙ ap (λ o. found (or_null o)) (get-put_self current (deeper v new) ms)
              ∙ ih v w new h'' fits
        ]
  ]
  descend-ascend current (bool b) w new h fits = cc
  descend-ascend current (num n) w new h fits = cc
  descend-ascend current (str s) w new h fits = cc

flatten_at-null : (path : ResponsePath) → flatten_at path null ≡ done null
unfolding flatten_at
flatten_at-null [] = refl
flatten_at-null (current ∷ rest) = refl

-- What is put back at a path, of the shape of what was found there, is what is found there then.
pub flatten_at-restore_at :
    (path : ResponsePath) (results found new : Json)
    → flatten_at path results ≡ done found
    → Fits found new
    → flatten_at path (restore_at path results new) ≡ done new
unfolding flatten_at restore_at
flatten_at-restore_at [] results found new h fits = refl
flatten_at-restore_at (current ∷ rest) results found new h fits =
    descend-ascend (flatten_at rest) (restore_at rest) (flatten_at-restore_at rest)
      (flatten_at-null rest) current results found new h fits
