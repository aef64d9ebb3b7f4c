-- ===== src/Engine/Flatten/Shape.antt =====
-- What of a value decides where the loops of the engine find it: its shape.
use fedeway.Prelude.{◌≡◌, refl, ◌∙◌, subst}
use fedeway.Json.{Json, null, bool, num, str, arr, obj, Items, nil, cons}

-- What a value is to the loops: nothing, a list, or one value.
pub data Shape : Type 0 where
  no_value list_value one_value : Shape

abbrev pub shape : Json → Shape
shape null = no_value
shape (arr xs) = list_value
shape _ = one_value

-- Two lists of one length, element for element of one shape.
abbrev pub AreAlike : Items → Items → Type 0
AreAlike nil nil = Unit {0}
AreAlike (cons x xs) (cons y ys) = (shape x ≡ shape y) × AreAlike xs ys
AreAlike _ _ = ⊥

-- What became of a value has its shape, and a list its length and the shapes of its elements.
abbrev pub Fits : Json → Json → Type 0
Fits (arr xs) new = (ys : Items) × (new ≡ arr ys) × AreAlike xs ys
Fits v new = shape v ≡ shape new

pub AreAlike-refl : (xs : Items) → AreAlike xs xs
AreAlike-refl nil = tt
AreAlike-refl (cons x xs) = (refl, AreAlike-refl xs)

pub AreAlike-trans : (xs ys zs : Items) → AreAlike xs ys → AreAlike ys zs → AreAlike xs zs
AreAlike-trans nil nil nil h k = tt
AreAlike-trans nil nil (cons z zs) h k = elim k [ ]
AreAlike-trans nil (cons y ys) zs h k = elim h [ ]
AreAlike-trans (cons x xs) nil zs h k = elim h [ ]
AreAlike-trans (cons x xs) (cons y ys) nil h k = elim k [ ]
AreAlike-trans (cons x xs) (cons y ys) (cons z zs) h k =
    (h.0 ∙ k.0, AreAlike-trans xs ys zs h.1 k.1)

pub Fits-refl : (v : Json) → Fits v v
Fits-refl null = refl
Fits-refl (bool b) = refl
Fits-refl (num n) = refl
Fits-refl (str s) = refl
Fits-refl (arr xs) = (xs, refl, AreAlike-refl xs)
Fits-refl (obj ms) = refl

pub shape_of_Fits : (v w : Json) → Fits v w → shape v ≡ shape w
shape_of_Fits null w h = h
shape_of_Fits (bool b) w h = h
shape_of_Fits (num n) w h = h
shape_of_Fits (str s) w h = h
shape_of_Fits (arr xs) w (ys, e, h) = rw e refl
shape_of_Fits (obj ms) w h = h

pub Fits-trans : (u v w : Json) → Fits u v → Fits v w → Fits u w
Fits-trans (arr xs) v w (ys, e, h) k =
    let (zs, e', h') : Fits (arr ys) w = subst (λ z. Fits z w) e k in
    (zs, e', AreAlike-trans xs ys zs h h')
Fits-trans null v w h k = h ∙ shape_of_Fits v w k
Fits-trans (bool b) v w h k = h ∙ shape_of_Fits v w k
Fits-trans (num n) v w h k = h ∙ shape_of_Fits v w k
Fits-trans (str s) v w h k = h ∙ shape_of_Fits v w k
Fits-trans (obj ms) v w h k = h ∙ shape_of_Fits v w k
