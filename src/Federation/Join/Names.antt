-- ===== src/Federation/Join/Names.antt =====
-- Names as lists of code points, and maps under such names.
use Prim.Native.Char.{code}
use fedeway.Prelude.{
  ℕ, String, Bool, true, false, ◌&&◌, &&-eq-true, Option, none, some, some_eq, List, [], ◌∷◌, Memᴰ,
  same, same_refl, eq_of_same, ltb, if◌then◌else◌, Bool-cases, inl, inr, ◌≡◌, refl, sym, ap, ap₂,
  ◌∙◌, arith,
}

abbrev pub Name : Type 0
Name = List ℕ

abbrev pub codes : String → Name
codes String.[] = []
codes (String.◌∷◌ c s) = code c ∷ codes s

abbrev pub names_equal : Name → Name → Bool
names_equal [] [] = true
names_equal (c ∷ s) (d ∷ t) = same c d && names_equal s t
names_equal _ _ = false

-- `a < b`
abbrev pub name_less : Name → Name → Bool
name_less [] [] = false
name_less [] (d ∷ t) = true
name_less (c ∷ s) [] = false
name_less (c ∷ s) (d ∷ t) = if same c d then name_less s t else ltb c d

pub names_equal_refl : (s : Name) → names_equal s s ≡ true
names_equal_refl [] = refl
names_equal_refl (c ∷ s) = ground (arith, same_refl c, names_equal_refl s)

pub eq_of_names_equal : (s t : Name) → names_equal s t ≡ true → s ≡ t
eq_of_names_equal [] [] h = refl
eq_of_names_equal [] (d ∷ t) h = cc
eq_of_names_equal (c ∷ s) [] h = cc
eq_of_names_equal (c ∷ s) (d ∷ t) h =
    let (first, rest) = &&-eq-true (same c d) (names_equal s t) h in
    ap₂ (λ a b. a ∷ b) (eq_of_same c d first) (eq_of_names_equal s t rest)

module _ {V : Type 0} where
  abbrev pub value_under : Name → List (Name × V) → Option V
  value_under k [] = none
  value_under k (e ∷ m) = if names_equal e.0 k then some e.1 else value_under k m

  abbrev pub store_under : Name → V → List (Name × V) → List (Name × V)
  store_under k v [] = (k, v) ∷ []
  store_under k v (e ∷ m) = if names_equal e.0 k then (k, v) ∷ m else e ∷ store_under k v m

  -- No name stands in the map twice.
  abbrev pub IsMap : List (Name × V) → Type 0
  IsMap [] = Unit {0}
  IsMap (e ∷ m) = (value_under e.0 m ≡ none) × IsMap m

  pub value_under-store_under :
      (k j : Name) (v : V) (m : List (Name × V))
      → value_under j (store_under k v m) ≡ (if names_equal k j then some v else value_under j m)
  value_under-store_under k j v [] = refl
  value_under-store_under k j v (e ∷ m) = elim (Bool-cases (names_equal e.0 k)) [
    | inl same_key ↦
        let here = eq_of_names_equal e.0 k same_key in
        rw same_key (elim (Bool-cases (names_equal k j)) [
          | inl t ↦ rw t refl
          | inr t ↦
              let other : names_equal e.0 j ≡ false = ap (λ x. names_equal x j) here ∙ t in
              rw (t, other) refl
        ])
    | inr different ↦ rw different (elim (Bool-cases (names_equal e.0 j)) [
      | inl t ↦
          let here = eq_of_names_equal e.0 j t in
          let other : names_equal k j ≡ false = not_both k e.0 j different here in
          rw (t, other) refl
      | inr t ↦ rw t (value_under-store_under k j v m)
    ])
  ]
    where
      not_both : (k i j : Name) → names_equal i k ≡ false → i ≡ j → names_equal k j ≡ false
      not_both k i j h e = elim (Bool-cases (names_equal k j)) [
        | inr t ↦ t
        | inl t ↦
            let there = eq_of_names_equal k j t in
            let same_name : names_equal i k ≡ true =
              ap (λ x. names_equal x k) (e ∙ sym there) ∙ names_equal_refl k in
            cc
      ]

  pub store_under-IsMap :
      (k : Name) (v : V) (m : List (Name × V)) → IsMap m → IsMap (store_under k v m)
  store_under-IsMap k v [] h = (refl, tt)
  store_under-IsMap k v (e ∷ m) (new, h) = elim (Bool-cases (names_equal e.0 k)) [
    | inl t ↦ rw t (ap (λ x. value_under x m) (sym (eq_of_names_equal e.0 k t)) ∙ new, h)
    | inr t ↦ rw t (
      value_under-store_under k e.0 v m ∙ elim (Bool-cases (names_equal k e.0)) [
        | inr s ↦ rw s new
        | inl s ↦
            let there : names_equal e.0 k ≡ true =
              ap (λ x. names_equal x k) (sym (eq_of_names_equal k e.0 s)) ∙ names_equal_refl k in
            cc
      ],
      store_under-IsMap k v m h,
    )
  ]

  pub value_of_mem :
      (k : Name) (v : V) (m : List (Name × V)) → IsMap m → Memᴰ (k, v) m → value_under k m ≡ some v
  value_of_mem k v [] h mem = elim mem [ ]
  value_of_mem k v (e ∷ m) h (Memᴰ.head eq) = rw (← eq) (rw (names_equal_refl k) refl)
  value_of_mem k v (e ∷ m) (new, h) (Memᴰ.tail mem) = elim (Bool-cases (names_equal e.0 k)) [
    | inr t ↦ rw t (value_of_mem k v m h mem)
    | inl t ↦
        let found = value_of_mem k v m h mem in
        let nothing : value_under k m ≡ none =
          ap (λ x. value_under x m) (sym (eq_of_names_equal e.0 k t)) ∙ new in
        cc
  ]

  pub mem_of_value :
      (k : Name) (v : V) (m : List (Name × V)) → value_under k m ≡ some v → Memᴰ (k, v) m
  mem_of_value k v [] h = cc
  mem_of_value k v (e ∷ m) h = elim (Bool-cases (names_equal e.0 k)) [
    | inl t ↦
        let here : some e.1 ≡ some v = rw t at h in
        Memᴰ.head (ap₂ (λ x y. (x, y)) (sym (eq_of_names_equal e.0 k t)) (sym (some_eq here)))
    | inr t ↦ Memᴰ.tail (mem_of_value k v m (rw t at h))
  ]
