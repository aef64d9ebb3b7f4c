-- ===== src/Planner/Grouping/Uniform.antt =====
-- The fields of one group of the grouping loop of field_set.go.
use fedeway.Prelude.{
  String, true, List, [], ◌∷◌, ◌==◌, eq_iff, eq_refl, ◌≡◌, sym, ◌∙◌, arith, All, All-append,
  All-map, All-filter, any, Bool-cases, inl, inr,
}
use fedeway.Planner.Grouping.{group_by}
use fedeway.Planner.Grouping.Laws.{with_key, columns, first_keys, next_keys, group_by_lem}

module _ {A : Type 0} (key : A → String) where
  abbrev pub IsUniform : List A → Type 0
  IsUniform [] = ⊥
  IsUniform (x ∷ xs) = All (λ y. key y ≡ key x) xs

  -- A key that some field has.
  abbrev Occurs : List A → String → Type 0
  Occurs fields k = any (λ x. key x == k) fields ≡ true

  key_is : (k : String) (x y : A) → (key x == k) ≡ true → (key y == k) ≡ true → key y ≡ key x
  key_is k x y h l = (eq_iff (key y) k).0 l ∙ sym ((eq_iff (key x) k).0 h)

  with_key-IsUniform :
      (k : String) (fields : List A) → Occurs fields k → IsUniform (with_key key k fields)
  with_key-IsUniform k [] h = cc
  with_key-IsUniform k (x ∷ xs) h = elim (Bool-cases (key x == k)) [
    | inl e ↦
        rw e
          (All-map (with_key key k xs) (λ y l. key_is k x y e l) (All-filter (λ y. key y == k) xs))
    | inr e ↦ rw e (with_key-IsUniform k xs (rw e at h))
  ]

  Occurs-self : (fields : List A) → All (λ x. Occurs fields (key x)) fields
  Occurs-self [] = tt
  Occurs-self (x ∷ xs) = (rw eq_refl, All-map xs (λ y h. ground arith) (Occurs-self xs))

  first_keys-Occurs :
      (fields : List A) (rs : List String) (rest : List A)
      → All (Occurs fields) rs
      → All (λ x. Occurs fields (key x)) rest
      → All (Occurs fields) (first_keys key rs rest)
  first_keys-Occurs fields rs [] h k = h
  first_keys-Occurs fields rs (x ∷ rest) h k =
      first_keys-Occurs fields (next_keys key rs x) rest (ground arith) k.1

  columns-IsUniform :
      (fields : List A) (rs : List String)
      → All (Occurs fields) rs
      → All IsUniform (columns key fields rs)
  columns-IsUniform fields [] h = tt
  columns-IsUniform fields (r ∷ rs) h =
      All-append IsUniform (columns key fields rs) (with_key key r fields ∷ [])
        (columns-IsUniform fields rs h.1) (with_key-IsUniform r fields h.0, tt)

  -- Every group has a first field, and all its fields have the key of that one.
  pub group_by-IsUniform : (fields : List A) → All IsUniform (group_by key fields)
  group_by-IsUniform fields = rw (group_by_lem key) (
      columns-IsUniform fields (first_keys key [] fields)
        (first_keys-Occurs fields [] fields tt (Occurs-self fields)))
