-- ===== src/Planner/Grouping/Laws.antt =====
-- What the grouping loop of field_set.go computes.
use fedeway.Prelude.{
  ℕ, zero, suc, ◌<◌, String, true, false, none, some, List, [], ◌∷◌, ◌++◌, append_assoc, append-nil,
  length, lookup, ◌==◌, eq_iff, eq_refl, contains, if◌then◌else◌, ◌≡◌, refl, sym, ap, ap₂, ◌∙◌,
  arith, filter, filter-append, All, All-append, Bool-cases, Option-cases, inl, inr,
}
use fedeway.Planner.Grouping.{append_at, Grouped, group_step, group_loop, group_by}

module _ {A : Type 0} where
  append_at-last :
      (x : A) (g : List A) (gs : List (List A))
      → append_at (length gs) x (gs ++ g ∷ []) ≡ gs ++ (g ++ x ∷ []) ∷ []
  unfolding append_at
  append_at-last x g [] = refl
  append_at-last x g (h ∷ gs) = ap (λ r. h ∷ r) (append_at-last x g gs)

  append_at-below :
      (i : ℕ) (x : A) (g : List A) (gs : List (List A))
      → i < length gs
      → append_at i x (gs ++ g ∷ []) ≡ append_at i x gs ++ g ∷ []
  unfolding append_at
  append_at-below i x g [] h = elim h [ ]
  append_at-below zero x g (k ∷ gs) h = refl
  append_at-below (suc i) x g (k ∷ gs) h = ap (λ r. k ∷ r) (append_at-below i x g gs (omega arith))

-- The map `nameIdx` when the names `rs` have been met, newest first.
abbrev indexed : List String → List (String × ℕ)
indexed [] = []
indexed (r ∷ rs) = (r, length rs) ∷ indexed rs

length-indexed : (rs : List String) → length (indexed rs) ≡ length rs
length-indexed [] = refl
length-indexed (r ∷ rs) = omega (arith, length-indexed rs)

lookup-indexed-lt :
    (k : String) (rs : List String) (i : ℕ) → lookup k (indexed rs) ≡ some i → i < length rs
lookup-indexed-lt k [] i h = ground arith
lookup-indexed-lt k (r ∷ rs) i h = ground (arith, lookup-indexed-lt k rs i)

not_contains :
    (k : String) (rs : List String) → lookup k (indexed rs) ≡ none → contains rs k ≡ false
not_contains k [] h = refl
not_contains k (r ∷ rs) h = ground (arith, not_contains k rs)

contains_of_lookup :
    (k : String) (rs : List String) (i : ℕ) → lookup k (indexed rs) ≡ some i → contains rs k ≡ true
contains_of_lookup k [] i h = ground arith
contains_of_lookup k (r ∷ rs) i h = ground (arith, contains_of_lookup k rs i)

abbrev IsDistinct : List String → Type 0
IsDistinct [] = Unit {0}
IsDistinct (r ∷ rs) = (contains rs r ≡ false) × IsDistinct rs

module _ {A : Type 0} (key : A → String) where
  -- The fields that have the key `k`, in their order.
  abbrev pub with_key : String → List A → List A
  with_key k fields = filter (λ x. key x == k) fields

  -- One group for each key of `rs`, the last key's first.
  abbrev pub columns : List A → List String → List (List A)
  columns fields [] = []
  columns fields (r ∷ rs) = columns fields rs ++ with_key r fields ∷ []

  -- The keys of the fields in the order of their last-found first occurrence, after those of `rs`.
  abbrev pub first_keys : List String → List A → List String
  first_keys rs [] = rs
  first_keys rs (x ∷ xs) = first_keys (if contains rs (key x) then rs else key x ∷ rs) xs

  length-snoc : (gs : List (List A)) (g : List A) → length (gs ++ g ∷ []) ≡ suc (length gs)
  length-snoc [] g = refl
  length-snoc (h ∷ gs) g = ap suc (length-snoc gs g)

  length-columns : (fields : List A) (rs : List String) → length (columns fields rs) ≡ length rs
  length-columns fields [] = refl
  length-columns fields (r ∷ rs) =
      length-snoc (columns fields rs) (with_key r fields) ∙ ap suc (length-columns fields rs)

  with_key-snoc_ne :
      (k : String) (x : A) (fields : List A)
      → (key x == k) ≡ false
      → with_key k (fields ++ x ∷ []) ≡ with_key k fields
  with_key-snoc_ne k x fields h =
      filter-append (λ y. key y == k) fields (x ∷ []) ∙ rw h (append-nil (with_key k fields))

  with_key-snoc_self :
      (x : A) (fields : List A)
      → with_key (key x) (fields ++ x ∷ []) ≡ with_key (key x) fields ++ x ∷ []
  with_key-snoc_self x fields = filter-append (λ y. key y == key x) fields (x ∷ []) ∙ rw eq_refl

  columns-snoc_ne :
      (x : A) (fields : List A) (rs : List String)
      → contains rs (key x) ≡ false
      → columns (fields ++ x ∷ []) rs ≡ columns fields rs
  columns-snoc_ne x fields [] h = refl
  columns-snoc_ne x fields (r ∷ rs) h =
      ap₂ (λ gs g. gs ++ g ∷ []) (columns-snoc_ne x fields rs (ground arith))
        (with_key-snoc_ne r x fields (ground (arith, eq_iff r (key x), eq_iff (key x) r)))

  append_at-columns_last :
      (x : A) (fields : List A) (rs : List String)
      → contains rs (key x) ≡ false
      → append_at (length rs) x (columns fields rs ++ with_key (key x) fields ∷ [])
        ≡ columns (fields ++ x ∷ []) (key x ∷ rs)
  append_at-columns_last x fields rs h =
      ap (λ n. append_at n x (columns fields rs ++ with_key (key x) fields ∷ []))
        (sym (length-columns fields rs))
      ∙ append_at-last x (with_key (key x) fields) (columns fields rs)
      ∙ ap₂ (λ gs g. gs ++ g ∷ []) (sym (columns-snoc_ne x fields rs h))
          (sym (with_key-snoc_self x fields))

  -- A known name: its group, and no other, gets the field.
  append_at-columns :
      (x : A) (fields : List A) (rs : List String) (i : ℕ)
      → IsDistinct rs
      → lookup (key x) (indexed rs) ≡ some i
      → append_at i x (columns fields rs) ≡ columns (fields ++ x ∷ []) rs
  append_at-columns x fields [] i d h = ground arith
  append_at-columns x fields (r ∷ rs) i d h = elim (Bool-cases (r == key x)) [
    | inl e ↦
        let here = (eq_iff r (key x)).0 e in
        let last : i ≡ length rs = ground arith in
        rw (here, last) (append_at-columns_last x fields rs (rw here at d.0))
    | inr e ↦
        let later : lookup (key x) (indexed rs) ≡ some i = ground arith in
        append_at-below i x (with_key r fields) (columns fields rs)
          (rw (length-columns fields rs) (lookup-indexed-lt (key x) rs i later))
        ∙ ap₂ (λ gs g. gs ++ g ∷ []) (append_at-columns x fields rs i d.1 later)
            (sym (with_key-snoc_ne r x fields (ground (arith, eq_iff r (key x), eq_iff (key x) r))))
  ]

  -- The loop's variables when the fields `done` have been placed under the names `rs`.
  record IsPlaced (done : List A) (rs : List String) (g : Grouped A) : Type 0 where
    names : g.name_idx ≡ indexed rs
    sets : g.field_sets ≡ columns done rs
    distinct : IsDistinct rs
    known : All (λ x. contains rs (key x) ≡ true) done

  abbrev pub next_keys : List String → A → List String
  next_keys rs x = if contains rs (key x) then rs else key x ∷ rs

  with_key_unknown :
      (k : String) (done : List A) (rs : List String)
      → contains rs k ≡ false
      → All (λ x. contains rs (key x) ≡ true) done
      → with_key k done ≡ []
  with_key_unknown k [] rs h a = refl
  with_key_unknown k (x ∷ xs) rs h a =
      ground (arith, eq_iff (key x) k, with_key_unknown k xs rs h a.1)

  known-grow :
      (k : String) (done : List A) (rs : List String)
      → All (λ x. contains rs (key x) ≡ true) done
      → All (λ x. contains (k ∷ rs) (key x) ≡ true) done
  known-grow k [] rs h = tt
  known-grow k (x ∷ xs) rs h = (ground arith, known-grow k xs rs h.1)

  group_step-IsPlaced :
      (done : List A) (rs : List String) (g : Grouped A) (x : A)
      → IsPlaced done rs g
      → IsPlaced (done ++ x ∷ []) (next_keys rs x) (group_step key g x)
  unfolding group_step
  group_step-IsPlaced done rs g x p = elim (Option-cases (lookup (key x) (indexed rs))) [
    | inr (i, e) ↦
        let old = contains_of_lookup (key x) rs i e in
        rw (old, p.names, e)
          (record {
            names = refl;
            sets = ap (append_at i x) p.sets ∙ append_at-columns x done rs i p.distinct e;
            distinct = p.distinct;
            known = All-append _ done (x ∷ []) p.known (old, tt);
          })
    | inl e ↦
        let new = not_contains (key x) rs e in
        rw (new, p.names, e)
          (record {
            names = ap (λ n. (key x, n) ∷ indexed rs) (length-indexed rs);
            sets =
                ap₂ (λ n gs. append_at n x (gs ++ [] ∷ [])) (length-indexed rs) p.sets
                ∙ ap (λ g. append_at (length rs) x (columns done rs ++ g ∷ []))
                    (sym (with_key_unknown (key x) done rs new p.known))
                ∙ append_at-columns_last x done rs new;
            distinct = (new, p.distinct);
            known =
                All-append _ done (x ∷ []) (known-grow (key x) done rs p.known) (rw eq_refl, tt);
          })
  ]

  group_loop-IsPlaced :
      (done rest : List A) (rs : List String) (g : Grouped A)
      → IsPlaced done rs g
      → (group_loop key g rest).field_sets ≡ columns (done ++ rest) (first_keys rs rest)
  unfolding group_loop
  group_loop-IsPlaced done [] rs g p =
      p.sets ∙ ap (λ fields. columns fields rs) (sym (append-nil done))
  group_loop-IsPlaced done (x ∷ rest) rs g p =
      group_loop-IsPlaced (done ++ x ∷ []) rest (next_keys rs x) (group_step key g x)
        (group_step-IsPlaced done rs g x p)
      ∙ ap (λ fields. columns fields (first_keys (next_keys rs x) rest))
          (append_assoc done (x ∷ []) rest)

  -- The grouping loop makes one group for each key, in the order in which the keys first occur,
  -- and a group holds exactly the fields with its key, in their order.
  pub group_by_lem : (fields : List A) → group_by key fields ≡ columns fields (first_keys [] fields)
  unfolding group_by
  group_by_lem fields =
      group_loop-IsPlaced [] fields [] _
        (record { names = refl; sets = refl; distinct = tt; known = tt })
