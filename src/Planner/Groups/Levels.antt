-- ===== src/Planner/Groups/Levels.antt =====
-- Levels of fetch groups, by which group depends on which.
pub mod Steps
pub mod Merging
use fedeway.Prelude.{
  ℕ, zero, suc, ◌<◌, String, true, false, Option, none, some, some_eq, List, [], ◌∷◌, ◌++◌,
  append_assoc, append-nil, length, assign, insert_by, sort_by, less, ◌==◌, if◌then◌else◌,
  Bool-cases, inl, inr, All, All-append, All-map, ◌≡◌, refl, sym, ap, ◌∙◌, subst, arith,
}
use fedeway.Planner.Groups.{
  FetchGroup, InternalFragment, Store, at_index, set_at, new_group, references, dependent_groups,
}
use fedeway.Planner.Groups.Changes.{IsClosed, HasSameLinks, with_dependent}

-- The references are of groups of the level.
abbrev pub AreOf : List ℕ → ℕ → List ℕ → Type 0
AreOf ls l refs = All (λ r. at_index r ls ≡ some l) refs

-- What depends on the group is of the level.
abbrev pub Links : List ℕ → ℕ → FetchGroup → Type 0
Links ls l g =
    AreOf ls l (references g.dependent_groups_by_service) × AreOf ls l g.other_dependent_groups

abbrev AreLinked : List ℕ → List ℕ → List FetchGroup → Type 0
AreLinked ls [] [] = Unit {0}
AreLinked ls (m ∷ ms) (g ∷ gs) = Links ls (suc m) g × AreLinked ls ms gs
AreLinked ls _ _ = ⊥

-- The groups have these levels, and there are fewer levels than groups.
abbrev pub IsLevelled : List ℕ → Store → Type 0
IsLevelled ls s = AreLinked ls ls s.groups × All (λ l. l < length ls) ls

-- The same, for some levels that go on from `ls`.
abbrev pub HasLevels : List ℕ → Store → Type 0
HasLevels ls s = (new : List ℕ) × IsLevelled (ls ++ new) s

module _ {A : Type 0} where
  pub at_index-grow :
      (i : ℕ) (x : A) (xs ys : List A) → at_index i xs ≡ some x → at_index i (xs ++ ys) ≡ some x
  at_index-grow i x [] ys h = cc
  at_index-grow zero x (y ∷ xs) ys h = h
  at_index-grow (suc i) x (y ∷ xs) ys h = at_index-grow i x xs ys h

  pub at_index-length : (x : A) (xs : List A) → at_index (length xs) (xs ++ x ∷ []) ≡ some x
  at_index-length x [] = refl
  at_index-length x (y ∷ xs) = at_index-length x xs

  pub All-at {κ} :
      (P : A → Type κ) (i : ℕ) (x : A) (xs : List A) → at_index i xs ≡ some x → All P xs → P x
  All-at P i x [] h a = cc
  All-at P zero x (y ∷ xs) h a = subst P (some_eq h) a.0
  All-at P (suc i) x (y ∷ xs) h a = All-at P i x xs h a.1

module _ (P : ℕ → Type 0) where
  pub All-references_assign :
      (k : String) (r : ℕ) (m : List (String × ℕ))
      → P r
      → All P (references m)
      → All P (references (assign k r m))
  All-references_assign k r [] p a = (p, tt)
  All-references_assign k r (e ∷ m) p a = elim (Bool-cases (e.0 == k)) [
    | inl t ↦ rw t (p, a.1)
    | inr t ↦ rw t (a.0, All-references_assign k r m p a.1)
  ]

  All-references_insert :
      (e : String × ℕ) (m : List (String × ℕ))
      → P e.1
      → All P (references m)
      → All P (references (insert_by (λ (entry : String × ℕ). entry.0) e m))
  All-references_insert e [] p a = (p, tt)
  All-references_insert e (d ∷ m) p a = elim (Bool-cases (less d.0 e.0)) [
    | inl t ↦ rw t (a.0, All-references_insert e m p a.1)
    | inr t ↦ rw t (p, a)
  ]

  pub All-references_sort :
      (m : List (String × ℕ))
      → All P (references m)
      → All P (references (sort_by (λ (entry : String × ℕ). entry.0) m))
  All-references_sort [] a = tt
  All-references_sort (e ∷ m) a =
      All-references_insert e (sort_by (λ (entry : String × ℕ). entry.0) m) a.0
        (All-references_sort m a.1)

-- All that `dependentGroups` returns is of the level.
pub dependent_groups-AreOf :
    (ls : List ℕ) (l : ℕ) (g : FetchGroup) → Links ls l g → AreOf ls l (dependent_groups g)
unfolding dependent_groups
dependent_groups-AreOf ls l g h =
    All-append (λ r. at_index r ls ≡ some l) _ g.other_dependent_groups
      (All-references_sort (λ r. at_index r ls ≡ some l) g.dependent_groups_by_service h.0) h.1

pub AreOf-grow :
    (ls new : List ℕ) (l : ℕ) (refs : List ℕ) → AreOf ls l refs → AreOf (ls ++ new) l refs
AreOf-grow ls new l refs h = All-map refs (λ r e. at_index-grow r l ls new e) h

pub Links-grow : (ls new : List ℕ) (l : ℕ) (g : FetchGroup) → Links ls l g → Links (ls ++ new) l g
Links-grow ls new l g h = (AreOf-grow ls new l _ h.0, AreOf-grow ls new l _ h.1)

pub AreLinked-grow :
    (ls new ms : List ℕ) (gs : List FetchGroup) → AreLinked ls ms gs → AreLinked (ls ++ new) ms gs
AreLinked-grow ls new [] [] h = tt
AreLinked-grow ls new (m ∷ ms) (g ∷ gs) h =
    (Links-grow ls new (suc m) g h.0, AreLinked-grow ls new ms gs h.1)
AreLinked-grow ls new [] (g ∷ gs) h = h
AreLinked-grow ls new (m ∷ ms) [] h = h

pub AreLinked-snoc :
    (ls ms : List ℕ) (gs : List FetchGroup) (m : ℕ) (g : FetchGroup)
    → AreLinked ls ms gs
    → Links ls (suc m) g
    → AreLinked ls (ms ++ m ∷ []) (gs ++ g ∷ [])
AreLinked-snoc ls [] [] m g h k = (k, tt)
AreLinked-snoc ls (n ∷ ms) (f ∷ gs) m g h k = (h.0, AreLinked-snoc ls ms gs m g h.1 k)
AreLinked-snoc ls [] (f ∷ gs) m g h k = absurd h
AreLinked-snoc ls (n ∷ ms) [] m g h k = absurd h

pub AreLinked-set :
    (ls ms : List ℕ) (gs : List FetchGroup) (ref m : ℕ) (g : FetchGroup)
    → AreLinked ls ms gs
    → at_index ref ms ≡ some m
    → Links ls (suc m) g
    → AreLinked ls ms (set_at ref g gs)
AreLinked-set ls [] [] ref m g h e k = tt
AreLinked-set ls (n ∷ ms) (f ∷ gs) zero m g h e k =
    (subst (λ l. Links ls (suc l) g) (sym (some_eq e)) k, h.1)
AreLinked-set ls (n ∷ ms) (f ∷ gs) (suc ref) m g h e k =
    (h.0, AreLinked-set ls ms gs ref m g h.1 e k)
AreLinked-set ls [] (f ∷ gs) ref m g h e k = absurd h
AreLinked-set ls (n ∷ ms) [] ref m g h e k = absurd h

pub AreLinked-length :
    (ls ms : List ℕ) (gs : List FetchGroup) → AreLinked ls ms gs → length ms ≡ length gs
AreLinked-length ls [] [] h = refl
AreLinked-length ls (m ∷ ms) (g ∷ gs) h = ap suc (AreLinked-length ls ms gs h.1)
AreLinked-length ls [] (g ∷ gs) h = absurd h
AreLinked-length ls (m ∷ ms) [] h = absurd h

pub AreLinked-at :
    (ls ms : List ℕ) (gs : List FetchGroup) (ref : ℕ) (g : FetchGroup)
    → AreLinked ls ms gs
    → at_index ref gs ≡ some g
    → (m : ℕ) × (at_index ref ms ≡ some m) × Links ls (suc m) g
AreLinked-at ls [] [] ref g h e = cc
AreLinked-at ls (m ∷ ms) (f ∷ gs) zero g h e = (m, refl, subst (Links ls (suc m)) (some_eq e) h.0)
AreLinked-at ls (m ∷ ms) (f ∷ gs) (suc ref) g h e = AreLinked-at ls ms gs ref g h.1 e
AreLinked-at ls [] (f ∷ gs) ref g h e = absurd h
AreLinked-at ls (m ∷ ms) [] ref g h e = absurd h

pub AreLinked-group :
    (ls ms : List ℕ) (gs : List FetchGroup) (ref m : ℕ)
    → AreLinked ls ms gs
    → at_index ref ms ≡ some m
    → (g : FetchGroup) × (at_index ref gs ≡ some g)
AreLinked-group ls [] [] ref m h e = cc
AreLinked-group ls (n ∷ ms) (g ∷ gs) zero m h e = (g, refl)
AreLinked-group ls (n ∷ ms) (g ∷ gs) (suc ref) m h e = AreLinked-group ls ms gs ref m h.1 e
AreLinked-group ls [] (g ∷ gs) ref m h e = absurd h
AreLinked-group ls (n ∷ ms) [] ref m h e = absurd h
