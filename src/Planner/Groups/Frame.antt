-- ===== src/Planner/Groups/Frame.antt =====
-- What the operations on fetch groups keep, for every predicate that survives their changes.
pub mod Merging
use fedeway.Prelude.{
  ℕ, zero, suc, String, Bool, true, false, Option, none, some, some_eq, List, [], ◌∷◌, ◌++◌,
  append_assoc, append-nil, map, length, assign, lookup, if◌then◌else◌, ◌≡◌, refl, sym, ap, ◌∙◌,
  subst,
}
use fedeway.Outcome
use fedeway.Outcome.{Outcome, done, or_panic, bind-eq-done, done_eq}
use fedeway.Plan.{ResponsePath}
use fedeway.Planner.Grouping.{Field}
use fedeway.Planner.Groups.{
  FetchGroup, InternalFragment, Store, Planning, ◌>>=◌, ◌>>◌, return, lift, at_index, set_at, load,
  store, allocate, new_group, find_or_make, require, dependent_group_for_service, dependent_groups,
  find_existing, merge_into, merge_each, merge_dependent_groups,
}
use fedeway.Planner.Groups.Changes.{
  services, services-append, Keeps, load-eq, store-Keeps, allocate-Keeps, Keeps-refl, Keeps-trans,
  with_dependent, HasSameLinks, IsClosed, Keeps-IsClosed,
}

-- If the call returns, `Q` holds after it if `P` held before.
abbrev pub Leads {ℓ} : (Store → Type 0) → (Store → Type 0) → {A : Type ℓ} → Planning A → Type ℓ
Leads P Q {A = A} m = (s t : Store) (a : A) → m s ≡ done (a, t) → P s → Q t

-- The same, where the reference stands for the group at the start.
abbrev pub LeadsAt {ℓ} :
    (Store → Type 0) → (Store → Type 0) → ℕ → FetchGroup → {A : Type ℓ} → Planning A → Type ℓ
LeadsAt P Q ref g {A = A} m =
    (s t : Store) (a : A) → at_index ref s.groups ≡ some g → m s ≡ done (a, t) → P s → Q t

abbrev pub Holds {ℓ} : (Store → Type 0) → {A : Type ℓ} → Planning A → Type ℓ
Holds P m = Leads P P m

abbrev pub HoldsAt {ℓ} : (Store → Type 0) → ℕ → FetchGroup → {A : Type ℓ} → Planning A → Type ℓ
HoldsAt P ref g m = LeadsAt P P ref g m

pub bind-Leads {ℓ κ} :
    (P Q R : Store → Type 0) {A : Type ℓ} {B : Type κ} (m : Planning A) (f : A → Planning B)
    → Leads P Q m
    → ((a : A) → Leads Q R (f a))
    → Leads P R (m >>= f)
bind-Leads P Q R m f h k s t b e p =
    let (r, first, second) = bind-eq-done (m s) _ e in k r.0 r.1 t b second (h s r.1 r.0 first p)

module _ (P Q : Store → Type 0) where
  pub bind-LeadsAt {ℓ κ} :
      {A : Type ℓ} {B : Type κ} (ref : ℕ) (g : FetchGroup) (m : Planning A) (f : A → Planning B)
      → HoldsAt P ref g m
      → ((a : A) → Leads P Q (f a))
      → LeadsAt P Q ref g (m >>= f)
  bind-LeadsAt ref g m f h k s t b at e p =
      let (r, first, second) = bind-eq-done (m s) _ e in
      k r.0 r.1 t b second (h s r.1 r.0 at first p)

  pub load-Leads {ℓ} :
      {A : Type ℓ} (ref : ℕ) (f : FetchGroup → Planning A)
      → ((g : FetchGroup) → LeadsAt P Q ref g (f g))
      → Leads P Q (load ref >>= f)
  load-Leads ref f h s t b e p =
      let (r, first, second) = bind-eq-done (load ref s) _ e in
      let (unchanged, at) = load-eq ref s r first in
      h r.0 s t b at (ap (f r.0) (sym unchanged) ∙ second) p

module _ (P : Store → Type 0) where
  pub bind-Holds {ℓ κ} :
      {A : Type ℓ} {B : Type κ} (m : Planning A) (f : A → Planning B)
      → Holds P m
      → ((a : A) → Holds P (f a))
      → Holds P (m >>= f)
  bind-Holds m f h k = bind-Leads P P P m f h k

  pub bind-HoldsAt {ℓ κ} :
      {A : Type ℓ} {B : Type κ} (ref : ℕ) (g : FetchGroup) (m : Planning A) (f : A → Planning B)
      → HoldsAt P ref g m
      → ((a : A) → Holds P (f a))
      → HoldsAt P ref g (m >>= f)
  bind-HoldsAt ref g m f h k = bind-LeadsAt P P ref g m f h k

  pub return-Holds {ℓ} : {A : Type ℓ} (a : A) → Holds P (return a)
  return-Holds {A = A} a s t b e p = rw (← ap (λ (r : A × Store). r.1) (done_eq e)) p

  pub lift-Holds {ℓ} : {A : Type ℓ} (o : Outcome A) → Holds P (lift o)
  lift-Holds {A = A} o s t b e p =
      let (a, first, second) = bind-eq-done o _ e in
      rw (← ap (λ (r : A × Store). r.1) (done_eq second)) p

  pub if-Holds {ℓ} :
      {A : Type ℓ} (b : Bool) (m n : Planning A)
      → Holds P m
      → Holds P n
      → Holds P (if b then m else n)
  if-Holds true m n h k = h
  if-Holds false m n h k = k

  pub load-Holds {ℓ} :
      {A : Type ℓ} (ref : ℕ) (f : FetchGroup → Planning A)
      → ((g : FetchGroup) → HoldsAt P ref g (f g))
      → Holds P (load ref >>= f)
  load-Holds ref f h = load-Leads P P ref f h

  -- A group is changed.
  pub modify-Holds :
      (ref : ℕ) (change : FetchGroup → FetchGroup)
      → ((s : Store) (g : FetchGroup)
          → at_index ref s.groups ≡ some g
          → P s
          → P (record s { groups = set_at ref (change g) s.groups }))
      → Holds P (load ref >>= λ g. store ref (change g))
  unfolding store
  modify-Holds ref change step =
      load-Holds ref _ (λ g s t a at e p.
        subst P (ap (λ (r : (Unit {0}) × Store). r.1) (done_eq e)) (step s g at p))

  module _ (closed : IsClosed P) where
    pub store-HoldsAt :
        (ref : ℕ) (g new : FetchGroup) → HasSameLinks g new → HoldsAt P ref g (store ref new)
    unfolding store
    store-HoldsAt ref g new same s t a at e p =
        rw (← ap (λ (r : (Unit {0}) × Store). r.1) (done_eq e))
          (closed.changes s ref g new at same p)

    -- A group is changed, but neither its service nor what depends on it.
    pub refine-Holds :
        (ref : ℕ) (change : FetchGroup → FetchGroup)
        → ((g : FetchGroup) → HasSameLinks g (change g))
        → Holds P (load ref >>= λ g. store ref (change g))
    refine-Holds ref change same =
        modify-Holds ref change (λ s g at p. closed.changes s ref g (change g) at (same g) p)

    find_or_make-HoldsAt :
        (fg : ℕ) (service : String) (parent : FetchGroup) (o : Option ℕ)
        → HoldsAt P fg parent (find_or_make fg service parent o)
    unfolding allocate store
    find_or_make-HoldsAt fg service parent (some ref) s t a at e p = return-Holds ref s t a e p
    find_or_make-HoldsAt fg service parent none s t a at e p =
        rw (← ap (λ (r : ℕ × Store). r.1) (done_eq e)) (closed.depends s fg parent service at p)

    require-Holds : (fg ref : ℕ) (fields : List Field) → Holds P (require fg ref fields)
    require-Holds fg ref [] = return-Holds tt
    require-Holds fg ref (f ∷ fields) = load-Holds ref _ (λ group.
        bind-HoldsAt ref group _ _ (store-HoldsAt ref group _ (refl, refl, refl)) (λ u.
          refine-Holds fg (λ parent. record parent { fields = parent.fields ++ f ∷ fields })
            (λ g. (refl, refl, refl))))

    pub dependent_group_for_service-Holds :
        (fg : ℕ) (service : String) (required : List Field)
        → Holds P (dependent_group_for_service fg service required)
    unfolding dependent_group_for_service
    dependent_group_for_service-Holds fg service required = load-Holds fg _ (λ parent.
        bind-HoldsAt fg parent _ _
          (find_or_make-HoldsAt fg service parent
            (lookup service parent.dependent_groups_by_service))
          (λ ref. bind-Holds _ _ (require-Holds fg ref required) (λ u. return-Holds ref)))
