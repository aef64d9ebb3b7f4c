-- ===== src/Planner/Groups/Changes.antt =====
-- The changes of fetch groups in planning, which leave every group its service.
use fedeway.Prelude.{
  ℕ, zero, suc, String, Option, none, some, some_eq, List, [], ◌∷◌, ◌++◌, append_assoc, append-nil,
  length, assign, ◌≡◌, refl, sym, ap, ◌∙◌,
}
use fedeway.Outcome.{done, or_panic, bind-eq-done, done_eq}
use fedeway.Planner.Groups.{FetchGroup, InternalFragment, Store, at_index, set_at, load, new_group}

-- the services of the groups, by reference
abbrev pub services : List FetchGroup → List String
services [] = []
services (g ∷ gs) = g.service_name ∷ services gs

-- From the first store to the second, groups were added and changed, but for their services.
pub record Keeps (s t : Store) : Type 0 where
  pub roots : t.root_groups ≡ s.root_groups
  pub by_service : t.root_groups_by_service ≡ s.root_groups_by_service
  pub new : List String
  pub grown : services t.groups ≡ services s.groups ++ new

pub services-append :
    (gs : List FetchGroup) (g : FetchGroup)
    → services (gs ++ g ∷ []) ≡ services gs ++ g.service_name ∷ []
services-append [] g = refl
services-append (h ∷ gs) g = ap (λ r. h.service_name ∷ r) (services-append gs g)

services-set_at :
    (i : ℕ) (old new : FetchGroup) (gs : List FetchGroup)
    → at_index i gs ≡ some old
    → new.service_name ≡ old.service_name
    → services (set_at i new gs) ≡ services gs
services-set_at i old new [] h e = refl
services-set_at zero old new (g ∷ gs) h e =
    ap (λ n. n ∷ services gs) (e ∙ ap (λ (x : FetchGroup). x.service_name) (sym (some_eq h)))
services-set_at (suc i) old new (g ∷ gs) h e =
    ap (λ r. g.service_name ∷ r) (services-set_at i old new gs h e)

at_index-append :
    (i : ℕ) (g h : FetchGroup) (gs : List FetchGroup)
    → at_index i gs ≡ some g
    → at_index i (gs ++ h ∷ []) ≡ some g
at_index-append i g h [] e = cc
at_index-append zero g h (x ∷ gs) e = e
at_index-append (suc i) g h (x ∷ gs) e = at_index-append i g h gs e

pub load-eq :
    (ref : ℕ) (s : Store) (r : FetchGroup × Store)
    → load ref s ≡ done r
    → (r.1 ≡ s) × (at_index ref s.groups ≡ some r.0)
unfolding load
load-eq ref s r h =
    let (x, e, f) = bind-eq-done (or_panic (at_index ref s.groups)) _ h in
    let same : (x, s) ≡ r = done_eq f in
    (
      ap (λ (q : FetchGroup × Store). q.1) (sym same),
      found (at_index ref s.groups) x e ∙ ap (λ (q : FetchGroup × Store). some q.0) same,
    )
  where
    found : (o : Option FetchGroup) (x : FetchGroup) → or_panic o ≡ done x → o ≡ some x
    found none x e = cc
    found (some y) x e = ap some (done_eq e)

pub store-Keeps :
    (ref : ℕ) (s : Store) (old new : FetchGroup)
    → at_index ref s.groups ≡ some old
    → new.service_name ≡ old.service_name
    → Keeps s (record s { groups = set_at ref new s.groups })
store-Keeps ref s old new h e = record {
  roots = refl;
  by_service = refl;
  new = [];
  grown = services-set_at ref old new s.groups h e ∙ sym (append-nil (services s.groups));
}

pub allocate-Keeps :
    (s : Store) (g : FetchGroup) → Keeps s (record s { groups = s.groups ++ g ∷ [] })
allocate-Keeps s g = record {
  roots = refl;
  by_service = refl;
  new = g.service_name ∷ [];
  grown = services-append s.groups g;
}

pub Keeps-refl : (s : Store) → Keeps s s
Keeps-refl s = record {
  roots = refl;
  by_service = refl;
  new = [];
  grown = sym (append-nil (services s.groups));
}

pub Keeps-trans : (s t u : Store) → Keeps s t → Keeps t u → Keeps s u
Keeps-trans s t u h k = record {
  roots = k.roots ∙ h.roots;
  by_service = k.by_service ∙ h.by_service;
  new = h.new ++ k.new;
  grown =
      k.grown ∙ ap (λ names. names ++ k.new) h.grown ∙ append_assoc (services s.groups) h.new k.new;
}

-- The store after a new group was made a dependent group of `fg`.
abbrev pub with_dependent : ℕ → String → FetchGroup → Store → Store
with_dependent fg service parent s = record s {
  groups =
      set_at fg
        (record parent {
          dependent_groups_by_service =
              assign service (length s.groups) parent.dependent_groups_by_service;
        })
        (s.groups ++ new_group service parent.merge_at ∷ []);
}

-- A group gets other fields, fragments or requirements.
abbrev pub HasSameLinks : FetchGroup → FetchGroup → Type 0
HasSameLinks old new =
    (new.service_name ≡ old.service_name)
    × (new.dependent_groups_by_service ≡ old.dependent_groups_by_service)
    × (new.other_dependent_groups ≡ old.other_dependent_groups)

-- The predicate survives what planning does to groups, merging aside.
pub record IsClosed (P : Store → Type 0) : Type 0 where
  pub changes :
      (s : Store) (ref : ℕ) (old new : FetchGroup)
      → at_index ref s.groups ≡ some old
      → HasSameLinks old new
      → P s
      → P (record s { groups = set_at ref new s.groups })
  pub depends :
      (s : Store) (fg : ℕ) (parent : FetchGroup) (service : String)
      → at_index fg s.groups ≡ some parent
      → P s
      → P (with_dependent fg service parent s)
  pub known :
      (s : Store) (fragments : List (String × InternalFragment))
      → P s
      → P (record s { fragments = fragments })

pub Keeps-IsClosed : (P : Store → Type 0) → ((s t : Store) → Keeps s t → P s → P t) → IsClosed P
Keeps-IsClosed P closed = record {
  changes = λ s ref old new at same p. closed s _ (store-Keeps ref s old new at same.0) p;
  depends = λ s fg parent service at p.
      let made = new_group service parent.merge_at in
      let bigger : Store = record s { groups = s.groups ++ made ∷ [] } in
      closed s (with_dependent fg service parent s)
        (Keeps-trans s bigger (with_dependent fg service parent s) (allocate-Keeps s made)
          (store-Keeps fg bigger parent _ (at_index-append fg parent made s.groups at) refl))
        p;
  known = λ s fragments p.
      closed s _
        (record {
          roots = refl;
          by_service = refl;
          new = [];
          grown = sym (append-nil (services s.groups));
        })
        p;
}
