-- ===== src/Planner/Scope/Runtime.antt =====
-- Which object types a field can meet at run time, and that pruning a chain keeps them.
use fedeway.Prelude.{
  Bool, true, false, ◌&&◌, ◌||◌, Option, none, some, List, [], ◌∷◌, any, all, filter, All,
  All-filter_of_All, filter_of_All, Memᴰ, same, eq_of_same, same_refl, All-map, Bool-cases, inl,
  inr, ◌≡◌, refl, sym, ap, ◌∙◌, arith, &&-eq-true,
}
use fedeway.Ast.{Directive, Definition, Schema}
use fedeway.Planner.Scope.{
  Scope, outermost, within, parent_type, same_type, contains_type, is_nil, is_type_def_sub_type_of,
  get_possible_types, restrict_to, possible_runtime_types, prune_refined_types, refine, new_scope,
  chain,
}

contains_type-same :
    (defs : List Definition) (a b : Definition)
    → same_type a b ≡ true
    → contains_type defs a ≡ contains_type defs b
unfolding contains_type
contains_type-same defs a b h =
    ap (λ p. any (λ def. same def.ptr p) defs) (eq_of_same a.ptr b.ptr h)

contains_type-filter :
    (ts xs : List Definition) (d : Definition)
    → contains_type (filter (contains_type ts) xs) d ≡ (contains_type xs d && contains_type ts d)
unfolding contains_type
contains_type-filter ts [] d = refl
contains_type-filter ts (x ∷ xs) d =
    ground (arith, contains_type-filter ts xs d, contains_type-same ts x d)

contains_type_self : (ts : List Definition) → All (λ d. contains_type ts d ≡ true) ts
unfolding contains_type
contains_type_self [] = tt
contains_type_self (t ∷ ts) =
    (rw same_refl, All-map ts (λ d h. rw h (or_true (same t.ptr d.ptr))) (contains_type_self ts))
  where
    or_true : (b : Bool) → (b || true) ≡ true
    or_true true = refl
    or_true false = refl

module _ (schema : Schema) where
  -- Whether `d` is possible for every type of the list.
  abbrev pub possible_for_all : List Definition → Definition → Bool
  possible_for_all ts d = all (λ t. contains_type (get_possible_types schema t) d) ts

  abbrev pub rest_of_chain : Option Scope → List Definition
  rest_of_chain none = []
  rest_of_chain (some s) = chain s

  contains_type-restrict_to :
      (s : Option Scope) (xs : List Definition) (d : Definition)
      → contains_type (restrict_to schema s xs) d
        ≡ (contains_type xs d && possible_for_all (rest_of_chain s) d)
  unfolding restrict_to
  contains_type-restrict_to none xs d = ground arith
  contains_type-restrict_to (some (outermost t ds)) xs d =
      ground (arith, contains_type-filter (get_possible_types schema t) xs d)
  contains_type-restrict_to (some (within t ds outer)) xs d = ground (
    arith,
    contains_type-restrict_to (some outer) (filter (contains_type (get_possible_types schema t)) xs)
        d,
    contains_type-filter (get_possible_types schema t) xs d,
  )

  -- A type is a possible run-time type of a scope exactly when it is a possible type of the
  -- scope's parent type and of the parent type of every scope that encloses it.
  pub contains_type-possible_runtime_types :
      (s : Scope) (d : Definition)
      → contains_type (possible_runtime_types schema s) d ≡ possible_for_all (chain s) d
  unfolding possible_runtime_types
  contains_type-possible_runtime_types (outermost t ds) d =
      contains_type-restrict_to none (get_possible_types schema t) d
  contains_type-possible_runtime_types (within t ds outer) d =
      contains_type-restrict_to (some outer) (get_possible_types schema t) d

  restrict_to-new_scope :
      (p : Definition) (ds : List Directive) (outer : Option Scope) (xs : List Definition)
      → restrict_to schema (some (new_scope p ds outer)) xs
        ≡ restrict_to schema outer (filter (contains_type (get_possible_types schema p)) xs)
  unfolding restrict_to
  restrict_to-new_scope p ds none xs = refl
  restrict_to-new_scope p ds (some outer) xs = refl

  possible_runtime_types-new_scope :
      (typ : Definition) (ds : List Directive) (outer : Option Scope)
      → possible_runtime_types schema (new_scope typ ds outer)
        ≡ restrict_to schema outer (get_possible_types schema typ)
  unfolding possible_runtime_types
  possible_runtime_types-new_scope typ ds none = refl
  possible_runtime_types-new_scope typ ds (some outer) = refl

  -- A chain restricts the possible types of its own first type no further.
  restrict_to_self :
      (s : Scope)
      → restrict_to schema (some s) (get_possible_types schema (parent_type s))
        ≡ possible_runtime_types schema s
  unfolding restrict_to possible_runtime_types
  restrict_to_self (outermost t ds) =
      let ts = get_possible_types schema t in filter_of_All _ ts (contains_type_self ts)
  restrict_to_self (within t ds outer) =
      let ts = get_possible_types schema t in
      ap (restrict_to schema (some outer)) (filter_of_All _ ts (contains_type_self ts))

  module _ (typ : Definition) where
    -- Every possible type of `typ` is one of `p`.
    abbrev pub Refines : Definition → Type 0
    Refines p =
        All (λ d. contains_type (get_possible_types schema p) d ≡ true)
          (get_possible_types schema typ)

    restrict_to-prune :
        (s : Scope) (xs : List Definition)
        → ((p : Definition)
            → Memᴰ p (chain s)
            → is_type_def_sub_type_of schema typ p ≡ true
            → All (λ d. contains_type (get_possible_types schema p) d ≡ true) xs)
        → restrict_to schema (prune_refined_types schema (some s) typ) xs
          ≡ restrict_to schema (some s) xs
    unfolding restrict_to prune_refined_types
    restrict_to-prune (outermost p ds) xs h =
        elim (Bool-cases (is_nil ds && is_type_def_sub_type_of schema typ p)) [
          | inl e ↦ rw e (
              sym (
                filter_of_All (contains_type (get_possible_types schema p)) xs
                  (h p (Memᴰ.head refl) (&&-eq-true _ _ e).1)))
          | inr e ↦ rw e
        ]
    restrict_to-prune (within p ds outer) xs h =
        let keep = contains_type (get_possible_types schema p) in
        elim (Bool-cases (is_nil ds && is_type_def_sub_type_of schema typ p)) [
          | inl e ↦ rw e (
              restrict_to-prune outer xs (λ q m. h q (Memᴰ.tail m))
              ∙ ap (restrict_to schema (some outer))
                  (sym (filter_of_All keep xs (h p (Memᴰ.head refl) (&&-eq-true _ _ e).1))))
          | inr e ↦ rw e (
              restrict_to-new_scope p ds (prune_refined_types schema (some outer) typ) xs
              ∙ restrict_to-prune outer (filter keep xs)
                  (λ q m sub. All-filter_of_All _ keep xs (h q (Memᴰ.tail m) sub)))
        ]

    -- Refining a scope by a type leaves out the enclosing types that cannot narrow it further, and
    -- repeats no type. The possible run-time types stay those of the whole chain with the new type
    -- in front, in the same order. Asked is that a sub-type's possible types are possible types of
    -- the super-type for the types of the chain, and that an address stands for one definition.
    pub possible_runtime_types-refine :
        (s : Scope) (ds : List Directive)
        → ((p : Definition)
            → Memᴰ p (chain s)
            → is_type_def_sub_type_of schema typ p ≡ true
            → Refines p)
        → (same_type typ (parent_type s) ≡ true → typ ≡ parent_type s)
        → possible_runtime_types schema (refine schema s typ ds)
          ≡ possible_runtime_types schema (within typ ds s)
    unfolding refine
    possible_runtime_types-refine s ds h addressed =
        let whole : possible_runtime_types schema (within typ ds s)
            ≡ restrict_to schema (some s) (get_possible_types schema typ) =
          possible_runtime_types-new_scope typ ds (some s) in
        elim (Bool-cases (is_nil ds && same_type typ (parent_type s))) [
          | inl e ↦ rw (e, whole, addressed (&&-eq-true _ _ e).1) (sym (restrict_to_self s))
          | inr e ↦
              rw (e, whole)
                (possible_runtime_types-new_scope typ ds (prune_refined_types schema (some s) typ)
                  ∙ restrict_to-prune s (get_possible_types schema typ) h)
        ]
