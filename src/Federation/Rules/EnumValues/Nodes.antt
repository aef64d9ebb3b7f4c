-- ===== src/Federation/Rules/EnumValues/Nodes.antt =====
-- `duplicateEnumValue`, node by node.
use fedeway.Prelude.{
  String, Bool, true, false, not, ◌&&◌, ◌||◌, List, [], ◌∷◌, ◌++◌, append-nil, contains, assign,
  lookup-assign, ◌==◌, eq_refl, eq_iff, if◌then◌else◌, Bool-cases, inl, inr, ◌⊎◌, ◌≡◌, refl, sym,
  ap, ap₂, ◌∙◌, arith,
}
use fedeway.Ast.{Kind, scalar, object, interface, union, enum, input_object, Definition}
use fedeway.Federation.Rules.Base.{is_silent, is_silent-append}
use fedeway.Federation.Rules.Duplicates.{is_enum, error_if_silent}
use fedeway.Federation.Rules.EnumValues.{
  EnumMap, or_empty, values_of, value_names, value_error, add_values, add_node, enum_nodes,
}

-- No value is known or stands in the list twice.
abbrev pub are_fresh : List String → List String → Bool
are_fresh known [] = true
are_fresh known (v ∷ values) = not (contains known v) && are_fresh (known ++ v ∷ []) values

-- The values of a further node are fresh; the first node that has values is not tested.
abbrev pub is_fresh_node : List String → List String → Bool
is_fresh_node [] values = true
is_fresh_node (k ∷ known) values = are_fresh (k ∷ known) values

-- The values of the enum `name`, node by node, after those that are known.
abbrev pub is_fresh_enum : String → List String → List Definition → Bool
is_fresh_enum name known [] = true
is_fresh_enum name known (d ∷ ds) =
    let here = is_fresh_enum name (known ++ value_names d) ds in
    let elsewhere = is_fresh_enum name known ds in
    if is_enum d.kind && d.name == name
    then is_fresh_node known (value_names d) && here
    else elsewhere

pub is_enum-cases : (k : Kind) → (k ≡ enum) ⊎ (is_enum k ≡ false)
is_enum-cases enum = inl refl
is_enum-cases scalar = inr refl
is_enum-cases object = inr refl
is_enum-cases interface = inr refl
is_enum-cases union = inr refl
is_enum-cases input_object = inr refl

and_assoc : (a b c : Bool) → (a && (b && c)) ≡ ((a && b) && c)
and_assoc a b c = ground arith

pub both : (a b : Bool) → (a && b) ≡ true → (a ≡ true) × (b ≡ true)
both a b h = (ground arith, ground arith)

pub and_true : {a b : Bool} → a ≡ true → b ≡ true → (a && b) ≡ true
and_true {a} {b} h t = ground arith

pub or_true : (a : Bool) {b : Bool} → b ≡ true → (a || b) ≡ true
or_true a {b} h = ground arith

pub own : (name : String) (b : Bool) → (not (name == name) || b) ≡ true → b ≡ true
own name b h = ground (arith, eq_refl name)

append_one :
    (known : List String) (v : String) (vs : List String)
    → ((known ++ v ∷ []) ++ vs) ≡ (known ++ v ∷ vs)
append_one [] v vs = refl
append_one (k ∷ known) v vs = ap (λ rest. k ∷ rest) (append_one known v vs)

module _ (service : String) where
  add_values_lem :
      (name : String) (known values : List String)
      → (is_silent (add_values service name known values).0 ≡ are_fresh known values)
        × ((add_values service name known values).1 ≡ (known ++ values))
  unfolding add_values
  add_values_lem name known [] = (refl, sym (append-nil known))
  add_values_lem name known (v ∷ values) =
      let (silent, all_values) = add_values_lem name (known ++ v ∷ []) values in
      (
        error_if_silent (contains known v) (value_error service name v)
              (add_values service name (known ++ v ∷ []) values).0
            ∙ ap (λ rest. not (contains known v) && rest) silent,
        all_values ∙ append_one known v values,
      )

  add_node_lem :
      (name : String) (known values : List String)
      → (is_silent (add_node service name known values).0 ≡ is_fresh_node known values)
        × ((add_node service name known values).1 ≡ (known ++ values))
  unfolding add_node
  add_node_lem name [] values = (refl, refl)
  add_node_lem name (k ∷ known) values = add_values_lem name (k ∷ known) values

  pub enum_nodes-skips :
      (enums : EnumMap) (d : Definition) (ds : List Definition) (k : Kind)
      → d.kind ≡ k
      → is_enum k ≡ false
      → enum_nodes service enums (d ∷ ds) ≡ enum_nodes service enums ds
  unfolding enum_nodes
  enum_nodes-skips enums d ds enum e h = let nothing : true ≡ false = h in cc
  enum_nodes-skips enums d ds scalar e h = rw e refl
  enum_nodes-skips enums d ds object e h = rw e refl
  enum_nodes-skips enums d ds interface e h = rw e refl
  enum_nodes-skips enums d ds union e h = rw e refl
  enum_nodes-skips enums d ds input_object e h = rw e refl

  -- the map after a node
  abbrev pub after : EnumMap → Definition → EnumMap
  after enums d = assign d.name (values_of enums d.name ++ value_names d) enums

  values_of-after :
      (enums : EnumMap) (d : Definition) (name : String)
      → values_of (after enums d) name
        ≡ (if d.name == name then values_of enums d.name ++ value_names d else values_of enums name)
  values_of-after enums d name =
      ap or_empty (lookup-assign d.name name (values_of enums d.name ++ value_names d) enums)
      ∙ elim (Bool-cases (d.name == name)) [ inl e ↦ rw e refl | inr e ↦ rw e refl ]

  pub enum_nodes-of_enum :
      (enums : EnumMap) (d : Definition) (ds : List Definition)
      → d.kind ≡ enum
      → (is_silent (enum_nodes service enums (d ∷ ds)).0 ≡ (
          is_fresh_node (values_of enums d.name) (value_names d)
          && is_silent (enum_nodes service (after enums d) ds).0))
        × ((enum_nodes service enums (d ∷ ds)).1 ≡ (enum_nodes service (after enums d) ds).1)
  unfolding enum_nodes
  enum_nodes-of_enum enums d ds e =
      let known = values_of enums d.name in
      let (silent, all_values) = add_node_lem d.name known (value_names d) in
      let found = (add_node service d.name known (value_names d)).0 in
      (rw (e, is_silent-append, silent, all_values) refl, rw (e, all_values) refl)

  pub is_fresh_enum-of_enum :
      (enums : EnumMap) (d : Definition) (ds : List Definition) (name : String)
      → d.kind ≡ enum
      → is_fresh_enum name (values_of enums name) (d ∷ ds) ≡ (
          (not (d.name == name) || is_fresh_node (values_of enums d.name) (value_names d))
          && is_fresh_enum name (values_of (after enums d) name) ds)
  is_fresh_enum-of_enum enums d ds name e = elim (Bool-cases (d.name == name)) [
    | inl here ↦
        let one_name : d.name ≡ name = (eq_iff d.name name).0 here in
        rw (e, values_of-after enums d name, here, one_name) refl
    | inr elsewhere ↦ rw (e, values_of-after enums d name, elsewhere) refl
  ]

  pub enum_nodes-append :
      (enums : EnumMap) (ds es : List Definition)
      → is_silent (enum_nodes service enums (ds ++ es)).0 ≡ (
          is_silent (enum_nodes service enums ds).0
          && is_silent (enum_nodes service (enum_nodes service enums ds).1 es).0)
  unfolding enum_nodes
  enum_nodes-append enums [] es = refl
  enum_nodes-append enums (d ∷ ds) es = elim (is_enum-cases d.kind) [
    | inl e ↦
        let next = enum_nodes service (after enums d) ds in
        let (whole, _) = enum_nodes-of_enum enums d (ds ++ es) e in
        let (first, final) = enum_nodes-of_enum enums d ds e in
        let fresh = is_fresh_node (values_of enums d.name) (value_names d) in
        whole
        ∙ ap (λ b. fresh && b) (enum_nodes-append (after enums d) ds es)
        ∙ and_assoc fresh (is_silent next.0) (is_silent (enum_nodes service next.1 es).0)
        ∙ ap₂ (λ b m. b && is_silent (enum_nodes service m es).0) (sym first) (sym final)
    | inr h ↦
        ap (λ r. is_silent r.0) (enum_nodes-skips enums d (ds ++ es) d.kind refl h)
        ∙ enum_nodes-append enums ds es
        ∙ ap (λ r. is_silent r.0 && is_silent (enum_nodes service r.1 es).0)
            (sym (enum_nodes-skips enums d ds d.kind refl h))
  ]
