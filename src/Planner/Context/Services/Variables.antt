-- ===== src/Planner/Context/Services/Variables.antt =====
-- `getVariableUsages`: the definitions of the variables that a fetch uses. The values that
-- gqlparser's `validator.Walk` shows to an observer, in their order, are an argument.
use fedeway.Prelude.{
  String, Bool, false, Option, none, some, some_eq, List, [], ◌∷◌, ◌++◌, any, assign, lookup-assign,
  lookup, ◌==◌, eq_iff, if◌then◌else◌, Option-cases, Bool-cases, inl, inr, ◌≡◌, refl, sym, ap, ◌∙◌,
  ◌||◌, arith,
}
use fedeway.Outcome.{Outcome, done, panicked, or_panic, ◌>>=◌, bind-eq-done, done_eq}
use fedeway.Ast.{Value, value, variable, GqlType}

-- `ast.VariableDefinition`
pub record VariableDefinition : Type 0 where
  pub variable : String
  pub type : GqlType

-- `usages.ForName(name) != nil`
abbrev pub is_used : List VariableDefinition → String → Bool
is_used usages name = any (λ d. d.variable == name) usages

abbrev pub variable_named : Value → Option String
variable_named (value variable raw children) = some raw
variable_named (value _ raw children) = none

-- `variableDefinitions[varDef.Variable] = varDef` for all, in `buildQueryPlanningContext`
abbrev pub index_by_name :
    List (String × VariableDefinition)
    → List VariableDefinition
    → List (String × VariableDefinition)
index_by_name m [] = m
index_by_name m (def ∷ defs) = index_by_name (assign def.variable def m) defs

module _ (variable_definitions : List (String × VariableDefinition)) where
  -- the observer of values
  unfoldable pub observe :
      List VariableDefinition → Option String → Outcome (List VariableDefinition)
  observe usages none = done usages
  observe usages (some name) =
      let added =
        or_panic (lookup name variable_definitions) >>= λ def. done (usages ++ def ∷ []) in
      if is_used usages name then done usages else added

  unfoldable pub observe_all :
      List VariableDefinition → List Value → Outcome (List VariableDefinition)
  unfolding observe
  observe_all usages [] = done usages
  observe_all usages (v ∷ values) = do
    next ← observe usages (variable_named v)
    observe_all next values

  unfoldable pub get_variable_usages : List Value → Outcome (List VariableDefinition)
  unfolding observe_all
  get_variable_usages = observe_all []

-- A value names the variable.
abbrev pub is_mentioned : List Value → String → Bool
is_mentioned [] name = false
is_mentioned (v ∷ values) name = elim (variable_named v) [
  | none ↦ is_mentioned values name
  | some n ↦ n == name || is_mentioned values name
]

-- No name is used twice.
abbrev pub HasDistinctNames : List VariableDefinition → Type 0
HasDistinctNames [] = Unit {0}
HasDistinctNames (d ∷ ds) = (is_used ds d.variable ≡ false) × HasDistinctNames ds

-- Each definition stands under its own name.
abbrev IsKeyed : List (String × VariableDefinition) → Type 0
IsKeyed m =
    (name : String) (def : VariableDefinition) → lookup name m ≡ some def → def.variable ≡ name

assign-IsKeyed :
    (def : VariableDefinition) (m : List (String × VariableDefinition))
    → IsKeyed m
    → IsKeyed (assign def.variable def m)
assign-IsKeyed def m h name other e =
    let stored = lookup-assign def.variable name def m in
    elim (Bool-cases (def.variable == name)) [
      | inl same ↦
          let found : some def ≡ some other = rw (stored, same) at e in
          ap (λ (d : VariableDefinition). d.variable) (sym (some_eq found))
          ∙ (eq_iff def.variable name).0 same
      | inr different ↦ h name other (rw (stored, different) at e)
    ]

index_by_name-IsKeyed :
    (m : List (String × VariableDefinition)) (defs : List VariableDefinition)
    → IsKeyed m
    → IsKeyed (index_by_name m defs)
index_by_name-IsKeyed m [] h = h
index_by_name-IsKeyed m (def ∷ defs) h =
    index_by_name-IsKeyed (assign def.variable def m) defs (assign-IsKeyed def m h)

is_used-snoc :
    (usages : List VariableDefinition) (def : VariableDefinition) (name : String)
    → is_used (usages ++ def ∷ []) name ≡ (is_used usages name || def.variable == name)
is_used-snoc [] def name = ground arith
is_used-snoc (d ∷ usages) def name = ground (arith, is_used-snoc usages def name)

snoc-HasDistinctNames :
    (usages : List VariableDefinition) (def : VariableDefinition)
    → is_used usages def.variable ≡ false
    → HasDistinctNames usages
    → HasDistinctNames (usages ++ def ∷ [])
snoc-HasDistinctNames [] def h d = (refl, tt)
snoc-HasDistinctNames (u ∷ usages) def h d = (
  ground (
    arith,
    is_used-snoc usages def u.variable,
    eq_iff u.variable def.variable,
    eq_iff def.variable u.variable,
  ),
  snoc-HasDistinctNames usages def (ground arith) d.1,
)

module _ (m : List (String × VariableDefinition)) (keyed : IsKeyed m) where
  abbrev Adds : List VariableDefinition → Option String → List VariableDefinition → Type 0
  Adds before name after =
      HasDistinctNames after
      × ((k : String)
          → is_used after k ≡ (is_used before k || elim name [ none ↦ false | some n ↦ n == k ]))

  found_of :
      (n : String) (def : VariableDefinition)
      → or_panic (lookup n m) ≡ done def
      → lookup n m ≡ some def
  found_of n def h = elim (Option-cases (lookup n m)) [
    | inl e ↦ let nothing : panicked ≡ done def = rw e at h in cc
    | inr (other, e) ↦
        let same : done other ≡ done def = rw e at h in e ∙ ap (λ d. some d) (done_eq same)
  ]

  observe-Adds :
      (usages next : List VariableDefinition) (name : Option String)
      → HasDistinctNames usages
      → observe m usages name ≡ done next
      → Adds usages name next
  unfolding observe
  observe-Adds usages next none d h = rw (← done_eq h) (d, λ k. ground arith)
  observe-Adds usages next (some n) d h = elim (Bool-cases (is_used usages n)) [
    | inl old ↦
        let same : done usages ≡ done next = rw old at h in
        rw (← done_eq same) (d, λ k. ground (arith, eq_iff n k))
    | inr new ↦
        let (def, found, appended) = bind-eq-done (or_panic (lookup n m)) _ (rw new at h) in
        let named : def.variable ≡ n = keyed n def (found_of n def found) in
        rw (← done_eq appended) (
          snoc-HasDistinctNames usages def (rw named new) d,
          λ k. is_used-snoc usages def k ∙ ap (λ v. is_used usages k || v == k) named,
        )
  ]

  observe_all-Adds :
      (usages final : List VariableDefinition) (values : List Value)
      → HasDistinctNames usages
      → observe_all m usages values ≡ done final
      → HasDistinctNames final
        × ((k : String) → is_used final k ≡ (is_used usages k || is_mentioned values k))
  unfolding observe_all
  observe_all-Adds usages final [] d h = rw (← done_eq h) (d, λ k. ground arith)
  observe_all-Adds usages final (v ∷ values) d h =
      let (next, here, later) = bind-eq-done (observe m usages (variable_named v)) _ h in
      let (d1, added) = observe-Adds usages next (variable_named v) d here in
      let (d2, rest) = observe_all-Adds next final values d1 later in
      (
        d2,
        λ k.
            rest k
            ∙ ap (λ b. b || is_mentioned values k) (added k)
            ∙ mentioned-or (is_used usages k) (variable_named v) k (is_mentioned values k),
      )
    where
      mentioned-or :
          (used : Bool) (name : Option String) (k : String) (later : Bool)
          → ((used || elim name [ none ↦ false | some n ↦ n == k ]) || later)
            ≡ (used || elim name [ none ↦ later | some n ↦ n == k || later ])
      mentioned-or used none k later = ground arith
      mentioned-or used (some n) k later = ground arith

-- The variables of a fetch: no name twice, and a name exactly if a value of the fetch mentions it.
pub get_variable_usages_lem :
    (defs : List VariableDefinition) (values : List Value) (usages : List VariableDefinition)
    → get_variable_usages (index_by_name [] defs) values ≡ done usages
    → HasDistinctNames usages × ((k : String) → is_used usages k ≡ is_mentioned values k)
unfolding get_variable_usages
get_variable_usages_lem defs values usages h =
    observe_all-Adds (index_by_name [] defs) (index_by_name-IsKeyed [] defs (λ name def e. cc)) []
      usages values tt h
