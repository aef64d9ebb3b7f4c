-- ===== src/Planner/Context/Services/Defined.antt =====
-- `getVariableUsages` and the variables that the operation defines.
use fedeway.Prelude.{
  String, Bool, true, false, ◌||◌, Option, none, some, is_some, List, [], ◌∷◌, ◌++◌, assign, lookup,
  lookup-assign, ◌==◌, Option-cases, Bool-cases, inl, inr, eq_refl, ◌≡◌, refl, ap, ◌∙◌, arith,
}
use fedeway.Outcome.{done, ◌>>=◌}
use fedeway.Ast.{Value}
use fedeway.Planner.Context.Services.Variables.{
  VariableDefinition, variable_named, index_by_name, observe, observe_all, get_variable_usages,
  is_used, is_mentioned,
}

lookup-index_by_name :
    (k : String) (m : List (String × VariableDefinition)) (defs : List VariableDefinition)
    → is_some (lookup k (index_by_name m defs)) ≡ (is_some (lookup k m) || is_used defs k)
lookup-index_by_name k m [] = ground arith
lookup-index_by_name k m (def ∷ defs) = ground (
  arith,
  lookup-index_by_name k (assign def.variable def m) defs,
  lookup-assign def.variable k def m,
)

module _ (m : List (String × VariableDefinition)) where
  -- The map has every name that the values mention.
  abbrev Knows : List Value → Type 0
  Knows values = (k : String) → is_mentioned values k ≡ true → is_some (lookup k m) ≡ true

  observe-done :
      (usages : List VariableDefinition) (n : String)
      → is_some (lookup n m) ≡ true
      → (next : List VariableDefinition) × (observe m usages (some n) ≡ done next)
  unfolding observe
  observe-done usages n h = elim (Option-cases (lookup n m)) [
    | inl e ↦ let nothing : false ≡ true = rw e at h in cc
    | inr (def, e) ↦ elim (Bool-cases (is_used usages n)) [
      | inl old ↦ (usages, rw old refl)
      | inr new ↦ (usages ++ def ∷ [], rw (new, e) refl)
    ]
  ]

  step-done :
      (usages : List VariableDefinition) (v : Value) (values : List Value) (name : Option String)
      → variable_named v ≡ name
      → Knows (v ∷ values)
      → (next : List VariableDefinition) × (observe m usages name ≡ done next)
  unfolding observe
  step-done usages v values none e h = (usages, refl)
  step-done usages v values (some n) e h =
      observe-done usages n (h n (ap (mentions n) e ∙ rw (eq_refl n) refl))
    where
      mentions : String → Option String → Bool
      mentions k o = elim o [
        | none ↦ is_mentioned values k
        | some other ↦ other == k || is_mentioned values k
      ]

  later-Knows : (v : Value) (values : List Value) → Knows (v ∷ values) → Knows values
  later-Knows v values h k mentioned = h k (later (variable_named v) k mentioned)
    where
      later :
          (name : Option String) (k : String)
          → is_mentioned values k ≡ true
          → (elim name [ none ↦ is_mentioned values k | some n ↦ n == k || is_mentioned values k ])
            ≡ true
      later none k t = t
      later (some n) k t = ground arith

  observe_all-done :
      (values : List Value) (usages : List VariableDefinition)
      → Knows values
      → (final : List VariableDefinition) × (observe_all m usages values ≡ done final)
  unfolding observe_all
  observe_all-done [] usages h = (usages, refl)
  observe_all-done (v ∷ values) usages h =
      let (next, step) = step-done usages v values (variable_named v) refl h in
      let (final, rest) = observe_all-done values next (later-Knows v values h) in
      (final, ap (λ o. o >>= λ u. observe_all m u values) step ∙ rest)

-- `getVariableUsages` returns, and does not panic, if every variable that a value of the fetch
-- mentions is among the definitions of the operation.
pub get_variable_usages-done :
    (defs : List VariableDefinition) (values : List Value)
    → ((k : String) → is_mentioned values k ≡ true → is_used defs k ≡ true)
    → (usages : List VariableDefinition) × (get_variable_usages (index_by_name [] defs) values
        ≡ done usages)
unfolding get_variable_usages
get_variable_usages-done defs values h =
    observe_all-done (index_by_name [] defs) values []
      (λ k t. lookup-index_by_name k [] defs ∙ h k t)
