-- ===== src/Planner/Splitting/Roots/Acyclic.antt =====
-- Which groups of a split depend on which.
use fedeway.Prelude.{
  ℕ, suc, ◌<◌, String, Bool, Option, some, some_eq, List, [], Memᴰ, All-mem, ◌≡◌, sym, ◌∙◌, arith,
}
use fedeway.Outcome.{Outcome, done}
use fedeway.Ast.{GqlType, SelectionSet}
use fedeway.Plan.{ResponsePath}
use fedeway.Planner.Scope.{Scope}
use fedeway.Planner.Grouping.{Field}
use fedeway.Planner.Context.{PlanningContext}
use fedeway.Planner.Groups.{FetchGroup, Store, at_index, dependent_groups}
use fedeway.Planner.Groups.Levels.{IsLevelled, dependent_groups-AreOf}
use fedeway.Planner.Groups.Levels.Steps.{IsLevelled-at}
use fedeway.Planner.Splitting.Roots.Levels.{split_groups, split_groups-HasLevels}

-- The second group is a dependent group of the first, or one of a group that depends on it so.
pub data Reaches (groups : List FetchGroup) : ℕ → ℕ → Type 0 where
  direct :
      {from to : ℕ} (g : FetchGroup)
      → at_index from groups ≡ some g
      → Memᴰ to (dependent_groups g)
      → Reaches groups from to
  further :
      {from via to : ℕ} → Reaches groups from via → Reaches groups via to → Reaches groups from to

module _ (ls : List ℕ) (s : Store) (levelled : IsLevelled ls s) where
  Reaches-lt :
      {from to : ℕ}
      → Reaches s.groups from to
      → (l : ℕ) × (m : ℕ) × (at_index from ls ≡ some l) × (at_index to ls ≡ some m) × (l < m)
  Reaches-lt {from} {to} (direct g at mem) =
      let (l, here, links) = IsLevelled-at ls s from g levelled at in
      let next =
        All-mem (λ r. at_index r ls ≡ some (suc l)) to (dependent_groups g)
          (dependent_groups-AreOf ls (suc l) g links) mem in
      (l, suc l, here, next, omega arith)
  Reaches-lt (further a b) =
      let (l, m, from_l, via_m, lt) = Reaches-lt a in
      let (n, k, via_n, to_k, lt2) = Reaches-lt b in
      let same : m ≡ n = some_eq (sym via_m ∙ via_n) in
      (l, k, from_l, to_k, omega (arith, lt, lt2, same))

  Reaches-irreflexive : (ref : ℕ) → ¬ Reaches s.groups ref ref
  Reaches-irreflexive ref r =
      let (l, m, at_l, at_m, lt) = Reaches-lt r in
      let same : l ≡ m = some_eq (sym at_l ∙ at_m) in omega (arith, lt, same)

module _ (qpctx : PlanningContext) (type_name : GqlType → String)
    (path_string : ResponsePath → String) (key : Scope → Option String)
    (marshal : SelectionSet → Outcome String) where
  -- Among the groups that `splitRootFields` or `splitRootFieldsSerially` leaves in a store that had
  -- none, no group depends on itself, at once or through others.
  pub split_groups-acyclic :
      (serially : Bool) (fuel depth : ℕ) (fields : List Field) (s t : Store) (refs : List ℕ)
      → s.groups ≡ []
      → split_groups qpctx type_name path_string key marshal fuel depth fields serially s
        ≡ done (refs, t)
      → (ref : ℕ) → ¬ Reaches t.groups ref ref
  split_groups-acyclic serially fuel depth fields s t refs start e =
      let (ls, levelled) =
        split_groups-HasLevels qpctx type_name path_string key marshal fuel depth fields serially s
          t refs start e in
      Reaches-irreflexive ls t levelled
