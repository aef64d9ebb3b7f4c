-- ===== src/Examples/Fetching.antt =====
-- One fetch of two entities of which the second is null.
use fedeway.Prelude.{none, [], ◌∷◌, decimal, ◌≡◌, refl}
use fedeway.Ast.{Schema}
use fedeway.Json.{null, str, obj, Items, nil, cons, Members, end, member}
use fedeway.Plan.{PlanSelections, plan_field, none_selected, selected}
use fedeway.Engine.Fetch.{Representations}

decimal_test : decimal 1207 ≡ "1207"
decimal_test = refl

abbrev pub no_schema : Schema
no_schema = record {
  query = none;
  mutation = none;
  subscription = none;
  types = λ name. none;
  possible_types = λ def. [];
}

abbrev pub user : Members
user = member "__typename" (str "User") (member "id" (str "1") end)

abbrev pub entities : Items
entities = cons null (cons (obj user) nil)

abbrev pub required : PlanSelections
required =
    selected (plan_field "" "__typename" none_selected)
      (selected (plan_field "" "id" none_selected) none_selected)

abbrev representations : Representations
representations = (user, 1) ∷ []

abbrev pub received : Items
received = cons (obj (member "name" (str "Ada") end)) nil

abbrev pub merged : Items
merged = cons null (
    cons
      (obj
        (member "__typename" (str "User") (member "id" (str "1") (member "name" (str "Ada") end))))
      nil)
