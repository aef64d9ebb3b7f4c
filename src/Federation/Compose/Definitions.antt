-- ===== src/Federation/Compose/Definitions.antt =====
-- The definitions of a type and whether it is a value type, after `buildMapsFromServiceList`.
use fedeway.Prelude.{String, is_some, List, [], ◌∷◌, contains, lookup, ◌≡◌, refl, sym, ap, ◌∙◌}
use fedeway.Outcome.{Outcome, done, bind-eq-done, done_eq}
use fedeway.Ast.{GqlType, Directive, SelectionSet}
use fedeway.Federation.Document.{ServiceDefinition}
use fedeway.Federation.Utils.{is_nonempty}
use fedeway.Federation.Compose.Maps.{BuildMaps, no_maps}
use fedeway.Federation.Compose.{add_services, build_maps}
use fedeway.Federation.Compose.Tracking.{all_named, as_entry, has_equal_neighbours}
use fedeway.Federation.Compose.Kept.{all_extending}
use fedeway.Federation.Compose.Loops.{add_services-Knows}
use fedeway.Federation.Compose.RootTypes.{or_root, with_root_types-lookup}

is_some-as_entry {ℓ} : {A : Type ℓ} (xs : List A) → is_some (as_entry xs) ≡ is_nonempty xs
is_some-as_entry [] = refl
is_some-as_entry (x ∷ xs) = refl

module _ (for_names : List Directive → String → List Directive) (type_string : GqlType → String)
    (parse_selections : String → Outcome SelectionSet) where
  -- Where `buildMapsFromServiceList` returns, the map of type definitions has, under each name, the
  -- definitions of that name that the services have, in their order; an empty Query if no service
  -- defines it, and an empty Mutation if it is extended only; and a name is a value type exactly if
  -- two neighbours among its definitions are equivalent.
  pub build_maps-definitions :
      (services : List ServiceDefinition) (m : BuildMaps)
      → build_maps for_names type_string parse_selections services ≡ done m
      → (name : String)
      → (lookup name m.type_definitions
          ≡ as_entry (
              or_root
                (is_nonempty (all_extending for_names "Mutation" services))
                name
                (all_named for_names name services)))
        × (contains m.value_types name
            ≡ has_equal_neighbours type_string (all_named for_names name services))
  unfolding build_maps
  build_maps-definitions services m h name =
      let (built, made, h1) =
        bind-eq-done (add_services for_names type_string parse_selections services no_maps) _ h in
      let ((defs, values), _) =
        add_services-Knows for_names type_string parse_selections name services [] [] no_maps built
          ((refl, refl), refl) made in
      let (_, extending) =
        add_services-Knows for_names type_string parse_selections "Mutation" services [] [] no_maps
          built ((refl, refl), refl) made in
      (
        ap (λ (b : BuildMaps). lookup name b.type_definitions) (sym (done_eq h1))
            ∙ with_root_types-lookup name (all_named for_names name services) built defs
            ∙ ap (λ b. as_entry (or_root b name (all_named for_names name services)))
                (ap is_some extending
                  ∙ is_some-as_entry (all_extending for_names "Mutation" services)),
        ap (λ (b : BuildMaps). contains b.value_types name) (sym (done_eq h1)) ∙ values,
      )
