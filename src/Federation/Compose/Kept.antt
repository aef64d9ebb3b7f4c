-- ===== src/Federation/Compose/Kept.antt =====
-- What the loops over a document do to the definitions and the extensions of one name.
use fedeway.Prelude.{
  String, Bool, true, false, not, List, [], ◌∷◌, ◌++◌, append-nil, append_assoc, filter, lookup,
  assign, ◌==◌, if◌then◌else◌, Bool-cases, inl, inr, ◌≡◌, refl, sym, ap, ◌∙◌, subst,
}
use fedeway.Outcome.{Outcome}
use fedeway.Ast.{GqlType, Directive, Definition, SelectionSet}
use fedeway.Federation.Document.{DirectiveDefinition, ServiceDefinition}
use fedeway.Federation.Utils.{is_nonempty}
use fedeway.Federation.Compose.Maps.{
  TypeDefinitionEntity, BuildMaps, list_at, is_passed_over, executable_locations,
}
use fedeway.Federation.Compose.{
  clean_doc, add_definition, add_definitions, add_extension, add_extensions, add_directives,
}
use fedeway.Federation.Compose.Tracking.{
  entities_named, as_entry, Tracks, add_definition-Tracks, lookup-append_to,
}

-- The extensions of the name that the services have, less those that are passed over.
abbrev pub all_extending :
    (List Directive → String → List Directive)
    → String
    → List ServiceDefinition
    → List TypeDefinitionEntity
all_extending for_names name [] = []
all_extending for_names name (s ∷ services) =
    entities_named name s.name
      (filter (λ d. not (is_passed_over d)) (clean_doc for_names s).extensions)
    ++ all_extending for_names name services

entities_named-cons :
    (name service : String) (d : Definition) (ds : List Definition)
    → (entities_named name service (d ∷ []) ++ entities_named name service ds)
      ≡ entities_named name service (d ∷ ds)
entities_named-cons name service d ds = elim (Bool-cases (d.name == name)) [
  | inl t ↦ rw t refl
  | inr t ↦ rw t refl
]

-- What a choice between two maps has.
of_choice :
    {A : Type 0} (f : BuildMaps → A) (b : Bool) (x y : BuildMaps)
    → f x ≡ f y
    → f (if b then x else y) ≡ f y
of_choice f true x y e = e
of_choice f false x y e = refl

extending-cons :
    (name service : String) (d : Definition) (ds : List Definition)
    → (entities_named name service (filter (λ x. not (is_passed_over x)) (d ∷ []))
        ++ entities_named name service (filter (λ x. not (is_passed_over x)) ds))
      ≡ entities_named name service (filter (λ x. not (is_passed_over x)) (d ∷ ds))
extending-cons name service d ds = elim (Bool-cases (is_passed_over d)) [
  | inl t ↦ rw t refl
  | inr t ↦ rw t (entities_named-cons name service d (filter (λ x. not (is_passed_over x)) ds))
]

module _ (for_names : List Directive → String → List Directive) (type_string : GqlType → String)
    (parse_selections : String → Outcome SelectionSet) (name : String) where
  abbrev pub Knows : List TypeDefinitionEntity → List TypeDefinitionEntity → BuildMaps → Type 0
  Knows defs exts m =
      Tracks for_names type_string parse_selections name defs m
      × (lookup name m.type_extensions ≡ as_entry exts)

  module _ (service : String) where
    pub add_definitions-Tracks :
        (ds : List Definition) (es : List TypeDefinitionEntity) (m : BuildMaps)
        → Tracks for_names type_string parse_selections name es m
        → Tracks for_names type_string parse_selections name
            (es ++ entities_named name service ds)
            (add_definitions for_names type_string parse_selections service ds m)
    unfolding add_definitions
    add_definitions-Tracks [] es m h =
        subst (λ xs. Tracks for_names type_string parse_selections name xs m) (sym (append-nil es))
          h
    add_definitions-Tracks (d ∷ ds) es m h =
        let next = add_definition for_names type_string parse_selections service d m in
        subst
          (λ xs.
            Tracks for_names type_string parse_selections name xs
              (add_definitions for_names type_string parse_selections service ds next))
          (append_assoc es (entities_named name service (d ∷ [])) (entities_named name service ds)
            ∙ ap (λ xs. es ++ xs) (entities_named-cons name service d ds))
          (add_definitions-Tracks ds (es ++ entities_named name service (d ∷ [])) next
            (add_definition-Tracks for_names type_string parse_selections name service d es m h))

    pub add_definitions-extensions :
        (ds : List Definition) (m : BuildMaps)
        → (add_definitions for_names type_string parse_selections service ds m).type_extensions
          ≡ m.type_extensions
    unfolding add_definitions add_definition
    add_definitions-extensions [] m = refl
    add_definitions-extensions (d ∷ ds) m =
        add_definitions-extensions ds
          (add_definition for_names type_string parse_selections service d m)

    add_extension-keeps :
        (d : Definition) (m : BuildMaps)
        → ((add_extension for_names type_string parse_selections service d m).type_definitions
            ≡ m.type_definitions)
          × ((add_extension for_names type_string parse_selections service d m).value_types
              ≡ m.value_types)
    unfolding add_extension
    add_extension-keeps d m = elim (Bool-cases (is_passed_over d)) [
      | inl t ↦ rw t (refl, refl)
      | inr t ↦ rw t (refl, refl)
    ]

    pub add_extensions-keeps :
        (ds : List Definition) (m : BuildMaps)
        → ((add_extensions for_names type_string parse_selections service ds m).type_definitions
            ≡ m.type_definitions)
          × ((add_extensions for_names type_string parse_selections service ds m).value_types
              ≡ m.value_types)
    unfolding add_extensions
    add_extensions-keeps [] m = (refl, refl)
    add_extensions-keeps (d ∷ ds) m =
        let next = add_extension for_names type_string parse_selections service d m in
        let (defs, values) = add_extensions-keeps ds next in
        let (defs_here, values_here) = add_extension-keeps d m in
        (defs ∙ defs_here, values ∙ values_here)

    add_extension-extending :
        (d : Definition) (es : List TypeDefinitionEntity) (m : BuildMaps)
        → lookup name m.type_extensions ≡ as_entry es
        → lookup name
            (add_extension for_names type_string parse_selections service d m).type_extensions
          ≡ as_entry
              (es ++ entities_named name service (filter (λ x. not (is_passed_over x)) (d ∷ [])))
    unfolding add_extension
    add_extension-extending d es m h = elim (Bool-cases (is_passed_over d)) [
      | inl t ↦ rw t (h ∙ ap as_entry (sym (append-nil es)))
      | inr t ↦ rw t (lookup-append_to name service d es m.type_extensions h)
    ]

    pub add_extensions-extending :
        (ds : List Definition) (es : List TypeDefinitionEntity) (m : BuildMaps)
        → lookup name m.type_extensions ≡ as_entry es
        → lookup name
            (add_extensions for_names type_string parse_selections service ds m).type_extensions
          ≡ as_entry (es ++ entities_named name service (filter (λ x. not (is_passed_over x)) ds))
    unfolding add_extensions
    add_extensions-extending [] es m h = h ∙ ap as_entry (sym (append-nil es))
    add_extensions-extending (d ∷ ds) es m h =
        let next = add_extension for_names type_string parse_selections service d m in
        let here = entities_named name service (filter (λ x. not (is_passed_over x)) (d ∷ [])) in
        add_extensions-extending ds (es ++ here) next (add_extension-extending d es m h)
        ∙ ap as_entry
            (append_assoc es here _ ∙ ap (λ xs. es ++ xs) (extending-cons name service d ds))

    pub add_directives-keeps :
        {A : Type 0} (f : BuildMaps → A)
        → ((m : BuildMaps) (ds : List (String × List (String × DirectiveDefinition)))
            → f (record m { directive_definitions = ds }) ≡ f m)
        → (ds : List DirectiveDefinition) (m : BuildMaps)
        → f (add_directives for_names type_string parse_selections service ds m) ≡ f m
    unfolding add_directives
    add_directives-keeps f blind [] m = refl
    add_directives-keeps f blind (d ∷ ds) m =
        let locations = executable_locations d.locations in
        let kept =
          assign service (record d { locations = locations })
            (list_at d.name m.directive_definitions) in
        let added = record m {
          directive_definitions = assign d.name kept m.directive_definitions;
        } in
        add_directives-keeps f blind ds (if is_nonempty locations then added else m)
        ∙ of_choice f (is_nonempty locations) added m
            (blind m (assign d.name kept m.directive_definitions))
