-- ===== src/Federation/Compose/Owners.antt =====
-- Who owns a type and a field of an extension, after `buildMapsFromServiceList`.
use fedeway.Prelude.{
  String, none, some, List, [], ◌∷◌, ◌++◌, lookup, if◌then◌else◌, ◌≡◌, sym, ap, ◌∙◌,
}
use fedeway.Outcome.{Outcome, done, bind-eq-done, done_eq}
use fedeway.Ast.{GqlType, Directive, SelectionSet}
use fedeway.Federation.Document.{ServiceDefinition}
use fedeway.Federation.Utils.{strip_external_fields}
use fedeway.Federation.Compose.Maps.{BuildMaps, no_maps, entry_of}
use fedeway.Federation.Compose.{
  clean_doc, add_all_keys, add_definitions, add_extensions, add_document, add_service, add_services,
  build_maps,
}
use fedeway.Federation.Compose.Entries.{defines, declares_for}
use fedeway.Federation.Compose.Ownership.{
  owner_at, field_owner_at, add_definitions-owner, add_extensions-owner, add_directives-types,
  last_definer, last_extender,
}

module _ (for_names : List Directive → String → List Directive) (type_string : GqlType → String)
    (parse_selections : String → Outcome SelectionSet) (name field : String) where
  -- One service in the loop.
  add_service-owner :
      (s : ServiceDefinition) (m after : BuildMaps)
      → add_service for_names type_string parse_selections s m ≡ done after
      → (owner_at name after
          ≡ (if defines name (clean_doc for_names s).definitions then s.name else owner_at name m))
        × (field_owner_at name field after ≡ (
            if declares_for name field (clean_doc for_names s).extensions
            then some s.name
            else field_owner_at name field m))
  unfolding add_service add_document
  add_service-owner s m after h =
      let doc = clean_doc for_names s in
      let (keys, made, h1) =
        bind-eq-done
          (add_all_keys for_names type_string parse_selections s.name
            (doc.definitions ++ doc.extensions) m.key_directives)
          _ h in
      let start = record m {
        external_fields =
            m.external_fields ++ (strip_external_fields for_names s.type_defs s.name).1;
        key_directives = keys;
      } in
      let defined =
        add_definitions for_names type_string parse_selections s.name doc.definitions start in
      let extended =
        add_extensions for_names type_string parse_selections s.name doc.extensions defined in
      let types =
        ap (λ (b : BuildMaps). b.type_to_service) (sym (done_eq h1))
        ∙ add_directives-types for_names type_string parse_selections name field s.name
            doc.directives extended in
      let (owner, field_kept) =
        add_definitions-owner for_names type_string parse_selections name field s.name
          doc.definitions start in
      let (owner_kept, field_owner) =
        add_extensions-owner for_names type_string parse_selections name field s.name doc.extensions
          defined in
      (
        ap (λ t. (entry_of name t).owning_service) types ∙ owner_kept ∙ owner,
        ap (λ t. lookup field (entry_of name t).extension_fields) types
            ∙ field_owner
            ∙ ap (λ o. if declares_for name field doc.extensions then some s.name else o)
                field_kept,
      )

  add_services-owner :
      (services : List ServiceDefinition) (m after : BuildMaps)
      → add_services for_names type_string parse_selections services m ≡ done after
      → (owner_at name after ≡ last_definer for_names name services (owner_at name m))
        × (field_owner_at name field after
            ≡ last_extender for_names name field services (field_owner_at name field m))
  unfolding add_services
  add_services-owner [] m after h =
      (ap (owner_at name) (sym (done_eq h)), ap (field_owner_at name field) (sym (done_eq h)))
  add_services-owner (s ∷ services) m after h =
      let (next, first, rest) =
        bind-eq-done (add_service for_names type_string parse_selections s m) _ h in
      let (owner, field_owner) = add_services-owner services next after rest in
      let (owner_here, field_here) = add_service-owner s m next first in
      (
        owner ∙ ap (last_definer for_names name services) owner_here,
        field_owner ∙ ap (last_extender for_names name field services) field_here,
      )

  -- Where `buildMapsFromServiceList` returns, the owner of a type is the last service that defines
  -- it, and the owner of a field is the last service that has it in an extension of the type, if
  -- one does; external fields do not count, and an enum's values stand for its fields.
  pub build_maps-owners :
      (services : List ServiceDefinition) (m : BuildMaps)
      → build_maps for_names type_string parse_selections services ≡ done m
      → (owner_at name m ≡ last_definer for_names name services "")
        × (field_owner_at name field m ≡ last_extender for_names name field services none)
  unfolding build_maps
  build_maps-owners services m h =
      let (built, made, h1) =
        bind-eq-done (add_services for_names type_string parse_selections services no_maps) _ h in
      let (owner, field_owner) = add_services-owner services no_maps built made in
      (
        ap (owner_at name) (sym (done_eq h1)) ∙ owner,
        ap (field_owner_at name field) (sym (done_eq h1)) ∙ field_owner,
      )
