-- ===== src/Federation/Compose/Loops.antt =====
-- The loops of `buildMapsFromServiceList`, as one name sees them.
use fedeway.Prelude.{
  String, not, List, [], ◌∷◌, ◌++◌, append-nil, append_assoc, contains, filter, lookup, ◌≡◌, refl,
  sym, ap, ◌∙◌, subst,
}
use fedeway.Outcome.{Outcome, done, bind-eq-done, done_eq}
use fedeway.Ast.{GqlType, Directive, SelectionSet}
use fedeway.Federation.Document.{SchemaDocument, ServiceDefinition}
use fedeway.Federation.Utils.{strip_external_fields}
use fedeway.Federation.Compose.Maps.{TypeDefinitionEntity, BuildMaps, is_passed_over}
use fedeway.Federation.Compose.{
  clean_doc, add_all_keys, add_definitions, add_extensions, add_document, add_service, add_services,
}
use fedeway.Federation.Compose.Tracking.{entities_named, all_named}
use fedeway.Federation.Compose.Kept.{
  all_extending, Knows, add_definitions-Tracks, add_definitions-extensions, add_extensions-keeps,
  add_extensions-extending, add_directives-keeps,
}

module _ (for_names : List Directive → String → List Directive) (type_string : GqlType → String)
    (parse_selections : String → Outcome SelectionSet) (name : String) where
  add_document-Knows :
      (service : String) (doc : SchemaDocument) (defs exts : List TypeDefinitionEntity)
      (m : BuildMaps)
      → Knows for_names type_string parse_selections name defs exts m
      → Knows for_names type_string parse_selections name
          (defs ++ entities_named name service doc.definitions)
          (exts
            ++ entities_named name service (filter (λ x. not (is_passed_over x)) doc.extensions))
          (add_document for_names type_string parse_selections service doc m)
  unfolding add_document
  add_document-Knows service doc defs exts m (tracks, extending) =
      let defined =
        add_definitions for_names type_string parse_selections service doc.definitions m in
      let extended =
        add_extensions for_names type_string parse_selections service doc.extensions defined in
      let (stored, valued) =
        add_definitions-Tracks for_names type_string parse_selections name service doc.definitions
          defs m tracks in
      let (kept, values_kept) =
        add_extensions-keeps for_names type_string parse_selections name service doc.extensions
          defined in
      let ds = doc.directives in
      (
        (
          ap (lookup name) (
                add_directives-keeps for_names type_string parse_selections name service
                  (λ (b : BuildMaps). b.type_definitions) (λ b x. refl) ds extended)
              ∙ ap (lookup name) kept
              ∙ stored,
          ap (λ vs. contains vs name)
                (add_directives-keeps for_names type_string parse_selections name service
                  (λ (b : BuildMaps). b.value_types) (λ b x. refl) ds extended)
              ∙ ap (λ vs. contains vs name) values_kept
              ∙ valued,
        ),
        ap (lookup name) (
              add_directives-keeps for_names type_string parse_selections name service
                (λ (b : BuildMaps). b.type_extensions) (λ b x. refl) ds extended)
            ∙ add_extensions-extending for_names type_string parse_selections name service
                doc.extensions exts defined
                (ap (lookup name) (
                    add_definitions-extensions for_names type_string parse_selections name service
                      doc.definitions m)
                  ∙ extending),
      )

  pub add_services-Knows :
      (services : List ServiceDefinition) (defs exts : List TypeDefinitionEntity)
      (m after : BuildMaps)
      → Knows for_names type_string parse_selections name defs exts m
      → add_services for_names type_string parse_selections services m ≡ done after
      → Knows for_names type_string parse_selections name
          (defs ++ all_named for_names name services)
          (exts ++ all_extending for_names name services)
          after
  unfolding add_services add_service
  add_services-Knows [] defs exts m after k h =
      let k' = subst (Knows for_names type_string parse_selections name defs exts) (done_eq h) k in
      subst (λ xs. Knows for_names type_string parse_selections name xs (exts ++ []) after)
        (sym (append-nil defs))
        (subst (λ xs. Knows for_names type_string parse_selections name defs xs after)
          (sym (append-nil exts)) k')
  add_services-Knows (s ∷ services) defs exts m after k h =
      let (next, first, rest) =
        bind-eq-done (add_service for_names type_string parse_selections s m) _ h in
      let doc = clean_doc for_names s in
      let (keys, made, h1) =
        bind-eq-done
          (add_all_keys for_names type_string parse_selections s.name
            (doc.definitions ++ doc.extensions) m.key_directives)
          _ first in
      let start = record m {
        external_fields =
            m.external_fields ++ (strip_external_fields for_names s.type_defs s.name).1;
        key_directives = keys;
      } in
      let here = entities_named name s.name doc.definitions in
      let extending =
        entities_named name s.name (filter (λ x. not (is_passed_over x)) doc.extensions) in
      let known =
        subst (Knows for_names type_string parse_selections name (defs ++ here) (exts ++ extending))
          (done_eq h1) (add_document-Knows s.name doc defs exts start k) in
      let later =
        add_services-Knows services (defs ++ here) (exts ++ extending) next after known rest in
      subst
        (λ xs.
          Knows for_names type_string parse_selections name xs
            (exts ++ (extending ++ all_extending for_names name services)) after)
        (append_assoc defs here (all_named for_names name services))
        (subst
          (λ xs.
            Knows for_names type_string parse_selections name
              ((defs ++ here) ++ all_named for_names name services) xs after)
          (append_assoc exts extending (all_extending for_names name services)) later)
