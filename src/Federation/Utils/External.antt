-- ===== src/Federation/Utils/External.antt =====
-- `stripExternalFieldsFromTypeDefs`: nothing external is left to strip.
use fedeway.Prelude.{
  String, true, not, List, [], ◌∷◌, ◌++◌, filter, filter-filter, All, All-filter, Bool-cases, inl,
  inr, ◌≡◌, refl, ap, ap₂, arith,
}
use fedeway.Ast.{Directive, FieldDefinition, Definition}
use fedeway.Federation.Document.{SchemaDocument}
use fedeway.Federation.Utils.{
  ExternalField, has_fields, is_external, external_fields, strip_node, strip_nodes,
  strip_external_fields,
}

module _ (for_names : List Directive → String → List Directive) where
  external_fields_none :
      (service : String) (node : Definition) (fields : List FieldDefinition)
      → All (λ f. not (is_external for_names f) ≡ true) fields
      → external_fields for_names service node fields ≡ []
  external_fields_none service node [] h = refl
  external_fields_none service node (f ∷ fields) h =
      ground (arith, external_fields_none service node fields h.1)

  strip_node_idempotent :
      (service : String) (node : Definition)
      → strip_node for_names service (strip_node for_names service node).0
        ≡ ((strip_node for_names service node).0, [])
  unfolding strip_node
  strip_node_idempotent service node = elim (Bool-cases (has_fields node.kind)) [
    | inl k ↦
        let kept = λ (f : FieldDefinition). not (is_external for_names f) in
        let clean = record node { fields = filter kept node.fields } in
        rw (k, k)
          (ap₂ (λ fs xs. (record node { fields = fs }, xs)) (filter-filter kept node.fields)
            (external_fields_none service clean (filter kept node.fields)
              (All-filter kept node.fields)))
    | inr k ↦ rw (k, k) refl
  ]

  strip_nodes_idempotent :
      (service : String) (nodes : List Definition)
      → strip_nodes for_names service (strip_nodes for_names service nodes).0
        ≡ ((strip_nodes for_names service nodes).0, [])
  unfolding strip_nodes
  strip_nodes_idempotent service [] = refl
  strip_nodes_idempotent service (node ∷ nodes) =
      ap₂
        (λ (a : Definition × List ExternalField) (b : List Definition × List ExternalField).
          (a.0 ∷ b.0, a.1 ++ b.1))
        (strip_node_idempotent service node) (strip_nodes_idempotent service nodes)

  -- A document without its external fields has none that can be stripped.
  pub strip_external_fields_idempotent :
      (doc : SchemaDocument) (service : String)
      → strip_external_fields for_names (strip_external_fields for_names doc service).0 service
        ≡ ((strip_external_fields for_names doc service).0, [])
  unfolding strip_external_fields
  strip_external_fields_idempotent doc service =
      ap (λ (r : List Definition × List ExternalField). (record doc { extensions = r.0 }, r.1))
        (strip_nodes_idempotent service doc.extensions)
