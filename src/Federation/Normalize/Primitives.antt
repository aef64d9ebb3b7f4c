-- ===== src/Federation/Normalize/Primitives.antt =====
-- `stripCommonPrimitives`: nothing of federation's own vocabulary is left.
use fedeway.Prelude.{
  String, Bool, true, false, not, ◌&&◌, ◌||◌, List, [], ◌∷◌, filter, any, All, All-map, All-filter,
  filter-filter, contains, ◌==◌, ◌≡◌, refl, ap, ◌∙◌, arith,
}
use fedeway.Ast.{
  Kind, scalar, object, interface, union, enum, input_object, FieldDefinition, Definition,
}
use fedeway.Federation.Document.{
  DirectiveDefinition, SchemaDocument, Placed, as_definition, as_extension, dropped, stay, process,
}
use fedeway.Federation.Document.Placing.{
  InDefinitions, InExtensions, definitions-process, extensions-process, process_stay,
}
use fedeway.Federation.Normalize.{
  is_nonempty, is_federation_field, place_by_kind, place_unless_primitive, is_known_directive,
  strip_common_primitives,
}

-- What federation adds to a schema: `_Service`, the fields of `Query`, its scalars and its union,
-- and a `Query` type with nothing else in it.
abbrev pub is_primitive : Kind → String → List FieldDefinition → Bool
is_primitive object name fields =
    name == "_Service"
    || (name == "Query" && (any is_federation_field fields || not (is_nonempty fields)))
is_primitive scalar name fields = contains ("_Any" ∷ "_FieldSet" ∷ []) name
is_primitive union name fields = name == "_Entity"
is_primitive _ name fields = false

abbrev pub IsFree : Definition → Type 0
IsFree d = is_primitive d.kind d.name d.fields ≡ false

no_federation_fields :
    (fields : List FieldDefinition)
    → any is_federation_field (filter (λ f. not (is_federation_field f)) fields) ≡ false
no_federation_fields [] = refl
no_federation_fields (f ∷ fs) = ground (arith, no_federation_fields fs)

-- The node that is left, if one is, keeps its kind and is free of primitives for a node of kind `k`.
abbrev FreeAs : Kind → Placed → Type 0
FreeAs k (as_definition d) = (d.kind ≡ k) × (is_primitive k d.name d.fields ≡ false)
FreeAs k (as_extension d) = (d.kind ≡ k) × (is_primitive k d.name d.fields ≡ false)
FreeAs k dropped = Unit

place_by_kind-FreeAs :
    (k : Kind) (b : Bool) (d : Definition) → d.kind ≡ k → FreeAs k (place_by_kind k b d)
place_by_kind-FreeAs object b d e = ground (arith, no_federation_fields d.fields)
place_by_kind-FreeAs scalar b d e = ground arith
place_by_kind-FreeAs interface b d e = ground arith
place_by_kind-FreeAs union b d e = ground arith
place_by_kind-FreeAs enum b d e = ground arith
place_by_kind-FreeAs input_object b d e = ground arith

in_both : (k : Kind) (p : Placed) → FreeAs k p → InDefinitions IsFree p × InExtensions IsFree p
in_both k (as_definition d) h = (rw h.0 h.1, tt)
in_both k (as_extension d) h = (tt, rw h.0 h.1)
in_both k dropped h = (tt, tt)

place-IsFree :
    (b : Bool) (d : Definition)
    → InDefinitions IsFree (place_unless_primitive b d)
      × InExtensions IsFree (place_unless_primitive b d)
unfolding place_unless_primitive
place-IsFree b d = in_both d.kind _ (place_by_kind-FreeAs d.kind b d refl)

abbrev known_removed : SchemaDocument → List DirectiveDefinition
known_removed doc = filter (λ d. not (is_known_directive d.name)) doc.directives

-- After `stripCommonPrimitives` no definition and no extension is one of federation's primitives:
-- there is no object `_Service`, no scalar `_Any` or `_FieldSet` and no union `_Entity`, `Query` has
-- no field `_service` or `_entities` and is not empty, and no directive definition is a known one.
pub strip_common_primitives-IsFree :
    (doc : SchemaDocument)
    → All IsFree (strip_common_primitives doc).definitions
      × All IsFree (strip_common_primitives doc).extensions
      × All (λ d. is_known_directive d.name ≡ false) (strip_common_primitives doc).directives
unfolding strip_common_primitives
strip_common_primitives-IsFree doc = (
  definitions-process place_unless_primitive (record doc { directives = known_removed doc }) IsFree
      (λ b d. (place-IsFree b d).0),
  extensions-process place_unless_primitive (record doc { directives = known_removed doc }) IsFree
      (λ b d. (place-IsFree b d).1),
  All-map (known_removed doc) (λ d h. ground arith)
      (All-filter (λ d. not (is_known_directive d.name)) doc.directives),
)

filter_federation_fields :
    (fields : List FieldDefinition)
    → any is_federation_field fields ≡ false
    → filter (λ f. not (is_federation_field f)) fields ≡ fields
filter_federation_fields [] h = refl
filter_federation_fields (f ∷ fs) h = ground (arith, filter_federation_fields fs)

place_by_kind-IsFree :
    (k : Kind) (b : Bool) (d : Definition)
    → is_primitive k d.name d.fields ≡ false
    → place_by_kind k b d ≡ stay b d
place_by_kind-IsFree object b d h = ground (arith, filter_federation_fields d.fields)
place_by_kind-IsFree scalar b d h = ground arith
place_by_kind-IsFree union b d h = ground arith
place_by_kind-IsFree _ b d h = refl

-- Stripping twice is stripping once.
pub strip_common_primitives_idempotent :
    (doc : SchemaDocument)
    → strip_common_primitives (strip_common_primitives doc) ≡ strip_common_primitives doc
unfolding strip_common_primitives place_unless_primitive
strip_common_primitives_idempotent doc =
    let known = λ (d : DirectiveDefinition). not (is_known_directive d.name) in
    let (ds, es, none_known) = strip_common_primitives-IsFree doc in
    let stripped = strip_common_primitives doc in
    let kept : filter known (filter known doc.directives) ≡ filter known doc.directives =
      filter-filter known doc.directives in
    ap (λ dirs. process place_unless_primitive (record stripped { directives = dirs })) kept
    ∙ process_stay place_unless_primitive stripped
        (All-map stripped.definitions (λ d h. place_by_kind-IsFree d.kind false d h) ds)
        (All-map stripped.extensions (λ d h. place_by_kind-IsFree d.kind true d h) es)
