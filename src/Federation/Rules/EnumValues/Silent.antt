-- ===== src/Federation/Rules/EnumValues/Silent.antt =====
-- `duplicateEnumValue`: when it finds no error.
use fedeway.Prelude.{
  String, true, not, ◌||◌, List, [], ◌∷◌, ◌++◌, ◌==◌, inl, inr, ◌≡◌, refl, sym, ap, ◌∙◌,
}
use fedeway.Ast.{enum, Definition}
use fedeway.Federation.Document.{ServiceDefinition}
use fedeway.Federation.Rules.Base.{is_silent, is_silent-append}
use fedeway.Federation.Rules.EnumValues.{
  EnumMap, values_of, value_names, enum_nodes, duplicate_enum_value,
}
use fedeway.Federation.Rules.EnumValues.Nodes.{
  is_fresh_node, is_fresh_enum, is_enum-cases, both, and_true, or_true, own, after,
  enum_nodes-skips, enum_nodes-of_enum, is_fresh_enum-of_enum, enum_nodes-append,
}

module _ (service : String) where
  -- For every enum name, the values after service those of the map are fresh.
  abbrev AllFresh : EnumMap → List Definition → Type 0
  AllFresh enums ds = (name : String) → is_fresh_enum name (values_of enums name) ds ≡ true

  AllFresh-of_enum :
      (enums : EnumMap) (d : Definition) (ds : List Definition)
      → d.kind ≡ enum
      → AllFresh enums (d ∷ ds)
      → (is_fresh_node (values_of enums d.name) (value_names d) ≡ true)
        × AllFresh (after service enums d) ds
  AllFresh-of_enum enums d ds e h =
      let fresh = is_fresh_node (values_of enums d.name) (value_names d) in
      let parts = λ (name : String).
        both (not (d.name == name) || fresh)
          (is_fresh_enum name (values_of (after service enums d) name) ds)
          (sym (is_fresh_enum-of_enum service enums d ds name e) ∙ h name) in
      (own d.name fresh (parts d.name).0, λ name. (parts name).1)

  enum_nodes-AllFresh :
      (enums : EnumMap) (ds : List Definition)
      → (is_silent (enum_nodes service enums ds).0 ≡ true → AllFresh enums ds)
        × (AllFresh enums ds → is_silent (enum_nodes service enums ds).0 ≡ true)
  unfolding enum_nodes
  enum_nodes-AllFresh enums [] = (λ h name. refl, λ h. refl)
  enum_nodes-AllFresh enums (d ∷ ds) = elim (is_enum-cases d.kind) [
    | inl e ↦
        let (there, back) = enum_nodes-AllFresh (after service enums d) ds in
        let (now, _) = enum_nodes-of_enum service enums d ds e in
        let fresh = is_fresh_node (values_of enums d.name) (value_names d) in
        let later = is_silent (enum_nodes service (after service enums d) ds).0 in
        (
          λ h name.
              let (one, others) = both fresh later (sym now ∙ h) in
              is_fresh_enum-of_enum service enums d ds name e
              ∙ and_true (or_true (not (d.name == name)) one) (there others name),
          λ h.
              let (one, others) = AllFresh-of_enum enums d ds e h in
              now ∙ and_true one (back others),
        )
    | inr h ↦
        let (there, back) = enum_nodes-AllFresh enums ds in
        let skips = ap (λ r. is_silent r.0) (enum_nodes-skips service enums d ds d.kind refl h) in
        (λ t name. rw h (there (sym skips ∙ t) name), λ t. skips ∙ back (λ name. rw h at t name))
  ]

-- `duplicateEnumValue` finds no error exactly if, of the enums of every one name, in the
-- definitions and then in the extensions, no value after service the first node that has values is a value
-- of an earlier node or twice in its own.
pub duplicate_enum_value-silent :
    (service : ServiceDefinition)
    → (is_silent (duplicate_enum_value service) ≡ true
        → (name : String)
        → is_fresh_enum name [] (service.type_defs.definitions ++ service.type_defs.extensions)
          ≡ true)
      × (((name : String)
            → is_fresh_enum name [] (service.type_defs.definitions ++ service.type_defs.extensions)
              ≡ true)
          → is_silent (duplicate_enum_value service) ≡ true)
unfolding duplicate_enum_value
duplicate_enum_value-silent service =
    let ds = service.type_defs.definitions in
    let es = service.type_defs.extensions in
    let first = enum_nodes service.name [] ds in
    let whole =
      is_silent-append first.0 (enum_nodes service.name first.1 es).0
      ∙ sym (enum_nodes-append service.name [] ds es) in
    let (there, back) = enum_nodes-AllFresh service.name [] (ds ++ es) in
    (λ h. there (sym whole ∙ h), λ h. whole ∙ back h)
