-- ===== src/Federation/Normalize/Extends.antt =====
-- `replaceExtendedDefinitionsWithExtensions`: which nodes become extensions.
use fedeway.Prelude.{
  Bool, true, false, not, List, [], ◌∷◌, filter, all, All, All-map, Memᴰ, ◌==◌, if◌then◌else◌,
  Bool-cases, inl, inr, ◌≡◌, refl, ap, ◌∙◌, arith,
}
use fedeway.Ast.{Directive, Definition}
use fedeway.Federation.Document.{SchemaDocument, find_directives_on_node, stay}
use fedeway.Federation.Document.Placing.{
  InDefinitions, InExtensions, definitions-process, extensions-process, process_stay,
  mem-extensions_process, mem-definitions_process,
}
use fedeway.Federation.Normalize.{
  is_nonempty, is_object_or_interface, place_extended, replace_extended_definitions_with_extensions,
}

abbrev is_extends : Directive → Bool
is_extends d = d.name == "extends"

-- An object or an interface with `@extends` has no other directive.
abbrev pub ExtendsAlone : Definition → Type 0
ExtendsAlone d =
    is_object_or_interface d.kind ≡ true
    → is_nonempty (filter is_extends d.directives) ≡ true
    → filter (λ e. not (is_extends e)) d.directives ≡ []

is_nonempty-false {ℓ} : {A : Type ℓ} (xs : List A) → is_nonempty xs ≡ false → xs ≡ []
is_nonempty-false [] h = refl
is_nonempty-false (x ∷ xs) h = ground arith

in_both :
    (b : Bool) (d : Definition)
    → ExtendsAlone d
    → InDefinitions ExtendsAlone (stay b d) × InExtensions ExtendsAlone (stay b d)
in_both true d h = (tt, h)
in_both false d h = (h, tt)

-- No directive of the copy is `@extends`.
no_extends_left :
    (ds : List Directive) → filter is_extends (filter (λ d. not (is_extends d)) ds) ≡ []
no_extends_left [] = refl
no_extends_left (d ∷ ds) = ground (arith, no_extends_left ds)

place_extended-ExtendsAlone :
    (b : Bool) (d : Definition)
    → InDefinitions ExtendsAlone (place_extended b d)
      × InExtensions ExtendsAlone (place_extended b d)
unfolding place_extended find_directives_on_node
place_extended-ExtendsAlone b d = elim (Bool-cases (is_object_or_interface d.kind)) [
  | inr plain ↦ rw plain (in_both b d (λ k more. ground (arith, plain, k)))
  | inl k ↦ elim (Bool-cases (is_nonempty (filter is_extends d.directives))) [
    | inr none_there ↦ rw (k, none_there) (in_both b d (λ l more. ground (arith, none_there, more)))
    | inl there ↦ elim (Bool-cases (is_nonempty (filter (λ e. not (is_extends e)) d.directives))) [
      | inl more ↦
          rw (k, there, more)
            (
              tt,
              λ l extends. ground (arith, ap is_nonempty (no_extends_left d.directives), extends),
            )
      | inr alone ↦ rw (k, there, alone) (in_both b d (λ l extends. is_nonempty-false _ alone))
    ]
  ]
]

ExtendsAlone-stay : (b : Bool) (d : Definition) → ExtendsAlone d → place_extended b d ≡ stay b d
unfolding place_extended find_directives_on_node
ExtendsAlone-stay b d h = elim (Bool-cases (is_object_or_interface d.kind)) [
  | inr plain ↦ rw plain refl
  | inl k ↦ elim (Bool-cases (is_nonempty (filter is_extends d.directives))) [
    | inr none_there ↦ rw (k, none_there) refl
    | inl there ↦ rw (k, there, h k there) refl
  ]
]

-- After `replaceExtendedDefinitionsWithExtensions` an object or an interface that still has
-- `@extends`, among the definitions or the extensions, has no other directive.
replace_extended-ExtendsAlone :
    (doc : SchemaDocument)
    → All ExtendsAlone (replace_extended_definitions_with_extensions doc).definitions
      × All ExtendsAlone (replace_extended_definitions_with_extensions doc).extensions
unfolding replace_extended_definitions_with_extensions
replace_extended-ExtendsAlone doc = (
  definitions-process place_extended doc ExtendsAlone (λ b d. (place_extended-ExtendsAlone b d).0),
  extensions-process place_extended doc ExtendsAlone (λ b d. (place_extended-ExtendsAlone b d).1),
)

-- Doing it twice is doing it once.
pub replace_extended_idempotent :
    (doc : SchemaDocument)
    → replace_extended_definitions_with_extensions
        (replace_extended_definitions_with_extensions doc)
      ≡ replace_extended_definitions_with_extensions doc
unfolding replace_extended_definitions_with_extensions
replace_extended_idempotent doc =
    let done = replace_extended_definitions_with_extensions doc in
    let (ds, es) = replace_extended-ExtendsAlone doc in
    process_stay place_extended done (All-map done.definitions (ExtendsAlone-stay false) ds)
      (All-map done.extensions (ExtendsAlone-stay true) es)

others_left :
    (ds : List Directive)
    → is_nonempty (filter (λ e. not (is_extends e)) ds) ≡ not (all is_extends ds)
others_left [] = refl
others_left (d ∷ ds) = ground (arith, others_left ds)

-- A definition of an object or an interface with `@extends` becomes an extension without it if it
-- has some other directive, and stays a definition, `@extends` with it, if it has none.
pub replace_extended-moves :
    (doc : SchemaDocument) (d : Definition)
    → Memᴰ d doc.definitions
    → is_object_or_interface d.kind ≡ true
    → is_nonempty (find_directives_on_node d "extends") ≡ true
    → if all is_extends d.directives
      then Memᴰ d (replace_extended_definitions_with_extensions doc).definitions
      else Memᴰ
          (record d { directives = filter (λ e. not (e.name == "extends")) d.directives })
          (replace_extended_definitions_with_extensions doc).extensions
unfolding replace_extended_definitions_with_extensions place_extended
replace_extended-moves doc d m k there = elim (Bool-cases (all is_extends d.directives)) [
  | inl alone ↦
      let left = others_left d.directives ∙ ap not alone in
      rw alone (mem-definitions_process place_extended doc d d m (rw (k, there, left) refl))
  | inr more ↦
      let left = others_left d.directives ∙ ap not more in
      rw more (
        mem-extensions_process place_extended doc d
          (record d { directives = filter (λ e. not (e.name == "extends")) d.directives }) m
          (rw (k, there, left) refl))
]
