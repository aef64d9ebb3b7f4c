-- ===== src/Federation/Document/Placing.antt =====
-- What holds of the two lists that a pass over a document leaves.
use fedeway.Prelude.{
  Bool, true, false, List, [], ◌∷◌, ◌++◌, map, All, All-append, Memᴰ, ◌≡◌, refl, ap, ap₂, ◌∙◌,
  append-nil,
}
use fedeway.Ast.{Definition}
use fedeway.Federation.Document.{
  SchemaDocument, Placed, as_definition, as_extension, dropped, definitions_of, extensions_of,
  placements, process,
}

-- What a pass guarantees of the node that it puts among the definitions, or the extensions.
abbrev pub InDefinitions : (Definition → Type 0) → Placed → Type 0
InDefinitions P (as_definition d) = P d
InDefinitions P _ = Unit

abbrev pub InExtensions : (Definition → Type 0) → Placed → Type 0
InExtensions P (as_extension d) = P d
InExtensions P _ = Unit

module _ (P : Definition → Type 0) where
  All-definitions_of : (ps : List Placed) → All (InDefinitions P) ps → All P (definitions_of ps)
  All-definitions_of [] h = tt
  All-definitions_of (as_definition d ∷ ps) h = (h.0, All-definitions_of ps h.1)
  All-definitions_of (as_extension d ∷ ps) h = All-definitions_of ps h.1
  All-definitions_of (dropped ∷ ps) h = All-definitions_of ps h.1

  All-extensions_of : (ps : List Placed) → All (InExtensions P) ps → All P (extensions_of ps)
  All-extensions_of [] h = tt
  All-extensions_of (as_extension d ∷ ps) h = (h.0, All-extensions_of ps h.1)
  All-extensions_of (as_definition d ∷ ps) h = All-extensions_of ps h.1
  All-extensions_of (dropped ∷ ps) h = All-extensions_of ps h.1

All-map_of :
    {P : Definition → Type 0} (Q : Placed → Type 0) (f : Definition → Placed) (ds : List Definition)
    → ((d : Definition) → P d → Q (f d))
    → All P ds
    → All Q (map f ds)
All-map_of Q f [] h a = tt
All-map_of Q f (d ∷ ds) h a = (h d a.0, All-map_of Q f ds h a.1)

All-every : {P : Definition → Type 0} (ds : List Definition) → ((d : Definition) → P d) → All P ds
All-every [] h = tt
All-every (d ∷ ds) h = (h d, All-every ds h)

module _ (place : Bool → Definition → Placed) (doc : SchemaDocument) where
  All-placements :
      (Q : Placed → Type 0)
      → ((b : Bool) (d : Definition) → Q (place b d))
      → All Q (placements place doc)
  All-placements Q h =
      All-append Q (map (place false) doc.definitions) (map (place true) doc.extensions)
        (All-map_of Q (place false) doc.definitions (λ d (u : Unit {0}). h false d)
          (All-every doc.definitions (λ d. tt)))
        (All-map_of Q (place true) doc.extensions (λ d (u : Unit {0}). h true d)
          (All-every doc.extensions (λ d. tt)))

  pub definitions-process :
      (P : Definition → Type 0)
      → ((b : Bool) (d : Definition) → InDefinitions P (place b d))
      → All P (process place doc).definitions
  definitions-process P h =
      All-definitions_of P (placements place doc) (All-placements (InDefinitions P) h)

  pub extensions-process :
      (P : Definition → Type 0)
      → ((b : Bool) (d : Definition) → InExtensions P (place b d))
      → All P (process place doc).extensions
  extensions-process P h =
      All-extensions_of P (placements place doc) (All-placements (InExtensions P) h)

-- The same, from what holds of the nodes before the pass.
module _ (place : Bool → Definition → Placed) (doc : SchemaDocument)
    (P Q : Definition → Type 0) where
  pub definitions-process_of :
      ((b : Bool) (d : Definition) → P d → InDefinitions Q (place b d))
      → All P doc.definitions
      → All P doc.extensions
      → All Q (process place doc).definitions
  definitions-process_of h ds es = All-definitions_of Q (placements place doc) (
      All-append (InDefinitions Q) (map (place false) doc.definitions)
        (map (place true) doc.extensions)
        (All-map_of (InDefinitions Q) (place false) doc.definitions (h false) ds)
        (All-map_of (InDefinitions Q) (place true) doc.extensions (h true) es))

definitions_of-append :
    (ps qs : List Placed) → definitions_of (ps ++ qs) ≡ definitions_of ps ++ definitions_of qs
definitions_of-append [] qs = refl
definitions_of-append (as_definition d ∷ ps) qs = ap (λ ds. d ∷ ds) (definitions_of-append ps qs)
definitions_of-append (as_extension d ∷ ps) qs = definitions_of-append ps qs
definitions_of-append (dropped ∷ ps) qs = definitions_of-append ps qs

extensions_of-append :
    (ps qs : List Placed) → extensions_of (ps ++ qs) ≡ extensions_of ps ++ extensions_of qs
extensions_of-append [] qs = refl
extensions_of-append (as_extension d ∷ ps) qs = ap (λ ds. d ∷ ds) (extensions_of-append ps qs)
extensions_of-append (as_definition d ∷ ps) qs = extensions_of-append ps qs
extensions_of-append (dropped ∷ ps) qs = extensions_of-append ps qs

-- A list that the pass leaves alone.
map-stay_definitions :
    (f : Definition → Placed) (ds : List Definition)
    → All (λ d. f d ≡ as_definition d) ds
    → (definitions_of (map f ds) ≡ ds) × (extensions_of (map f ds) ≡ [])
map-stay_definitions f [] h = (refl, refl)
map-stay_definitions f (d ∷ ds) h =
    let (here, rest) = map-stay_definitions f ds h.1 in rw h.0 (ap (λ es. d ∷ es) here, rest)

map-stay_extensions :
    (f : Definition → Placed) (ds : List Definition)
    → All (λ d. f d ≡ as_extension d) ds
    → (extensions_of (map f ds) ≡ ds) × (definitions_of (map f ds) ≡ [])
map-stay_extensions f [] h = (refl, refl)
map-stay_extensions f (d ∷ ds) h =
    let (here, rest) = map-stay_extensions f ds h.1 in rw h.0 (ap (λ es. d ∷ es) here, rest)

-- A pass that puts every node back where it stands changes nothing.
pub process_stay :
    (place : Bool → Definition → Placed) (doc : SchemaDocument)
    → All (λ d. place false d ≡ as_definition d) doc.definitions
    → All (λ d. place true d ≡ as_extension d) doc.extensions
    → process place doc ≡ doc
process_stay place doc h k =
    let (ds, none_moved) = map-stay_definitions (place false) doc.definitions h in
    let (es, none_back) = map-stay_extensions (place true) doc.extensions k in
    let defs =
      definitions_of-append (map (place false) doc.definitions) (map (place true) doc.extensions)
      ∙ ap₂ (λ xs ys. xs ++ ys) ds none_back
      ∙ append-nil doc.definitions in
    let exts =
      extensions_of-append (map (place false) doc.definitions) (map (place true) doc.extensions)
      ∙ ap₂ (λ xs ys. xs ++ ys) none_moved es in
    ap₂ (λ xs ys. record doc { definitions = xs; extensions = ys }) defs exts

mem-extensions_of_tail :
    (e : Definition) (p : Placed) (ps : List Placed)
    → Memᴰ e (extensions_of ps)
    → Memᴰ e (extensions_of (p ∷ ps))
mem-extensions_of_tail e (as_definition d) ps m = m
mem-extensions_of_tail e (as_extension d) ps m = Memᴰ.tail m
mem-extensions_of_tail e dropped ps m = m

mem-definitions_of_tail :
    (e : Definition) (p : Placed) (ps : List Placed)
    → Memᴰ e (definitions_of ps)
    → Memᴰ e (definitions_of (p ∷ ps))
mem-definitions_of_tail e (as_definition d) ps m = Memᴰ.tail m
mem-definitions_of_tail e (as_extension d) ps m = m
mem-definitions_of_tail e dropped ps m = m

module _ (f : Definition → Placed) (d e : Definition) (qs : List Placed) where
  mem-extensions_of_map :
      (ds : List Definition)
      → Memᴰ d ds
      → f d ≡ as_extension e
      → Memᴰ e (extensions_of (map f ds ++ qs))
  mem-extensions_of_map [] m h = elim m [ ]
  mem-extensions_of_map (x ∷ ds) (Memᴰ.head same) h = rw (← same, h) (Memᴰ.head refl)
  mem-extensions_of_map (x ∷ ds) (Memᴰ.tail m) h =
      mem-extensions_of_tail e (f x) (map f ds ++ qs) (mem-extensions_of_map ds m h)

  mem-definitions_of_map :
      (ds : List Definition)
      → Memᴰ d ds
      → f d ≡ as_definition e
      → Memᴰ e (definitions_of (map f ds ++ qs))
  mem-definitions_of_map [] m h = elim m [ ]
  mem-definitions_of_map (x ∷ ds) (Memᴰ.head same) h = rw (← same, h) (Memᴰ.head refl)
  mem-definitions_of_map (x ∷ ds) (Memᴰ.tail m) h =
      mem-definitions_of_tail e (f x) (map f ds ++ qs) (mem-definitions_of_map ds m h)

-- A definition that the pass puts among the extensions, or the definitions, is found there.
module _ (place : Bool → Definition → Placed) (doc : SchemaDocument) (d e : Definition)
    (m : Memᴰ d doc.definitions) where
  pub mem-extensions_process :
      place false d ≡ as_extension e → Memᴰ e (process place doc).extensions
  mem-extensions_process h =
      mem-extensions_of_map (place false) d e (map (place true) doc.extensions) doc.definitions m h

  pub mem-definitions_process :
      place false d ≡ as_definition e → Memᴰ e (process place doc).definitions
  mem-definitions_process h =
      mem-definitions_of_map (place false) d e (map (place true) doc.extensions) doc.definitions m h
