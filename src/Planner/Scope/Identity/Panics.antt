-- ===== src/Planner/Scope/Identity/Panics.antt =====
-- Where the identity key panics.
use fedeway.Prelude.{String, Option, none, List, [], ◌∷◌, map, Memᴰ, ◌≡◌, Option-cases, inl, inr}
use fedeway.Ast.{Value, value, block_value, Children, Argument, Directive}
use fedeway.Planner.Scope.{Scope, outermost, within, directives_of}
use fedeway.Planner.Scope.Identity.{
  collect, argument_key, value_identity_key, directive_identity_key, directives_identity_key,
  directives_key, compute_identity_key,
}

collect-map-none {ℓ κ} :
    {A : Type ℓ} {B : Type κ} (f : A → Option B) (x : A) (xs : List A)
    → Memᴰ x xs
    → f x ≡ none
    → collect (map f xs) ≡ none
collect-map-none f x [] m h = elim m [ ]
collect-map-none f x (y ∷ ys) (Memᴰ.head e) h = rw (← e, h)
collect-map-none f x (y ∷ ys) (Memᴰ.tail m) h = elim (Option-cases (f y)) [
  | inl e ↦ rw e
  | inr (a, e) ↦ rw (e, collect-map-none f x ys m h)
]

module _ (quote : String → String) (value_string : Value → String) where
  argument_key-none :
      (a : Argument) (raw : String) (vs : Children)
      → a.value ≡ value block_value raw vs
      → argument_key quote value_string a ≡ none
  unfolding value_identity_key
  argument_key-none a raw vs e = rw e

  directives_key-none :
      (d : Directive) (ds : List Directive)
      → Memᴰ d ds
      → directive_identity_key quote value_string d ≡ none
      → directives_key quote value_string ds ≡ none
  unfolding directives_identity_key
  directives_key-none d [] m h = elim m [ ]
  directives_key-none d (e ∷ es) m h =
      cc (collect-map-none (directive_identity_key quote value_string) d (e ∷ es) m h)

  directive_identity_key-none :
      (d : Directive) (a : Argument) (raw : String) (vs : Children)
      → Memᴰ a d.arguments
      → a.value ≡ value block_value raw vs
      → directive_identity_key quote value_string d ≡ none
  unfolding directive_identity_key
  directive_identity_key-none d a raw vs m e = cc (
      collect-map-none (argument_key quote value_string) a d.arguments m
        (argument_key-none a raw vs e))

  -- The identity key of a scope panics if a directive on the scope has a block string, `"""…"""`,
  -- for an argument.
  pub compute_identity_key_panics :
      (s : Scope) (d : Directive) (a : Argument) (raw : String) (vs : Children)
      → Memᴰ d (directives_of s)
      → Memᴰ a d.arguments
      → a.value ≡ value block_value raw vs
      → compute_identity_key quote value_string s ≡ none
  unfolding compute_identity_key
  compute_identity_key_panics (outermost typ ds) d a raw vs md ma e =
      cc (directives_key-none d ds md (directive_identity_key-none d a raw vs ma e))
  compute_identity_key_panics (within typ ds outer) d a raw vs md ma e =
      cc (directives_key-none d ds md (directive_identity_key-none d a raw vs ma e))
