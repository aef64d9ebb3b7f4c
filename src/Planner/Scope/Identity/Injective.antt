-- ===== src/Planner/Scope/Identity/Injective.antt =====
-- Scopes with no directives have the same key only if they have the same chain of type names.
use Prim.Native.Char.{Char, code}
use Prim.Native.String.{String, [] as nil, ◌∷◌ as cons, ◌++◌ as append}
use text.Mathlib.TextLemmas.{
  nil-append, cons-append, append_cancel_left, head-eq_of_cons-eq, tail-eq_of_cons-eq,
  append-eq-nil_iff, append-nil,
}
use fedeway.Prelude.{some, List, [], ◌∷◌, map, concat, ◌≡◌, ◌≢◌, refl, sym, ap, ap₂, ◌∙◌, All}
use fedeway.Ast.{Value}
use fedeway.Planner.Scope.{Scope, outermost, within, chain}
use fedeway.Planner.Scope.Identity.{compute_identity_key}

-- A GraphQL name has no dash.
abbrev pub HasNoDash : String → Type 0
HasNoDash nil = Unit {0}
HasNoDash (cons c s) = (code c ≢ b'-') × HasNoDash s

dash_first : (c : Char) (s x : String) → append "-" x ≡ cons c s → code c ≡ b'-'
dash_first c s x e = sym (ap code (head-eq_of_cons-eq (sym (cons-append "-" nil x) ∙ e)))

-- Up to the first dash two equal texts agree.
dash_cancel :
    (a b x y : String)
    → HasNoDash a
    → HasNoDash b
    → append a (append "-" x) ≡ append b (append "-" y)
    → (a ≡ b) × (x ≡ y)
dash_cancel nil nil x y h k e = (refl, append_cancel_left "-" x y (simp nil-append at e))
dash_cancel nil (cons c s) x y h k e =
    absurd (k.0 (dash_first c (append s (append "-" y)) x (simp (nil-append, cons-append) at e)))
dash_cancel (cons c s) nil x y h k e =
    absurd
      (h.0 (dash_first c (append s (append "-" x)) y (sym (simp (nil-append, cons-append) at e))))
dash_cancel (cons c s) (cons d t) x y h k e =
    let e' : cons c (append s (append "-" x)) ≡ cons d (append t (append "-" y)) =
      sym (cons-append c s (append "-" x)) ∙ e ∙ cons-append d t (append "-" y) in
    let (same, rest) = dash_cancel s t x y h.1 k.1 (tail-eq_of_cons-eq e') in
    (ap₂ cons (head-eq_of_cons-eq e') same, rest)

-- The key of a chain of type names.
abbrev chain_key : List String → String
chain_key [] = ""
chain_key (n ∷ ns) = concat (n ∷ "-" ∷ "" ∷ "-" ∷ chain_key ns ∷ [])

chain_key-cons :
    (n : String) (ns : List String)
    → chain_key (n ∷ ns) ≡ append n (append "-" (append "-" (chain_key ns)))
chain_key-cons n ns = simp (nil-append, append-nil)

chain_key-ne-nil : (n : String) (ns : List String) → chain_key (n ∷ ns) ≢ ""
chain_key-ne-nil n ns e =
    let after = (append-eq-nil_iff.0 (sym (chain_key-cons n ns) ∙ e)).1 in
    cc ((append-eq-nil_iff.0 after).0)

chain_key-injective :
    (ns ms : List String)
    → All HasNoDash ns
    → All HasNoDash ms
    → chain_key ns ≡ chain_key ms
    → ns ≡ ms
chain_key-injective [] [] h k e = refl
chain_key-injective [] (m ∷ ms) h k e = absurd (chain_key-ne-nil m ms (sym e))
chain_key-injective (n ∷ ns) [] h k e = absurd (chain_key-ne-nil n ns e)
chain_key-injective (n ∷ ns) (m ∷ ms) h k e =
    let (same, rest) =
      dash_cancel n m (append "-" (chain_key ns)) (append "-" (chain_key ms)) h.0 k.0
        (sym (chain_key-cons n ns) ∙ e ∙ chain_key-cons m ms) in
    ap₂ (λ a b. a ∷ b) same
      (chain_key-injective ns ms h.1 k.1
        (append_cancel_left "-" (chain_key ns) (chain_key ms) rest))

-- No directive on any scope of the chain.
abbrev pub HasNoDirectives : Scope → Type 0
HasNoDirectives (outermost typ ds) = ds ≡ []
HasNoDirectives (within typ ds outer) = (ds ≡ []) × HasNoDirectives outer

abbrev pub type_names : Scope → List String
type_names s = map (λ t. t.name) (chain s)

module _ (quote : String → String) (value_string : Value → String) where
  compute_identity_key-eq-chain_key :
      (s : Scope)
      → HasNoDirectives s
      → compute_identity_key quote value_string s ≡ some (chain_key (type_names s))
  unfolding compute_identity_key
  compute_identity_key-eq-chain_key (outermost typ ds) h = rw h
  compute_identity_key-eq-chain_key (within typ ds outer) h =
      rw (h.0, compute_identity_key-eq-chain_key outer h.1)

  -- Where no scope of the chains carries a directive and no type name has a dash, two scopes have
  -- the same identity key only if their chains name the same types in the same order.
  pub compute_identity_key-injective :
      (s t : Scope)
      → HasNoDirectives s
      → HasNoDirectives t
      → All HasNoDash (type_names s)
      → All HasNoDash (type_names t)
      → compute_identity_key quote value_string s ≡ compute_identity_key quote value_string t
      → type_names s ≡ type_names t
  compute_identity_key-injective s t hs ht ns nt e =
      chain_key-injective (type_names s) (type_names t) ns nt
        (cc (e, compute_identity_key-eq-chain_key s hs, compute_identity_key-eq-chain_key t ht))
