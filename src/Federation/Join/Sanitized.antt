-- ===== src/Federation/Join/Sanitized.antt =====
-- Sanitized names: names of GraphQL, of which none ends in an underscore and one digit.
use fedeway.Prelude.{
  ℕ, Bool, true, false, not, ◌&&◌, &&-eq-true, ◌||◌, [], ◌∷◌, ◌++◌, map, all, same, leb, Bool-cases,
  inl, inr, ◌≡◌, refl, ◌∙◌, arith,
}
use fedeway.Federation.Join.{
  is_digit, is_word, word_or_underscore, prefixed, ends_in_number, suffixed, to_upper, sanitize,
}
use fedeway.Federation.Join.Names.{Name}

to_upper-digit : (c : ℕ) → is_digit (to_upper c) ≡ is_digit c
to_upper-digit c = ground arith

to_upper-underscore : (c : ℕ) → same (to_upper c) b'_' ≡ same c b'_'
to_upper-underscore c = ground arith

ends_in_number-map : (s : Name) → ends_in_number (map to_upper s) ≡ ends_in_number s
ends_in_number-map [] = refl
ends_in_number-map (c ∷ []) = refl
ends_in_number-map (c ∷ d ∷ []) = rw (to_upper-digit d, to_upper-underscore c) refl
ends_in_number-map (c ∷ d ∷ e ∷ s) = ends_in_number-map (d ∷ e ∷ s)

ends_in_number-snoc : (s : Name) → ends_in_number (s ++ b'_' ∷ []) ≡ false
ends_in_number-snoc [] = refl
ends_in_number-snoc (c ∷ []) = ground arith
ends_in_number-snoc (c ∷ d ∷ []) = ground arith
ends_in_number-snoc (c ∷ d ∷ e ∷ s) = ends_in_number-snoc (d ∷ e ∷ s)

-- No sanitized name ends in an underscore and one digit, as the names made of it do.
pub ends_in_number-sanitize : (name : Name) → ends_in_number (sanitize name) ≡ false
unfolding sanitize
ends_in_number-sanitize name =
    let s = prefixed (map word_or_underscore name) in
    ends_in_number-map (suffixed s)
    ∙ elim (Bool-cases (ends_in_number s)) [ inl t ↦ rw t (ends_in_number-snoc s) | inr t ↦ rw t t ]

-- `[_A-Z][_0-9A-Z]*`, a name of GraphQL without small letters
abbrev pub is_name_char : ℕ → Bool
is_name_char c = (leb b'A' c && leb c b'Z') || is_digit c || same c b'_'

abbrev pub is_graphql_name : Name → Bool
is_graphql_name [] = false
is_graphql_name (c ∷ s) = not (is_digit c) && is_name_char c && all is_name_char s

abbrev starts_well : Name → Bool
starts_well [] = false
starts_well (c ∷ s) = not (is_digit c)

is_word_lem : (c : ℕ) → is_word (word_or_underscore c) ≡ true
is_word_lem c = ground arith

all_words : (s : Name) → all is_word (map word_or_underscore s) ≡ true
all_words [] = refl
all_words (c ∷ s) = rw (is_word_lem c) (all_words s)

all_words-append : (s : Name) → all is_word s ≡ true → all is_word (s ++ b'_' ∷ []) ≡ true
all_words-append [] h = refl
all_words-append (c ∷ s) h =
    let (first, rest) = &&-eq-true (is_word c) (all is_word s) h in
    rw first (all_words-append s rest)

all_words-suffixed : (s : Name) → all is_word s ≡ true → all is_word (suffixed s) ≡ true
all_words-suffixed s h = elim (Bool-cases (ends_in_number s)) [
  | inl t ↦ rw t (all_words-append s h)
  | inr t ↦ rw t h
]

all_words-prefixed : (s : Name) → all is_word s ≡ true → all is_word (prefixed s) ≡ true
all_words-prefixed [] h = refl
all_words-prefixed (c ∷ s) h = elim (Bool-cases (is_digit c)) [ inl t ↦ rw t h | inr t ↦ rw t h ]

starts_well-prefixed : (c : ℕ) (s : Name) → starts_well (prefixed (c ∷ s)) ≡ true
starts_well-prefixed c s = elim (Bool-cases (is_digit c)) [
  | inl t ↦ rw t refl
  | inr t ↦ rw t (rw t refl)
]

starts_well-suffixed : (s : Name) → starts_well s ≡ true → starts_well (suffixed s) ≡ true
starts_well-suffixed s h = elim (Bool-cases (ends_in_number s)) [
  | inl t ↦ rw t (of_append s h)
  | inr t ↦ rw t h
]
  where
    of_append : (s : Name) → starts_well s ≡ true → starts_well (s ++ b'_' ∷ []) ≡ true
    of_append [] h = refl
    of_append (c ∷ s) h = h

name_char_of_word : (c : ℕ) → is_word c ≡ true → is_name_char (to_upper c) ≡ true
name_char_of_word c h = ground arith

all_name_chars : (s : Name) → all is_word s ≡ true → all is_name_char (map to_upper s) ≡ true
all_name_chars [] h = refl
all_name_chars (c ∷ s) h =
    let (first, rest) = &&-eq-true (is_word c) (all is_word s) h in
    rw (name_char_of_word c first) (all_name_chars s rest)

graphql_name_of_words :
    (s : Name)
    → starts_well s ≡ true
    → all is_word s ≡ true
    → is_graphql_name (map to_upper s) ≡ true
graphql_name_of_words [] h k = cc
graphql_name_of_words (c ∷ s) h k =
    let (first, rest) = &&-eq-true (is_word c) (all is_word s) k in
    rw (name_char_of_word c first, to_upper-digit c, h) (all_name_chars s rest)

-- What `sanitizeGraphQLName` makes of a name that is not empty is a name of GraphQL.
pub sanitize-is_graphql_name : (c : ℕ) (name : Name) → is_graphql_name (sanitize (c ∷ name)) ≡ true
unfolding sanitize
sanitize-is_graphql_name c name =
    let words = map word_or_underscore (c ∷ name) in
    graphql_name_of_words (suffixed (prefixed words))
      (starts_well-suffixed (prefixed words)
        (starts_well-prefixed (word_or_underscore c) (map word_or_underscore name)))
      (all_words-suffixed (prefixed words) (all_words-prefixed words (all_words (c ∷ name))))
