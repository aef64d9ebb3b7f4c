-- ===== src/Federation/Join/Numbered.antt =====
-- The names that are made of a sanitized name, and the loop that stores them.
use fedeway.Prelude.{
  ℕ, zero, suc, ◌+◌, ◌<◌, Bool, true, false, [], ◌∷◌, ◌++◌, decimal, inl, inr, ◌⊎◌, ◌≡◌, refl, sym,
  ap, ap₂, ◌∙◌, arith,
}
use fedeway.Federation.Join.{is_digit, ends_in_number, numbered_name}
use fedeway.Federation.Join.Names.{Name, codes}

-- The digit of a number below ten.
decimal_digit : (n : ℕ) → n < 10 → codes (decimal n) ≡ (b'0' + n) ∷ []
decimal_digit zero h = refl
decimal_digit (suc zero) h = refl
decimal_digit (suc (suc zero)) h = refl
decimal_digit (suc (suc (suc zero))) h = refl
decimal_digit (suc (suc (suc (suc zero)))) h = refl
decimal_digit (suc (suc (suc (suc (suc zero))))) h = refl
decimal_digit (suc (suc (suc (suc (suc (suc zero)))))) h = refl
decimal_digit (suc (suc (suc (suc (suc (suc (suc zero))))))) h = refl
decimal_digit (suc (suc (suc (suc (suc (suc (suc (suc zero)))))))) h = refl
decimal_digit (suc (suc (suc (suc (suc (suc (suc (suc (suc zero))))))))) h = refl
decimal_digit (suc (suc (suc (suc (suc (suc (suc (suc (suc (suc n)))))))))) h = absurd (omega arith)

ends_in_number-numbered :
    (base : Name) (d : ℕ) → is_digit d ≡ true → ends_in_number (base ++ b'_' ∷ d ∷ []) ≡ true
ends_in_number-numbered [] d h = ground arith
ends_in_number-numbered (c ∷ []) d h = ground arith
ends_in_number-numbered (c ∷ e ∷ []) d h = ends_in_number-numbered (e ∷ []) d h
ends_in_number-numbered (c ∷ e ∷ f ∷ s) d h = ends_in_number-numbered (e ∷ f ∷ s) d h

tail_of : Name → Name
tail_of [] = []
tail_of (c ∷ s) = s

head_of : Name → ℕ
head_of [] = 0
head_of (c ∷ s) = c

cons_eq : {c d : ℕ} {s t : Name} → c ∷ s ≡ d ∷ t → (c ≡ d) × (s ≡ t)
unfolding head_of tail_of
cons_eq h = (ap head_of h, ap tail_of h)

no_nil : {c : ℕ} {s : Name} → c ∷ s ≡ [] → ⊥
no_nil h = let wrong : false ≡ true = ap is_nil h in cc
  where
    is_nil : Name → Bool
    is_nil [] = true
    is_nil (c ∷ s) = false

-- A name splits in one way into a front and its last two characters.
snoc_cancel : (s t : Name) (c d e f : ℕ) → (s ++ c ∷ d ∷ []) ≡ (t ++ e ∷ f ∷ []) → (s ≡ t) × (d ≡ f)
snoc_cancel [] [] c d e f h = (refl, (cons_eq (cons_eq h).1).0)
snoc_cancel [] (x ∷ []) c d e f h = absurd (no_nil (sym (cons_eq (cons_eq h).1).1))
snoc_cancel [] (x ∷ y ∷ t) c d e f h =
    absurd (no_append t e (f ∷ []) (sym (cons_eq (cons_eq h).1).1))
  where
    no_append : (t : Name) (e : ℕ) (r : Name) → (t ++ e ∷ r) ≡ [] → ⊥
    no_append [] e r h = no_nil h
    no_append (x ∷ t) e r h = no_nil h
snoc_cancel (x ∷ []) [] c d e f h = absurd (no_nil (cons_eq (cons_eq h).1).1)
snoc_cancel (x ∷ y ∷ s) [] c d e f h = absurd (no_append s c (d ∷ []) (cons_eq (cons_eq h).1).1)
  where
    no_append : (t : Name) (e : ℕ) (r : Name) → (t ++ e ∷ r) ≡ [] → ⊥
    no_append [] e r h = no_nil h
    no_append (x ∷ t) e r h = no_nil h
snoc_cancel (x ∷ s) (y ∷ t) c d e f h =
    let (first, rest) = cons_eq h in
    let (front, last) = snoc_cancel s t c d e f rest in (ap₂ (λ a b. a ∷ b) first front, last)

numbered_name_digit :
    (base : Name) (n : ℕ) → n < 10 → numbered_name base n ≡ (base ++ b'_' ∷ (b'0' + n) ∷ [])
unfolding numbered_name
numbered_name_digit base n h = ap (λ d. base ++ b'_' ∷ d) (decimal_digit n h)

pub numbered_name_cancel :
    (a b : Name) (m n : ℕ)
    → m < 10
    → n < 10
    → numbered_name a m ≡ numbered_name b n
    → (a ≡ b) × (m ≡ n)
numbered_name_cancel a b m n hm hn h =
    let (front, last) =
      snoc_cancel a b b'_' (b'0' + m) b'_' (b'0' + n)
        (sym (numbered_name_digit a m hm) ∙ h ∙ numbered_name_digit b n hn) in
    (front, omega arith)

pub ends_in_number-numbered_name :
    (base : Name) (n : ℕ) → n < 10 → ends_in_number (numbered_name base n) ≡ true
ends_in_number-numbered_name base n h =
    ap ends_in_number (numbered_name_digit base n h)
    ∙ ends_in_number-numbered base (b'0' + n) (ground arith)

-- The names that are made of a sanitized name.
abbrev pub Owned : Name → Name → Type 0
Owned base k = (k ≡ base) ⊎ ((n : ℕ) × (n < 10) × (k ≡ numbered_name base n))

-- No name is made of two names that do not end in a number.
pub owner_unique :
    (a b k : Name)
    → ends_in_number a ≡ false
    → ends_in_number b ≡ false
    → Owned a k
    → Owned b k
    → a ≡ b
owner_unique a b k ha hb (inl e) (inl f) = sym e ∙ f
owner_unique a b k ha hb (inl e) (inr (n, lt, f)) =
    let wrong = sym ha ∙ ap ends_in_number (sym e ∙ f) ∙ ends_in_number-numbered_name b n lt in cc
owner_unique a b k ha hb (inr (n, lt, e)) (inl f) =
    let wrong = sym hb ∙ ap ends_in_number (sym f ∙ e) ∙ ends_in_number-numbered_name a n lt in cc
owner_unique a b k ha hb (inr (m, lm, e)) (inr (n, ln, f)) =
    (numbered_name_cancel a b m n lm ln (sym e ∙ f)).0
