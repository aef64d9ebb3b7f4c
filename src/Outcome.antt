-- ===== src/Outcome.antt =====
-- How a call that may fail ends: with a result, with an error, in a panic, or, in a model whose
-- recursion is on fuel, without fuel.
use fedeway.Prelude.{String, Bool, true, false, Option, none, some, ◌≡◌, refl, if◌then◌else◌}

pub data Outcome {ℓ} (A : Type ℓ) : Type ℓ where
  done : A → Outcome A
  failed : (message : String) → Outcome A
  panicked exhausted : Outcome A

infixl 5 ◌>>=◌
abbrev pub ◌>>=◌ {ℓ κ} : {A : Type ℓ} {B : Type κ} → Outcome A → (A → Outcome B) → Outcome B
done a >>= f = f a
failed message >>= f = failed message
panicked >>= f = panicked
exhausted >>= f = exhausted

-- A nil that is dereferenced.
abbrev pub or_panic {ℓ} : {A : Type ℓ} → Option A → Outcome A
or_panic none = panicked
or_panic (some a) = done a

abbrev pub or_fail {ℓ} : {A : Type ℓ} → String → Option A → Outcome A
or_fail message none = failed message
or_fail message (some a) = done a

abbrev pub is_exhausted {ℓ} : {A : Type ℓ} → Outcome A → Bool
is_exhausted exhausted = true
is_exhausted _ = false

-- The call has fuel enough.
abbrev pub Ends {ℓ} : {A : Type ℓ} → Outcome A → Type 0
Ends o = is_exhausted o ≡ false

pub bind-eq-done {ℓ κ} :
    {A : Type ℓ} {B : Type κ} (o : Outcome A) (f : A → Outcome B) {b : B}
    → (o >>= f) ≡ done b
    → (a : A) × (o ≡ done a) × (f a ≡ done b)
bind-eq-done (done a) f h = (a, refl, h)
bind-eq-done (failed message) f h = cc
bind-eq-done panicked f h = cc
bind-eq-done exhausted f h = cc

pub done_eq {ℓ} : {A : Type ℓ} {a b : A} → done a ≡ done b → a ≡ b
done_eq h = cc

-- A chain runs out of fuel only where a step does.
pub is_exhausted-bind {ℓ κ} :
    {A : Type ℓ} {B : Type κ} (o : Outcome A) (f : A → Outcome B)
    → is_exhausted o ≡ false
    → ((a : A) → o ≡ done a → is_exhausted (f a) ≡ false)
    → is_exhausted (o >>= f) ≡ false
is_exhausted-bind (done a) f h k = k a refl
is_exhausted-bind (failed message) f h k = refl
is_exhausted-bind panicked f h k = refl
is_exhausted-bind exhausted f h k = h

pub is_exhausted-or_panic {ℓ} : {A : Type ℓ} (o : Option A) → is_exhausted (or_panic o) ≡ false
is_exhausted-or_panic none = refl
is_exhausted-or_panic (some a) = refl

pub is_exhausted-or_fail {ℓ} :
    {A : Type ℓ} (message : String) (o : Option A) → is_exhausted (or_fail message o) ≡ false
is_exhausted-or_fail message none = refl
is_exhausted-or_fail message (some a) = refl

pub is_exhausted-if {ℓ} :
    {A : Type ℓ} (b : Bool) (m n : Outcome A)
    → is_exhausted m ≡ false
    → is_exhausted n ≡ false
    → is_exhausted (if b then m else n) ≡ false
is_exhausted-if true m n h k = h
is_exhausted-if false m n h k = k
