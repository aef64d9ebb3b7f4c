-- ===== src/Federation/Rules/Base.antt =====
-- The checks of pre_composition.go that look at fields: they are silent exactly when no field
-- offends.
use fedeway.Prelude.{String, Bool, true, false, ◌&&◌, List, [], ◌∷◌, ◌++◌, any, ◌==◌, ◌≡◌, refl}
use fedeway.Ast.{FieldDefinition}
use fedeway.Federation.Rules.{RuleError}

-- No error was found.
abbrev pub is_silent : List RuleError → Bool
is_silent [] = true
is_silent (e ∷ es) = false

pub is_silent-append :
    (es fs : List RuleError) → is_silent (es ++ fs) ≡ (is_silent es && is_silent fs)
is_silent-append [] fs = refl
is_silent-append (e ∷ es) fs = refl

abbrev pub has_directive : String → FieldDefinition → Bool
has_directive name f = any (λ d. d.name == name) f.directives
