-- ===== src/Federation/Rules/Duplicates.antt =====
-- `duplicateEnumOrScalar`: it is silent exactly when no enum and no scalar is defined twice.
use fedeway.Prelude.{
  String, Bool, true, false, not, ◌&&◌, List, [], ◌∷◌, contains, if◌then◌else◌, ◌≡◌, refl, arith,
}
use fedeway.Ast.{Kind, scalar, object, interface, union, enum, input_object, Definition}
use fedeway.Federation.Document.{ServiceDefinition}
use fedeway.Federation.Rules.{RuleError, error_if, duplicates, duplicate_enum_or_scalar}
use fedeway.Federation.Rules.Base.{is_silent}

abbrev pub is_enum : Kind → Bool
is_enum enum = true
is_enum _ = false

abbrev pub is_scalar : Kind → Bool
is_scalar scalar = true
is_scalar _ = false

-- The names of the definitions of a kind.
abbrev pub names_of : (Kind → Bool) → List Definition → List String
names_of p [] = []
names_of p (d ∷ ds) = if p d.kind then d.name ∷ names_of p ds else names_of p ds

-- No name of the list is known or stands in it twice.
abbrev pub are_new : List String → List String → Bool
are_new known [] = true
are_new known (n ∷ ns) = not (contains known n) && are_new (n ∷ known) ns

pub error_if_silent :
    (b : Bool) (e : RuleError) (rest : List RuleError)
    → is_silent (error_if b e rest) ≡ (not b && is_silent rest)
error_if_silent true e rest = refl
error_if_silent false e rest = refl

regroup : (a b c : Bool) → (a && (b && c)) ≡ ((a && b) && c)
regroup a b c = ground arith

regroup_right : (a b c : Bool) → (a && (b && c)) ≡ (b && (a && c))
regroup_right a b c = ground arith

-- What holds of the rest of the definitions for any names.
abbrev RestIs : String → List Definition → Type 0
RestIs service ds =
    (enums scalars : List String)
    → is_silent (duplicates service enums scalars ds)
      ≡ (are_new enums (names_of is_enum ds) && are_new scalars (names_of is_scalar ds))

step :
    (service : String) (enums scalars : List String) (d : Definition) (ds : List Definition)
    (k : Kind)
    → RestIs service ds
    → d.kind ≡ k
    → is_silent (duplicates service enums scalars (d ∷ ds))
      ≡ (are_new enums (names_of is_enum (d ∷ ds)) && are_new scalars (names_of is_scalar (d ∷ ds)))
unfolding duplicates
step service enums scalars d ds enum h e =
    rw (e, error_if_silent, h (d.name ∷ enums) scalars)
      (regroup (not (contains enums d.name)) (are_new (d.name ∷ enums) (names_of is_enum ds))
        (are_new scalars (names_of is_scalar ds)))
step service enums scalars d ds scalar h e =
    rw (e, error_if_silent, h enums (d.name ∷ scalars))
      (regroup_right (not (contains scalars d.name)) (are_new enums (names_of is_enum ds))
        (are_new (d.name ∷ scalars) (names_of is_scalar ds)))
step service enums scalars d ds object h e = rw e (h enums scalars)
step service enums scalars d ds interface h e = rw e (h enums scalars)
step service enums scalars d ds union h e = rw e (h enums scalars)
step service enums scalars d ds input_object h e = rw e (h enums scalars)

is_silent-duplicates : (service : String) (ds : List Definition) → RestIs service ds
unfolding duplicates
is_silent-duplicates service [] = λ enums scalars. refl
is_silent-duplicates service (d ∷ ds) =
    λ enums scalars. step service enums scalars d ds d.kind (is_silent-duplicates service ds) refl

-- `duplicateEnumOrScalar` finds no error exactly if no two enums and no two scalars of the
-- definitions have one name.
pub duplicate_enum_or_scalar-silent :
    (service : ServiceDefinition)
    → is_silent (duplicate_enum_or_scalar service) ≡ (
        are_new [] (names_of is_enum service.type_defs.definitions)
        && are_new [] (names_of is_scalar service.type_defs.definitions))
unfolding duplicate_enum_or_scalar
duplicate_enum_or_scalar-silent service =
    is_silent-duplicates service.name service.type_defs.definitions [] []
