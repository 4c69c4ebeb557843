-- ===== src/Go/Result.antt =====
-- The outcome of a Go call that returns `(T, error)`: a value, an error, or a panic. `out_of_fuel`
-- has no counterpart in the program: it stands for a call that has not returned within the fuel.
-- schema/errors.go: the errors, and the path of a ConstraintError. A message is the format string's
-- constructor with what it prints; a path segment likewise.
use arcaflow_plugin_sdk_go.Common.{◌≡◌, refl, Bytes, List, [], ◌∷◌, ℕ, ℤ, Bool, true, false}
use arcaflow_plugin_sdk_go.Go.Value.{Value}

-- A segment of a path: "[%d]" of an index, "{%v}" and "[%v]" of a map's key, a property's name.
pub data Segment : Type 0 where
  index : ℕ → Segment
  key_of : Value → Segment
  value_of : Value → Segment
  name : Bytes → Segment
  one_of : Value → Segment

pub data Message : Type 0 where
  not_a_valid_type : Message
  at_least at_most : ℤ → Message
  at_least_float at_most_float : ℕ → Message
  too_short too_long : ℤ → Message
  pattern_mismatch invalid_pattern : Message
  invalid_enum_value : Value → Message
  too_few_items too_many_items : ℤ → Message
  not_a_slice not_a_map : Message
  invalid_key : Value → Message
  required : Message
  required_because_set : Bytes → Message
  required_because_not_set : List Bytes → Message
  conflicts_with : Bytes → Message
  property_disabled : Message
  missing_discriminator invalid_discriminator_type : Message
  invalid_discriminator : Value → Message
  incompatible mutually_exclusive : Message
  mismatched_kinds : Message

pub data Error : Type 0 where
  constraint : Message → List Segment → Error
  bad_argument : Error
  -- A UnitParseError, with its text.
  unit_parse : Bytes → Error
  -- An error of `fmt.Errorf` or `strconv`, with the text left out.
  plain : Error

pub data Result {ℓ} (A : Type ℓ) : Type ℓ where
  panic : Result A
  out_of_fuel : Result A
  err : Error → Result A
  ok : A → Result A

-- Go on with the value, if there is one.
infixl 5 ◌>>=◌
abbrev pub ◌>>=◌ {κ ℓ} : {B : Type κ} {C : Type ℓ} → Result B → (B → Result C) → Result C
panic >>= next = panic
out_of_fuel >>= next = out_of_fuel
err failure >>= next = err failure
ok b >>= next = next b

-- Go on after a check.
infixl 5 ◌>>◌
abbrev pub ◌>>◌ {κ} : {C : Type κ} → Result (Unit {0}) → Result C → Result C
check >> rest = check >>= λ passed. rest

-- `if !b { return &ConstraintError{m} }`
abbrev pub ensure : Bool → Message → Result (Unit {0})
ensure true m = ok tt
ensure false m = err (constraint m [])

-- ConstraintErrorAddPathSegment: the segment goes in front of the path of a ConstraintError.
abbrev pub add_segment : Error → Segment → Error
add_segment (constraint m path) s = constraint m (s ∷ path)
add_segment bad_argument s = bad_argument
add_segment (unit_parse m) s = unit_parse m
add_segment plain s = plain

-- `if err != nil { return ConstraintErrorAddPathSegment(err, s) }`
abbrev pub under {ℓ} : {A : Type ℓ} → Segment → Result A → Result A
under s (ok a) = ok a
under s (err e) = err (add_segment e s)
under s panic = panic
under s out_of_fuel = out_of_fuel

pub >>=-eq-ok {κ ℓ} :
    {B : Type κ} {C : Type ℓ} (first : Result B) (next : B → Result C) {c : C}
    → (first >>= next) ≡ ok c
    → (b : B) × (first ≡ ok b) × (next b ≡ ok c)
>>=-eq-ok panic next h = cc
>>=-eq-ok out_of_fuel next h = cc
>>=-eq-ok (err failure) next h = cc
>>=-eq-ok (ok b) next h = (b, refl, h)

pub >>-eq-ok {κ} :
    {C : Type κ} (check : Result (Unit {0})) (rest : Result C) {c : C}
    → (check >> rest) ≡ ok c
    → (check ≡ ok tt) × (rest ≡ ok c)
>>-eq-ok panic rest h = cc
>>-eq-ok out_of_fuel rest h = cc
>>-eq-ok (err failure) rest h = cc
>>-eq-ok (ok b) rest h = (refl, h)

pub under-eq-ok {ℓ} :
    {A : Type ℓ} (s : Segment) (m : Result A) {a : A} → under s m ≡ ok a → m ≡ ok a
under-eq-ok s (ok a) h = h
under-eq-ok s (err e) h = cc
under-eq-ok s panic h = cc
under-eq-ok s out_of_fuel h = cc

-- The call returned a value or an error: neither a panic nor the end of the fuel.
abbrev pub IsSafe {ℓ} : {A : Type ℓ} → Result A → Type 0
IsSafe (ok a) = Unit
IsSafe (err e) = Unit
IsSafe panic = ⊥
IsSafe out_of_fuel = ⊥

pub ok_injective {ℓ} : {A : Type ℓ} {a b : A} → ok a ≡ ok b → a ≡ b
ok_injective e = cc
