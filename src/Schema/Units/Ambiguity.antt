-- ===== src/Schema/Units/Ambiguity.antt =====
-- Texts that do not show the number they are made from.
use arcaflow_plugin_sdk_go.Common.{
  ℕ, zero, suc, ◌+◌, ◌*◌, ◌/◌, ◌%◌, ◌^◌, ◌≤◌, ◌<◌, ◌<ℤ◌, ℤ, pos, negsuc, Bytes, Bool, true, false,
  ◌||◌, ◌==◌, Bool-cases, inl, inr, [], ◌∷◌, ◌++◌, All, append_assoc, ap, sym, ◌∙◌, ◌≡◌, refl,
  arith,
}
use native.Mathlib.Nat.{mod-eq_of_lt}
use arcaflow_plugin_sdk_go.Go.Text.{write_digits, format_nat, format_int}
use arcaflow_plugin_sdk_go.Go.Strings.{trim_right}
use arcaflow_plugin_sdk_go.Go.Convert.{Floats}
use arcaflow_plugin_sdk_go.Schema.Units.{
  UnitDefinition, Multipliers, UnitsDefinition, int_number, sorted, number_is, format_number,
  trimmed_number, format_number_unit_short, format_number_unit_long, base_of_int, rest_of_int,
  long_int_loop, format_long_int,
}
use arcaflow_plugin_sdk_go.Schema.Units.Decomposition.{
  Multiplier, ExactFloor, All-sorted, rest_of_int-mod,
}

write_digits_fuel :
    (f g n : ℕ) (out : Bytes) → n ≤ f → n ≤ g → write_digits f n out ≡ write_digits g n out
unfolding write_digits
write_digits_fuel zero zero n out h k = refl
write_digits_fuel zero (suc g) n out h k = ground arith
write_digits_fuel (suc f) zero n out h k = ground arith
write_digits_fuel (suc f) (suc g) n out h k =
    ground (arith, write_digits_fuel f g (n / 10) ((b'0' + n % 10) ∷ out))

write_digits_append :
    (f n : ℕ) (out tail : Bytes) → write_digits f n (out ++ tail) ≡ write_digits f n out ++ tail
unfolding write_digits
write_digits_append zero n out tail = refl
write_digits_append (suc f) n out tail = elim (Bool-cases (n == 0)) [
  | inl done ↦ rw done refl
  | inr more ↦ rw more (write_digits_append f (n / 10) ((b'0' + n % 10) ∷ out) tail)
]

write_digits_step :
    (f n : ℕ) (out : Bytes)
    → 0 < n
    → write_digits (suc f) n out ≡ write_digits f (n / 10) ((b'0' + n % 10) ∷ out)
unfolding write_digits
write_digits_step f n out h = ground arith

format_nat-write_digits : (n : ℕ) → 0 < n → format_nat n ≡ write_digits n n []
format_nat-write_digits n h = unfold format_nat in ground arith

-- Ten times a number has one zero more.
format_nat_ten : (n : ℕ) → 0 < n → format_nat (10 * n) ≡ format_nat n ++ b'0' ∷ []
format_nat_ten n h =
    let quotient : 10 * n / 10 ≡ n = omega arith in
    let digit : b'0' + 10 * n % 10 ≡ b'0' = omega arith in
    rw
      (
        format_nat-write_digits (10 * n) (omega arith),
        write_digits_fuel (10 * n) (suc (10 * n)) (10 * n) [] (omega arith) (omega arith),
        write_digits_step (10 * n) (10 * n) [] (omega arith),
        quotient,
        digit,
        write_digits_fuel (10 * n) n n (b'0' ∷ []) (omega arith) (omega arith),
        write_digits_append n n [] (b'0' ∷ []),
        format_nat-write_digits n h,
      )
      refl

trim_right_append :
    (p : ℕ → Bool) (s : Bytes) (c : ℕ) → p c ≡ true → trim_right p (s ++ c ∷ []) ≡ trim_right p s
unfolding trim_right
trim_right_append p [] c h = rw h refl
trim_right_append p (d ∷ s) c h = rw (trim_right_append p s c h) refl

trimmed_number_ten :
    (fl : Floats) (n : ℕ)
    → 0 < n
    → trimmed_number fl (int_number (pos (10 * n))) ≡ trimmed_number fl (int_number (pos n))
trimmed_number_ten fl n h =
    unfold trimmed_number in
    unfold format_number in
    unfold format_int in
    rw
      (format_nat_ten n h, trim_right_append (λ c. c == b'0' || c == b'.') (format_nat n) b'0' refl)
      refl

-- The branch of formatNumberUnitShort for an amount above 1.
format_number_unit_short_plural :
    (fl : Floats) (u : UnitDefinition) (n : ℕ) (display_zero : Bool)
    → 1 < n
    → format_number_unit_short fl (int_number (pos n)) u display_zero
      ≡ trimmed_number fl (int_number (pos n)) ++ u.name_short_plural
format_number_unit_short_plural fl u n d h =
    let not_one : (n == 1) ≡ false = ground arith in
    let not_zero : (n == 0) ≡ false = ground arith in
    unfold format_number_unit_short in unfold number_is in rw (not_one, not_zero) refl

-- formatNumberUnitShort writes an amount above 1 and ten times the amount alike, since TrimRight
-- removes the zeros at the end of an integer.
pub format_number_unit_short_ten :
    (fl : Floats) (u : UnitDefinition) (n : ℕ) (display_zero : Bool)
    → 1 < n
    → format_number_unit_short fl (int_number (pos (10 * n))) u display_zero
      ≡ format_number_unit_short fl (int_number (pos n)) u display_zero
format_number_unit_short_ten fl u n d h =
    rw
      (
        format_number_unit_short_plural fl u (10 * n) d (omega arith),
        format_number_unit_short_plural fl u n d h,
        trimmed_number_ten fl n (omega arith),
      )
      refl

module _ (fl : Floats) where
  -- The same amount with the name of each unit.
  unfoldable pub repeated : Multipliers → ℤ → Bytes
  repeated [] z = []
  repeated ((m, unit) ∷ ms) z =
      format_number_unit_long fl (int_number z) unit false ++ repeated ms z

  -- A number below a multiplier has none of it.
  nothing_taken :
      (n m : ℕ)
      → ExactFloor fl
      → (0 < m) × (m < 2 ^ 53)
      → n < m
      → n < 2 ^ 53
      → rest_of_int fl (pos n) (base_of_int fl (pos n) (pos m)) (pos m) ≡ pos n
  nothing_taken n m h hs below small =
      let quotient : base_of_int fl (pos n) (pos m) ≡ pos (n / m) =
        unfold base_of_int in h n m small (hs.0) (hs.1) in
      rw (quotient, rest_of_int-mod fl n m small (hs.0), mod-eq_of_lt below) refl

  long_int_loop-repeated :
      (ms : Multipliers) (base : UnitDefinition) (n : ℕ)
      → ExactFloor fl
      → All Multiplier ms
      → All (λ m. pos n <ℤ (m.0)) ms
      → n < 2 ^ 53
      → long_int_loop fl ms base (pos n)
        ≡ repeated ms (pos n) ++ format_number_unit_long fl (int_number (pos n)) base false
  unfolding long_int_loop repeated
  long_int_loop-repeated [] base n h hs below small = refl
  long_int_loop-repeated ((negsuc m, unit) ∷ ms) base n h hs below small = absurd (hs.0)
  long_int_loop-repeated ((pos m, unit) ∷ ms) base n h hs below small =
      let first = format_number_unit_long fl (int_number (pos n)) unit false in
      let last = format_number_unit_long fl (int_number (pos n)) base false in
      ap (λ l. format_number_unit_long fl (int_number l) unit false ++ long_int_loop fl ms base l)
        (nothing_taken n m h (hs.0) (omega (arith, below.0)) small)
      ∙ ap (λ t. first ++ t) (long_int_loop-repeated ms base n h (hs.1) (below.1) small)
      ∙ sym (append_assoc first (repeated ms (pos n)) last)

  format_long_int_loop :
      (u : UnitsDefinition) (n : ℕ)
      → 0 < n
      → format_long_int fl u (pos n) ≡ long_int_loop fl (sorted u.multipliers) u.base_unit (pos n)
  unfolding format_long_int
  format_long_int_loop u n h = let e : (n == 0) ≡ false = ground arith in rw e refl

-- FormatLongInt of a positive number below every multiplier repeats the number with the name of each
-- multiplier, in front of the number with the name of the base unit. Floors are exact, and the
-- multipliers positive and below 2^53.
pub format_long_int_repeats :
    (fl : Floats) (u : UnitsDefinition) (n : ℕ)
    → ExactFloor fl
    → All Multiplier u.multipliers
    → All (λ m. pos n <ℤ (m.0)) u.multipliers
    → 0 < n
    → n < 2 ^ 53
    → format_long_int fl u (pos n)
      ≡ repeated fl (sorted u.multipliers) (pos n)
        ++ format_number_unit_long fl (int_number (pos n)) u.base_unit false
format_long_int_repeats fl u n h hs below positive small =
    format_long_int_loop fl u n positive
    ∙ long_int_loop-repeated fl (sorted u.multipliers) u.base_unit n h
        (All-sorted Multiplier u.multipliers hs)
        (All-sorted (λ m. pos n <ℤ (m.0)) u.multipliers below) small
