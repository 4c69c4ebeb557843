-- ===== src/Go/Text/RoundTrip.antt =====
-- Every int64 is read back from its decimal text.
use arcaflow_plugin_sdk_go.Common.{
  ℕ, zero, suc, ◌+◌, ◌/◌, ◌%◌, ◌≤◌, ℤ, pos, negsuc, IsInt64, Bytes, Bool-cases, inl, inr, ◌==◌,
  false, [], ◌∷◌, some, ◌≡◌, refl, arith,
}
use arcaflow_plugin_sdk_go.Go.Text.{
  write_digits, format_nat, format_int, read_digits, read_nat, in_range, parse_int,
}

pub read_digits-write_digits :
    (f n : ℕ) (out : Bytes) → n ≤ f → read_digits (write_digits f n out) 0 ≡ read_digits out n
unfolding write_digits read_digits
read_digits-write_digits zero n out h = ground arith
read_digits-write_digits (suc f) n out h =
    ground (arith, read_digits-write_digits f (n / 10) ((b'0' + n % 10) ∷ out))

-- The text begins with a digit, so it is not empty and has no sign.
abbrev pub StartsWithDigit : Bytes → Type 0
StartsWithDigit [] = ⊥
StartsWithDigit (c ∷ s) = (b'0' ≤ c) × (c ≤ b'9')

write_digits-StartsWithDigit :
    (f n : ℕ) (out : Bytes) → StartsWithDigit out → StartsWithDigit (write_digits f n out)
unfolding write_digits
write_digits-StartsWithDigit zero n out h = h
write_digits-StartsWithDigit (suc f) n out h = elim (Bool-cases (n == 0)) [
  | inl done ↦ rw done h
  | inr more ↦
      rw more (write_digits-StartsWithDigit f (n / 10) ((b'0' + n % 10) ∷ out) (omega arith))
]

pub format_nat-StartsWithDigit : (n : ℕ) → StartsWithDigit (format_nat n)
unfolding format_nat
format_nat-StartsWithDigit zero = omega arith
format_nat-StartsWithDigit (suc n) =
    let e : (suc n == 0) ≡ false = ground arith in
    rw e (write_digits-StartsWithDigit n (suc n / 10) ((b'0' + suc n % 10) ∷ []) (omega arith))

read_nat-read_digits : (s : Bytes) → StartsWithDigit s → read_nat s ≡ read_digits s 0
unfolding read_nat
read_nat-read_digits [] h = absurd h
read_nat-read_digits (c ∷ s) h = refl

read_nat-format_nat : (n : ℕ) → read_nat (format_nat n) ≡ some n
unfolding format_nat read_digits
read_nat-format_nat n =
    rw (read_nat-read_digits (format_nat n) (format_nat-StartsWithDigit n))
      (ground (arith, read_digits-write_digits n n [] (omega arith)))

parse_int_unsigned : (s : Bytes) → StartsWithDigit s → parse_int s ≡ in_range false (read_nat s)
unfolding parse_int
parse_int_unsigned [] h = absurd h
parse_int_unsigned (c ∷ s) h = ground arith

-- Reading the decimal text of an int64 with `strconv.ParseInt` gives the number back.
pub parse_int-format_int : (z : ℤ) → IsInt64 z → parse_int (format_int z) ≡ some z
unfolding format_int
parse_int-format_int (pos n) h =
    rw (parse_int_unsigned (format_nat n) (format_nat-StartsWithDigit n), read_nat-format_nat n)
      (ground arith)
parse_int-format_int (negsuc n) h =
    unfold parse_int in rw (read_nat-format_nat (suc n)) (ground arith)
