-- ===== src/Go/Text.antt =====
-- Decimal text: `fmt.Sprintf("%d", z)` and `strconv.ParseInt(s, 10, 64)`.
pub mod RoundTrip
use arcaflow_plugin_sdk_go.Common.{
  ℕ, zero, suc, ◌+◌, ◌-◌, ◌*◌, ◌/◌, ◌%◌, ◌^◌, ℤ, pos, negsuc, Bytes, codes, Bool, true, false, ◌&&◌,
  List, [], ◌∷◌, Option, none, some, ltb, leb, ◌==◌, if◌then◌else◌, ◌≡◌, refl,
}

-- The digits of `n` in front of `out`; a number has no more digits than its value.
unfoldable pub write_digits : ℕ → ℕ → Bytes → Bytes
write_digits zero n out = out
write_digits (suc f) n out =
    let rest = write_digits f (n / 10) ((b'0' + n % 10) ∷ out) in if n == 0 then out else rest

unfoldable pub format_nat : ℕ → Bytes
unfolding write_digits
format_nat n = if n == 0 then b'0' ∷ [] else write_digits n n []

-- "%d"
unfoldable pub format_int : ℤ → Bytes
unfolding format_nat
format_int (pos n) = format_nat n
format_int (negsuc n) = b'-' ∷ format_nat (suc n)

abbrev pub is_digit : ℕ → Bool
is_digit c = leb b'0' c && leb c b'9'

-- The digits read so far stand for `n`; any other byte is a syntax error.
unfoldable pub read_digits : Bytes → ℕ → Option ℕ
read_digits [] n = some n
read_digits (c ∷ s) n =
    let rest = read_digits s (n * 10 + (c - b'0')) in if is_digit c then rest else none

unfoldable pub read_nat : Bytes → Option ℕ
unfolding read_digits
read_nat [] = none
read_nat (c ∷ s) = read_digits (c ∷ s) 0

-- The range check of ParseInt: a magnitude of 2^63 is allowed behind a minus sign only.
abbrev pub in_range : Bool → Option ℕ → Option ℤ
in_range negative none = none
in_range true (some zero) = some (pos 0)
in_range true (some (suc n)) = if ltb n (2 ^ 63) then some (negsuc n) else none
in_range false (some n) = if ltb n (2 ^ 63) then some (pos n) else none

-- strconv.ParseInt(s, 10, 64); `none` is an error.
unfoldable pub parse_int : Bytes → Option ℤ
unfolding read_nat
parse_int [] = none
parse_int (c ∷ s) =
    if c == b'-'
    then in_range true (read_nat s)
    else if c == b'+'
    then in_range false (read_nat s)
    else in_range false (read_nat (c ∷ s))

parse_int_tests :
    (parse_int (codes "-9223372036854775808") ≡ some (negsuc (2 ^ 63 - 1)))
    × (parse_int (codes "9223372036854775808") ≡ none)
    × (parse_int (codes "+12") ≡ some (pos 12))
    × (parse_int (codes "-") ≡ none)
    × (parse_int (codes "1_0") ≡ none)
unfolding parse_int
parse_int_tests = (refl, refl, refl, refl, refl)

format_int_tests : (format_int (negsuc 9) ≡ codes "-10") × (format_int (pos 1207) ≡ codes "1207")
unfolding format_int
format_int_tests = (refl, refl)
