-- ===== src/Go/Convert.antt =====
-- The conversions of `reflect.Value.Convert` and of T(v), to int64, float64, string and bool.
-- Floats are IEEE 754 bit patterns, and their arithmetic is a parameter: the processor's and the
-- standard library's.
use arcaflow_plugin_sdk_go.Common.{
  ℕ, ◌+◌, ◌/◌, ◌%◌, ℤ, pos, negsuc, wrap_int64, Bytes, Bool, ◌&&◌, ◌||◌, List, [], ◌∷◌, ◌++◌,
  Option, none, some, ltb, leb, if◌then◌else◌, ◌≡◌, refl,
}
use arcaflow_plugin_sdk_go.Go.Value.{
  Value, bool, str, int, float32, float64, slice, items, int32, int64, uint8, int_type,
}

pub record Floats : Type 0 where
  -- float64(z), and int64(x), of a float64
  pub of_int : ℤ → ℕ
  pub to_int : ℕ → ℤ
  pub eq : ℕ → ℕ → Bool
  pub lt : ℕ → ℕ → Bool
  pub add : ℕ → ℕ → ℕ
  pub sub : ℕ → ℕ → ℕ
  pub mul : ℕ → ℕ → ℕ
  pub div : ℕ → ℕ → ℕ
  -- math.Floor
  pub floor : ℕ → ℕ
  -- the same for a float32, and float64(x) of one
  pub of_int32 : ℤ → ℕ
  pub to_int32 : ℕ → ℤ
  pub widen : ℕ → ℕ
  -- "%f", and strconv.ParseFloat(s, 64), where `none` is an error
  pub format : ℕ → Bytes
  pub format32 : ℕ → Bytes
  pub parse : Bytes → Option ℕ

-- string(rune(z)): UTF-8, and U+FFFD for what is no code point.
unfoldable pub encode_rune : ℤ → Bytes
encode_rune (negsuc n) = 0xef ∷ 0xbf ∷ 0xbd ∷ []
encode_rune (pos n) =
    if ltb n 0x80
    then n ∷ []
    else if ltb n 0x800
    then (0xc0 + n / 64) ∷ (0x80 + n % 64) ∷ []
    else if (leb 0xd800 n && ltb n 0xe000) || leb 0x110000 n
    then 0xef ∷ 0xbf ∷ 0xbd ∷ []
    else if ltb n 0x10000
    then (0xe0 + n / 4096) ∷ (0x80 + n / 64 % 64) ∷ (0x80 + n % 64) ∷ []
    else (0xf0 + n / 262144) ∷ (0x80 + n / 4096 % 64) ∷ (0x80 + n / 64 % 64) ∷ (0x80 + n % 64) ∷ []

-- string(b) of a []byte, and string(r) of a []rune, which is an []int32.
unfoldable pub concat_bytes : List Value → Bytes
concat_bytes [] = []
concat_bytes (int k (pos n) ∷ vs) = n ∷ concat_bytes vs
concat_bytes (_ ∷ vs) = concat_bytes vs

unfoldable pub concat_runes : List Value → Bytes
unfolding encode_rune
concat_runes [] = []
concat_runes (int k z ∷ vs) = encode_rune z ++ concat_runes vs
concat_runes (_ ∷ vs) = concat_runes vs

module _ (fl : Floats) where
  -- CanConvert and Convert to int64; `none` where the type has no conversion.
  unfoldable pub convert_int64 : Value → Option ℤ
  convert_int64 (int int64 z) = some z
  convert_int64 (int k z) = some (wrap_int64 z)
  convert_int64 (float32 x) = some (fl.to_int32 x)
  convert_int64 (float64 x) = some (fl.to_int x)
  convert_int64 _ = none

  unfoldable pub convert_float64 : Value → Option ℕ
  convert_float64 (int k z) = some (fl.of_int z)
  convert_float64 (float32 x) = some (fl.widen x)
  convert_float64 (float64 x) = some x
  convert_float64 _ = none

unfoldable pub convert_string : Value → Option Bytes
unfolding encode_rune concat_bytes concat_runes
convert_string (str s) = some s
convert_string (int k z) = some (encode_rune z)
convert_string (slice (int_type uint8) vs) = some (concat_bytes (items vs))
convert_string (slice (int_type int32) vs) = some (concat_runes (items vs))
convert_string _ = none

unfoldable pub convert_bool : Value → Option Bool
convert_bool (bool b) = some b
convert_bool _ = none

encode_rune_tests :
    (encode_rune (pos 0x20ac) ≡ 0xe2 ∷ 0x82 ∷ 0xac ∷ [])
    × (encode_rune (pos 0x1f600) ≡ 0xf0 ∷ 0x9f ∷ 0x98 ∷ 0x80 ∷ [])
    × (encode_rune (pos 65) ≡ 65 ∷ [])
unfolding encode_rune
encode_rune_tests = (refl, refl, refl)
