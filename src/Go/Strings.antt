-- ===== src/Go/Strings.antt =====
-- What the program uses of the package strings, on the bytes of UTF-8 text.
use arcaflow_plugin_sdk_go.Common.{
  ℕ, zero, suc, Bytes, codes, Bool, ◌||◌, List, [], ◌∷◌, Option, none, some, any, length,
  if◌then◌else◌, ◌==◌, ◌≡◌, refl,
}

-- The text without this prefix.
unfoldable pub strip_prefix : Bytes → Bytes → Option Bytes
strip_prefix [] s = some s
strip_prefix (c ∷ p) [] = none
strip_prefix (c ∷ p) (d ∷ s) = let rest = strip_prefix p s in if c == d then rest else none

-- strings.TrimRight(s, cutset), for a cutset of ASCII characters.
abbrev cut : (ℕ → Bool) → ℕ → Bytes → Bytes
cut p c [] = if p c then [] else c ∷ []
cut p c (d ∷ s) = c ∷ d ∷ s

unfoldable pub trim_right : (ℕ → Bool) → Bytes → Bytes
trim_right p [] = []
trim_right p (c ∷ s) = cut p c (trim_right p s)

-- The UTF-8 text of the characters for which unicode.IsSpace holds.
abbrev pub space_texts : List Bytes
space_texts =
    (9 ∷ [])
    ∷ (10 ∷ [])
    ∷ (11 ∷ [])
    ∷ (12 ∷ [])
    ∷ (13 ∷ [])
    ∷ (32 ∷ [])
    ∷ (0xc2 ∷ 0x85 ∷ [])
    ∷ (0xc2 ∷ 0xa0 ∷ [])
    ∷ (0xe1 ∷ 0x9a ∷ 0x80 ∷ [])
    ∷ (0xe2 ∷ 0x80 ∷ 0x80 ∷ [])
    ∷ (0xe2 ∷ 0x80 ∷ 0x81 ∷ [])
    ∷ (0xe2 ∷ 0x80 ∷ 0x82 ∷ [])
    ∷ (0xe2 ∷ 0x80 ∷ 0x83 ∷ [])
    ∷ (0xe2 ∷ 0x80 ∷ 0x84 ∷ [])
    ∷ (0xe2 ∷ 0x80 ∷ 0x85 ∷ [])
    ∷ (0xe2 ∷ 0x80 ∷ 0x86 ∷ [])
    ∷ (0xe2 ∷ 0x80 ∷ 0x87 ∷ [])
    ∷ (0xe2 ∷ 0x80 ∷ 0x88 ∷ [])
    ∷ (0xe2 ∷ 0x80 ∷ 0x89 ∷ [])
    ∷ (0xe2 ∷ 0x80 ∷ 0x8a ∷ [])
    ∷ (0xe2 ∷ 0x80 ∷ 0xa8 ∷ [])
    ∷ (0xe2 ∷ 0x80 ∷ 0xa9 ∷ [])
    ∷ (0xe2 ∷ 0x80 ∷ 0xaf ∷ [])
    ∷ (0xe2 ∷ 0x81 ∷ 0x9f ∷ [])
    ∷ (0xe3 ∷ 0x80 ∷ 0x80 ∷ [])
    ∷ []

abbrev pub reverse_onto : Bytes → Bytes → Bytes
reverse_onto [] out = out
reverse_onto (c ∷ s) out = reverse_onto s (c ∷ out)

abbrev pub reversed : List Bytes → List Bytes
reversed [] = []
reversed (t ∷ ts) = reverse_onto t [] ∷ reversed ts

-- The text without the first of these prefixes that it has.
unfoldable pub strip_any : List Bytes → Bytes → Option Bytes
unfolding strip_prefix
strip_any [] s = none
strip_any (t ∷ ts) s =
    let rest = strip_any ts s in elim (strip_prefix t s) [ none ↦ rest | some s' ↦ some s' ]

-- Each round takes a byte at least, so that the length of the text is enough fuel.
unfoldable pub trim_left : ℕ → List Bytes → Bytes → Bytes
unfolding strip_any
trim_left zero ts s = s
trim_left (suc f) ts s = elim (strip_any ts s) [ none ↦ s | some s' ↦ trim_left f ts s' ]

-- strings.TrimSpace
unfoldable pub trim_space : Bytes → Bytes
unfolding trim_left
trim_space s =
    let left = trim_left (length s) space_texts s in
    reverse_onto (trim_left (length left) (reversed space_texts) (reverse_onto left [])) []

abbrev pub contains : ℕ → Bytes → Bool
contains c s = any (λ d. d == c) s

trim_space_test : trim_space (codes " \t5m 5s \n") ≡ codes "5m 5s"
unfolding trim_space
trim_space_test = refl

trim_right_tests :
    (trim_right (λ c. c == b'0' || c == b'.') (codes "1.500000") ≡ codes "1.5")
    × (trim_right (λ c. c == b'0' || c == b'.') (codes "100") ≡ codes "1")
unfolding trim_right
trim_right_tests = (refl, refl)
