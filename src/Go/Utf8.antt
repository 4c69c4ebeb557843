-- ===== src/Go/Utf8.antt =====
-- Which bytes are UTF-8, as the package unicode/utf8 has it; regexp refuses an expression that is not.
use arcaflow_plugin_sdk_go.Common.{
  ℕ, zero, suc, Bytes, Bool, false, ◌&&◌, [], ◌∷◌, Option, none, some, leb, ◌==◌, if◌then◌else◌,
}

-- How many bytes a character still needs, and the bounds of the next one; `none` behind an error.
abbrev pub Pending : Type 0
Pending = Option (ℕ × ℕ × ℕ)

-- Behind the first byte of a character.
abbrev pub first_byte : ℕ → Pending
first_byte c =
    if leb c 0x7f
    then some (0, 0, 0)
    else if leb c 0xc1
    then none
    else if leb c 0xdf
    then some (1, 0x80, 0xbf)
    else if c == 0xe0
    then some (2, 0xa0, 0xbf)
    else if c == 0xed
    then some (2, 0x80, 0x9f)
    else if leb c 0xef
    then some (2, 0x80, 0xbf)
    else if c == 0xf0
    then some (3, 0x90, 0xbf)
    else if leb c 0xf3
    then some (3, 0x80, 0xbf)
    else if c == 0xf4
    then some (3, 0x80, 0x8f)
    else none

abbrev pub next_byte : Pending → ℕ → Pending
next_byte none c = none
next_byte (some (zero, low, high)) c = first_byte c
next_byte (some (suc n, low, high)) c =
    if leb low c && leb c high then some (n, 0x80, 0xbf) else none

abbrev pub is_complete : Pending → Bool
is_complete none = false
is_complete (some (n, low, high)) = n == 0

abbrev pub valid_from : Pending → Bytes → Bool
valid_from p [] = is_complete p
valid_from p (c ∷ s) = valid_from (next_byte p c) s

-- utf8.ValidString
unfoldable pub is_utf8 : Bytes → Bool
is_utf8 s = valid_from (some (0, 0, 0)) s
