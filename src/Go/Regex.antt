-- ===== src/Go/Regex.antt =====
-- What the program uses of the package regexp: matching prefers the left alternative, and the longest
-- repetition first, as a backtracking search does. Repetitions are of classes of ASCII characters.
use arcaflow_plugin_sdk_go.Common.{
  ℕ, suc, ℤ, eqb_ℤ, Bytes, Bool, ◌&&◌, ◌||◌, List, [], ◌∷◌, Option, none, some, length, leb,
  if◌then◌else◌, ◌==◌,
}
use arcaflow_plugin_sdk_go.Go.Strings.{strip_prefix}

pub data Regex : Type 0 where
  -- a text, as regexp.QuoteMeta writes it; the empty text is the empty expression
  literal : Bytes → Regex
  -- `\s*` and `[0-9]+`
  spaces : Regex
  digits : Regex
  -- `.`
  any_char : Regex
  alt : Regex → Regex → Regex
  seq : Regex → Regex → Regex
  -- `(?P<g%d>…)`
  group : ℤ → Regex → Regex

-- The text of each named group that took part, the latest first.
abbrev pub Captures : Type 0
Captures = List (ℤ × Bytes)

abbrev pub is_space : ℕ → Bool
is_space c = c == 9 || c == 10 || c == 12 || c == 13 || c == 32

abbrev pub is_digit : ℕ → Bool
is_digit c = leb b'0' c && leb c b'9'

abbrev pub or_else {ℓ} : {A : Type ℓ} → Option A → Option A → Option A
or_else none b = b
or_else (some a) b = some a

-- The longest run of the class that lets the rest match.
unfoldable pub run_class : (ℕ → Bool) → Bytes → (Bytes → Option Captures) → Option Captures
run_class p [] k = k []
run_class p (c ∷ s) k =
    let longer = run_class p s k in if p c then or_else longer (k (c ∷ s)) else k (c ∷ s)

abbrev run_digits : Bytes → (Bytes → Option Captures) → Option Captures
unfolding run_class
run_digits [] k = none
run_digits (c ∷ s) k = if is_digit c then run_class is_digit s k else none

-- The continuation bytes of a character.
unfoldable pub drop_continuation : Bytes → Bytes
drop_continuation [] = []
drop_continuation (c ∷ s) =
    let rest = drop_continuation s in if leb 0x80 c && leb c 0xbf then rest else c ∷ s

-- One character, but no newline.
abbrev run_any : Bytes → (Bytes → Option Captures) → Option Captures
unfolding drop_continuation
run_any [] k = none
run_any (c ∷ s) k = if c == 10 then none else if leb c 0x7f then k s else k (drop_continuation s)

-- What was taken of a text when this is left.
unfoldable pub consumed : Bytes → Bytes → Bytes
consumed [] left = []
consumed (c ∷ s) left =
    let rest = consumed s left in if leb (suc (length s)) (length left) then [] else c ∷ rest

-- A match of the expression at the start of the text, and of what follows it.
unfoldable pub run :
    Regex → Bytes → Captures → (Bytes → Captures → Option Captures) → Option Captures
unfolding strip_prefix run_class run_digits run_any consumed
run (literal t) s c k = elim (strip_prefix t s) [ none ↦ none | some left ↦ k left c ]
run spaces s c k = run_class is_space s λ left. k left c
run digits s c k = run_digits s λ left. k left c
run any_char s c k = run_any s λ left. k left c
run (alt a b) s c k = elim (run a s c k) [ some found ↦ some found | none ↦ run b s c k ]
run (seq a b) s c k = run a s c λ left d. run b left d k
run (group m a) s c k = run a s c λ left d. k left ((m, consumed s left) ∷ d)

-- `$`: the end of the text
abbrev pub at_end : Bytes → Captures → Option Captures
at_end [] c = some c
at_end (b ∷ s) c = none

-- FindStringSubmatch of an expression between `^` and `$`
unfoldable pub find_submatch : Regex → Bytes → Option Captures
unfolding run
find_submatch r s = run r s [] at_end

-- The submatch of a group, which is empty for a group that took no part.
unfoldable pub submatch : ℤ → Captures → Bytes
submatch m [] = []
submatch m ((n, t) ∷ c) = if eqb_ℤ n m then t else submatch m c
