-- ===== src/Schema/Units/Matching.antt =====
-- Lemmas on the matching of the expressions of Schema.Units.Parse.
use arcaflow_plugin_sdk_go.Common.{
  ℕ, Bytes, Bool, true, false, Bool-cases, Option-cases, inl, inr, List, [], ◌∷◌, ◌++◌, All,
  length-append, Option, none, some, ap, ◌∙◌, ◌≡◌, ◌⊎◌, refl, arith,
}
use arcaflow_plugin_sdk_go.Go.Regex.{
  Regex, literal, alt, Captures, is_space, is_digit, or_else, run_class, consumed, run,
}
use arcaflow_plugin_sdk_go.Go.Strings.{strip_prefix}
use arcaflow_plugin_sdk_go.Schema.Units.{UnitDefinition}

abbrev pub Digits : Bytes → Type 0
Digits s = All (λ c. is_digit c ≡ true) s

-- A text that does not begin with a byte of the class; it may be empty.
abbrev pub StartsWithout : (ℕ → Bool) → Bytes → Type 0
StartsWithout p [] = Unit
StartsWithout p (c ∷ s) = p c ≡ false

pub strip_prefix_self : (s : Bytes) → strip_prefix s s ≡ some []
unfolding strip_prefix
strip_prefix_self [] = refl
strip_prefix_self (c ∷ s) = ground (arith, strip_prefix_self s)

-- Where nothing of the class can be taken, the match goes on.
pub run_class-StartsWithout :
    (p : ℕ → Bool) (s : Bytes) (k : Bytes → Option Captures)
    → StartsWithout p s
    → run_class p s k ≡ k s
unfolding run_class
run_class-StartsWithout p [] k h = refl
run_class-StartsWithout p (c ∷ s) k h = rw h refl

-- A run of digits is taken as a whole, if the rest matches behind it.
pub run_class-Digits :
    (d s : Bytes) (k : Bytes → Option Captures) {c : Captures}
    → Digits d
    → StartsWithout is_digit s
    → k s ≡ some c
    → run_class is_digit (d ++ s) k ≡ some c
unfolding run_class
run_class-Digits [] s k hd hs e = run_class-StartsWithout is_digit s k hs ∙ e
run_class-Digits (b ∷ d) s k hd hs e = rw (hd.0, run_class-Digits d s k (hd.1) hs e) refl

pub consumed-append : (s t : Bytes) → consumed (s ++ t) t ≡ s
unfolding consumed
consumed-append [] [] = refl
consumed-append [] (c ∷ t) = ground arith
consumed-append (c ∷ s) t = ground (arith, length-append s t, consumed-append s t)

-- The continuation gives nothing, or these captures.
abbrev pub Only : Captures → Option Captures → Type 0
Only c none = Unit
Only c (some d) = d ≡ c

pub or_else-Only :
    (c : Captures) (a b : Option Captures) → Only c a → Only c b → Only c (or_else a b)
or_else-Only c none b h g = g
or_else-Only c (some d) b h g = h

pub or_else_left : {c : Captures} (a b : Option Captures) → a ≡ some c → or_else a b ≡ some c
or_else_left none b h = cc
or_else_left (some d) b h = h

pub or_else_right :
    {c : Captures} (a b : Option Captures) → Only c a → b ≡ some c → or_else a b ≡ some c
or_else_right none b h g = g
or_else_right (some d) b h g = ap some h

pub run_class-Only :
    (p : ℕ → Bool) (s : Bytes) (k : Bytes → Option Captures) (c : Captures)
    → ((t : Bytes) → Only c (k t))
    → Only c (run_class p s k)
unfolding run_class
run_class-Only p [] k c h = h []
run_class-Only p (b ∷ s) k c h = elim (Bool-cases (p b)) [
  | inl more ↦
      rw more (or_else-Only c (run_class p s k) (k (b ∷ s)) (run_class-Only p s k c h) (h (b ∷ s)))
  | inr last ↦ rw last (h (b ∷ s))
]

pub run_alt :
    (a b : Regex) (s : Bytes) (c : Captures) (k : Bytes → Captures → Option Captures)
    → run (alt a b) s c k ≡ or_else (run a s c k) (run b s c k)
unfolding run
run_alt a b s c k = elim (Option-cases (run a s c k)) [
  | inl nothing ↦ rw nothing refl
  | inr (d, found) ↦ rw found refl
]

pub run_literal-Only :
    (l s : Bytes) (c d : Captures) (k : Bytes → Captures → Option Captures)
    → ((t : Bytes) → Only d (k t c))
    → Only d (run (literal l) s c k)
unfolding run
run_literal-Only l s c d k h = elim (Option-cases (strip_prefix l s)) [
  | inl nothing ↦ rw (Only, run, nothing) tt
  | inr (t, found) ↦ rw (Only, run, found) (h t)
]

pub run_literal :
    {l s : Bytes} {c d : Captures} (k : Bytes → Captures → Option Captures)
    → s ≡ l
    → k [] c ≡ some d
    → run (literal l) s c k ≡ some d
run_literal {l} {s} {c} k e h = rw e (unfold run in rw (run, strip_prefix_self l) h)

-- An alternative of which both sides give these captures or nothing, and one of them gives them.
module _ (a b : Regex) (s : Bytes) (c d : Captures) (k : Bytes → Captures → Option Captures) where
  pub run_alt-Only : Only d (run a s c k) → Only d (run b s c k) → Only d (run (alt a b) s c k)
  run_alt-Only h g = rw (run_alt a b s c k) (or_else-Only d (run a s c k) (run b s c k) h g)

  pub run_alt_left : run a s c k ≡ some d → run (alt a b) s c k ≡ some d
  run_alt_left h = run_alt a b s c k ∙ or_else_left (run a s c k) (run b s c k) h

  pub run_alt_right : Only d (run a s c k) → run b s c k ≡ some d → run (alt a b) s c k ≡ some d
  run_alt_right h g = run_alt a b s c k ∙ or_else_right (run a s c k) (run b s c k) h g

abbrev pub Listed : Bytes → List Bytes → Type 0
Listed n [] = ⊥
Listed n (m ∷ ms) = (n ≡ m) ⊎ Listed n ms

-- The literals of a list, each an alternative.
abbrev pub one_of : Bytes → List Bytes → Regex
one_of l [] = literal l
one_of l (m ∷ ms) = alt (literal l) (one_of m ms)

module _ (s : Bytes) (c : Captures) (k : Bytes → Captures → Option Captures)
    (only : (t : Bytes) → Only c (k t c)) where
  pub one_of-Only : (l : Bytes) (ls : List Bytes) → Only c (run (one_of l ls) s c k)
  one_of-Only l [] = run_literal-Only l s c c k only
  one_of-Only l (m ∷ ms) =
      run_alt-Only (literal l) (one_of m ms) s c c k (run_literal-Only l s c c k only)
        (one_of-Only m ms)

  pub one_of-Listed :
      (l : Bytes) (ls : List Bytes)
      → Listed s (l ∷ ls)
      → k [] c ≡ some c
      → run (one_of l ls) s c k ≡ some c
  one_of-Listed l [] (inl e) h = run_literal k e h
  one_of-Listed l (m ∷ ms) (inl e) h =
      run_alt_left (literal l) (one_of m ms) s c c k (run_literal k e h)
  one_of-Listed l [] (inr g) h = absurd g
  one_of-Listed l (m ∷ ms) (inr g) h =
      run_alt_right (literal l) (one_of m ms) s c c k (run_literal-Only l s c c k only)
        (one_of-Listed m ms g h)

pub not_space : (b : ℕ) → is_digit b ≡ true → is_space b ≡ false
not_space b h = ground arith

abbrev pub names_of : UnitDefinition → List Bytes
names_of u =
    u.name_short_singular ∷ u.name_short_plural ∷ u.name_long_singular ∷ u.name_long_plural ∷ []

-- The names a number may have: none, and those of the base unit.
abbrev pub base_names : UnitDefinition → List Bytes
base_names u = [] ∷ names_of u
