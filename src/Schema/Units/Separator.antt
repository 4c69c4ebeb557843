-- ===== src/Schema/Units/Separator.antt =====
-- The dot of the base unit's number is not escaped: a number takes in any character between two numbers.
use arcaflow_plugin_sdk_go.Common.{
  ℕ, ◌+◌, ◌-◌, ◌*◌, pos, eqb_ℤ, eqb_ℤ_iff, Bytes, true, false, List, [], ◌∷◌, ◌++◌, All,
  append_assoc, Option, none, some, leb, ◌==◌, if◌then◌else◌, ap, sym, ◌∙◌, subst, ◌≡◌, refl, arith,
  Bool-cases, inl, inr,
}
use arcaflow_plugin_sdk_go.Go.Text.{parse_int, read_nat, read_digits, in_range}
use arcaflow_plugin_sdk_go.Go.Result.{ok, err, panic, ◌>>=◌, bad_argument}
use arcaflow_plugin_sdk_go.Go.Convert.{Floats}
use arcaflow_plugin_sdk_go.Go.Strings.{trim_space, contains, strip_prefix}
use arcaflow_plugin_sdk_go.Go.Regex.{
  submatch, Regex, consumed, literal, digits, any_char, alt, seq, Captures, is_space, is_digit, run,
  run_class, at_end, find_submatch,
}
use arcaflow_plugin_sdk_go.Schema.Units.{UnitDefinition, UnitsDefinition, Multipliers, sorted}
use arcaflow_plugin_sdk_go.Schema.Units.Parse.{
  names, compiles, parse_match, parse_trimmed, expression, parse, parse_units_int, number_as_int,
  handle_parse_multiplier, total_number, add_up,
}
use arcaflow_plugin_sdk_go.Schema.Units.Matching.{
  Digits, StartsWithout, Listed, base_names, names_of, one_of, run_alt, run_alt_right, Only,
  run_class-Digits, run_class-StartsWithout,
}
use arcaflow_plugin_sdk_go.Schema.Units.Reading.{
  find_submatch-expression, text, found, ending, captured, after_digits, number_part, named_after,
}
use arcaflow_plugin_sdk_go.Schema.Units.RoundTrip.{no_total, contains-Digits}

-- A character between two numbers: one byte that is no digit, blank, dot or sign.
abbrev pub Separator : ℕ → Type 0
Separator c =
    (is_digit c ≡ false) × (is_space c ≡ false) × ((c == b'.') ≡ false) × (leb c 0x7f ≡ true)

literal_nothing :
    (c : ℕ) (t : Bytes) (d : Captures) (k : Bytes → Captures → Option Captures) (l : Bytes)
    → k (c ∷ t) d ≡ none
    → StartsWithout (λ y. y == c) l
    → run (literal l) (c ∷ t) d k ≡ none
unfolding run strip_prefix
literal_nothing c t d k [] e h = e
literal_nothing c t d k (y ∷ l) e h = rw (run, strip_prefix, h) refl

alt_nothing :
    (a b : Regex) (s : Bytes) (c : Captures) (k : Bytes → Captures → Option Captures)
    → run a s c k ≡ none
    → run b s c k ≡ none
    → run (alt a b) s c k ≡ none
alt_nothing a b s c k h g = run_alt a b s c k ∙ rw (h, g) refl

one_of_nothing :
    (c : ℕ) (t : Bytes) (d : Captures) (k : Bytes → Captures → Option Captures) (l : Bytes)
    (ls : List Bytes)
    → k (c ∷ t) d ≡ none
    → All (StartsWithout (λ y. y == c)) (l ∷ ls)
    → run (one_of l ls) (c ∷ t) d k ≡ none
one_of_nothing c t d k l [] e h = literal_nothing c t d k l e (h.0)
one_of_nothing c t d k l (m ∷ ms) e h =
    alt_nothing (literal l) (one_of m ms) (c ∷ t) d k (literal_nothing c t d k l e (h.0))
      (one_of_nothing c t d k m ms e (h.1))

read_digits_stops : (d s : Bytes) (c n : ℕ) → is_digit c ≡ false → read_digits (d ++ c ∷ s) n ≡ none
unfolding read_digits
read_digits_stops [] s c n h = rw h refl
read_digits_stops (b ∷ d) s c n h = elim (Bool-cases (is_digit b)) [
  | inl more ↦ rw more (read_digits_stops d s c (n * 10 + (b - b'0')) h)
  | inr last ↦ rw last refl
]

parse_int_stops :
    (b : ℕ) (d s : Bytes) (c : ℕ)
    → is_digit b ≡ true
    → is_digit c ≡ false
    → parse_int (b ∷ (d ++ c ∷ s)) ≡ none
unfolding parse_int read_nat
parse_int_stops b d s c begins h =
    let not_minus : (b == b'-') ≡ false = ground arith in
    let not_plus : (b == b'+') ≡ false = ground arith in
    rw (not_minus, not_plus) (ap (in_range false) (read_digits_stops (b ∷ d) s c 0 h))

contains_append :
    (s t : Bytes)
    → contains b'.' s ≡ false
    → contains b'.' t ≡ false
    → contains b'.' (s ++ t) ≡ false
contains_append [] t h g = g
contains_append (c ∷ s) t h g = ground (arith, contains_append s t)

no_newline : (c : ℕ) → is_space c ≡ false → (c == 10) ≡ false
no_newline c h = ground arith

-- The number with the separator, where the digits `d` and `e` stand around it.
module _ (base : UnitDefinition) (b c x : ℕ) (d e name : Bytes) (begins : is_digit b ≡ true)
    (listed : Listed name (base_names base)) (no_space : StartsWithout is_space name)
    (separates : Separator c) (follows : is_digit x ≡ true)
    (unnamed : All (StartsWithout (λ y. y == c)) (names_of base)) where
  abbrev number : Bytes
  number = d ++ c ∷ x ∷ e

  abbrev after_number : Bytes → Option Captures
  after_number l = after_digits base b number name begins listed no_space l

  abbrev taken : Bytes → Captures → Option Captures
  taken l k = captured base b number name begins listed no_space l k

  abbrev whole : Captures
  whole = found base b number name begins listed no_space

  abbrev end_of : Bytes → Captures → Option Captures
  end_of l k = ending base b number name begins listed no_space l k

  abbrev with_taken : Bytes → Captures
  with_taken l = (pos 1, consumed (text base b number name begins listed no_space) l) ∷ []

  nothing_named : (t : Bytes) → taken (c ∷ t) [] ≡ none
  unfolding run
  nothing_named t =
      run_class-StartsWithout is_space (c ∷ t)
        (λ l. run (alt (literal []) (names base)) l (with_taken (c ∷ t)) end_of) (separates.1)
      ∙ one_of_nothing c t (with_taken (c ∷ t)) end_of [] (names_of base)
          (run_class-StartsWithout is_space (c ∷ t) (λ l. at_end l (with_taken (c ∷ t)))
            (separates.1))
          (tt, unnamed)

  skipped : (t : Bytes) → Only whole (run (literal []) (c ∷ t) [] taken)
  unfolding run strip_prefix
  skipped t = subst (Only whole) (sym (nothing_named t)) tt

  dotted :
      Digits e
      → StartsWithout is_digit name
      → run (seq any_char digits) (c ∷ x ∷ (e ++ name)) [] taken ≡ some whole
  unfolding run
  dotted all_digits no_digit =
      let newline : (c == 10) ≡ false = no_newline c (separates.1) in
      rw (newline, separates.3, follows)
        (run_class-Digits e name (λ l. taken l []) all_digits no_digit
          (named_after base b number name begins listed no_space))

  separator_found :
      Digits e → StartsWithout is_digit name → after_number (c ∷ x ∷ (e ++ name)) ≡ some whole
  separator_found all_digits no_digit =
      run_alt_right (literal []) (seq any_char digits) (c ∷ x ∷ (e ++ name)) [] whole taken
        (skipped (x ∷ (e ++ name))) (dotted all_digits no_digit)

  number_found :
      Digits d
      → Digits e
      → StartsWithout is_digit name
      → run
          (number_part base b number name begins listed no_space)
          (text base b number name begins listed no_space)
          []
          taken
        ≡ some whole
  unfolding run
  number_found first second no_digit =
      ap (λ t. if t then run_class is_digit (number ++ name) after_number else none) begins
      ∙ ap (λ t. run_class is_digit t after_number) (append_assoc d (c ∷ x ∷ e) name)
      ∙ run_class-Digits d (c ∷ x ∷ (e ++ name)) after_number first (separates.0)
          (separator_found second no_digit)

contains-number :
    (b c x : ℕ) (d e : Bytes)
    → Digits (b ∷ d)
    → Digits (x ∷ e)
    → Separator c
    → contains b'.' ((b ∷ d) ++ c ∷ x ∷ e) ≡ false
contains-number b c x d e first second separates =
    contains_append (b ∷ d) (c ∷ x ∷ e) (contains-Digits (b ∷ d) first)
      (rw (separates.2) (contains-Digits (x ∷ e) second))

-- The loop ends where it reads the number of the base unit, also for a multiplier 1.
add_up-refused :
    (fl : Floats) (ms : Multipliers) (d : Bytes)
    → handle_parse_multiplier fl d (pos 1) (no_total fl) ≡ err bad_argument
    → add_up fl ms ((pos 1, d) ∷ []) (no_total fl) ≡ err bad_argument
unfolding add_up submatch
add_up-refused fl [] d h = h
add_up-refused fl ((m, unit) ∷ ms) d h = elim (Bool-cases (eqb_ℤ (pos 1) m)) [
  | inl same ↦
      let one : pos 1 ≡ m = (eqb_ℤ_iff (pos 1) m).0 same in
      rw same (
        ap
          (λ k.
            handle_parse_multiplier fl d k (no_total fl) >>= λ t. add_up fl ms ((pos 1, d) ∷ []) t)
          (sym one)
        ∙ ap (λ r. r >>= λ t. add_up fl ms ((pos 1, d) ∷ []) t) h)
  | inr differs ↦ rw differs (unfold handle_parse_multiplier in add_up-refused fl ms d h)
]

-- ParseInt refuses two numbers with a character between them and a name of the base unit, or nothing,
-- behind them, with blanks around: a character of ASCII that is no digit, no blank and no dot,
-- and with which no name of the base unit begins. So a number of a multiple with a name of one letter, such as
-- m for minutes, and a number of base units behind it are not read.
pub separated_number-refused :
    (fl : Floats) (u : UnitsDefinition) (b c x : ℕ) (d e name data_text : Bytes)
    → compiles u ≡ true
    → Digits (b ∷ d)
    → Separator c
    → Digits (x ∷ e)
    → All (StartsWithout (λ y. y == c)) (names_of u.base_unit)
    → Listed name (base_names u.base_unit)
    → StartsWithout is_space name
    → StartsWithout is_digit name
    → trim_space data_text ≡ ((b ∷ d) ++ c ∷ x ∷ e) ++ name
    → parse_units_int fl u data_text ≡ err bad_argument
unfolding parse_units_int parse
separated_number-refused fl u b c x d e name s compiled first separates second unnamed listed
      no_space no_digit trimmed =
    ap (λ t. parse_trimmed fl u t >>= λ r. number_as_int fl r) trimmed
    ∙ ap (λ r. r >>= λ v. number_as_int fl v) refused
  where
    whole_text : Bytes
    whole_text = ((b ∷ d) ++ c ∷ x ∷ e) ++ name

    handled :
        handle_parse_multiplier fl ((b ∷ d) ++ c ∷ x ∷ e) (pos 1) (no_total fl) ≡ err bad_argument
    handled =
        unfold handle_parse_multiplier in
        rw
          (
            contains-number b c x d e first second separates,
            parse_int_stops b d (x ∷ e) c (first.0) (separates.0),
          )
          refl

    refused : parse_trimmed fl u whole_text ≡ err bad_argument
    refused =
        unfold parse_trimmed in
        unfold parse_match in
        (ap
            (λ t.
              if t
              then parse_match fl u whole_text (find_submatch (expression u) whole_text)
              else panic)
            compiled
          ∙ ap (parse_match fl u whole_text) (
              find_submatch-expression u.base_unit b (d ++ c ∷ x ∷ e) name (first.0) listed no_space
                (number_found u.base_unit b c x d e name (first.0) listed no_space separates
                  (second.0) unnamed (first.1) (second.1) no_digit)
                u.multipliers)
          ∙ ap (λ r. r >>= λ t. ok (total_number fl t))
              (add_up-refused fl (sorted u.multipliers) ((b ∷ d) ++ c ∷ x ∷ e) handled))
