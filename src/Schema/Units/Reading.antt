-- ===== src/Schema/Units/Reading.antt =====
-- What the expression finds in a number with the name of the base unit.
use arcaflow_plugin_sdk_go.Common.{
  ℕ, pos, Bytes, true, [], ◌∷◌, ◌++◌, Option, none, some, if◌then◌else◌, ap, ◌∙◌, ◌≡◌, refl,
}
use arcaflow_plugin_sdk_go.Go.Regex.{
  Regex, literal, spaces, digits, any_char, alt, seq, group, Captures, is_space, is_digit,
  run_class, consumed, run, at_end, find_submatch,
}
use arcaflow_plugin_sdk_go.Go.Strings.{strip_prefix}
use arcaflow_plugin_sdk_go.Schema.Units.{UnitDefinition, Multipliers, sorted}
use arcaflow_plugin_sdk_go.Schema.Units.Parse.{
  multiplier_number, names, base_part, parts, expression,
}
use arcaflow_plugin_sdk_go.Schema.Units.Matching.{
  Digits, StartsWithout, run_class-StartsWithout, run_class-Digits, consumed-append, Only,
  run_class-Only, run_alt_left, run_alt_right, Listed, one_of, one_of-Listed, not_space, names_of,
  base_names,
}

module _ (base : UnitDefinition) (b : ℕ) (d name : Bytes) (begins : is_digit b ≡ true)
    (listed : Listed name (base_names base)) (no_space : StartsWithout is_space name) where
  abbrev pub text : Bytes
  text = (b ∷ d) ++ name

  abbrev pub found : Captures
  found = (pos 1, b ∷ d) ∷ []

  -- What follows the base unit.
  abbrev pub ending : Bytes → Captures → Option Captures
  ending left c = run_class is_space left λ l. at_end l c

  at_end-Only : (t : Bytes) (c : Captures) → Only c (at_end t c)
  at_end-Only [] c = refl
  at_end-Only (x ∷ t) c = tt

  ending-Only : (t : Bytes) (c : Captures) → Only c (ending t c)
  ending-Only t c = run_class-Only is_space t (λ l. at_end l c) c (λ l. at_end-Only l c)

  ending_nothing : ending [] found ≡ some found
  unfolding run_class
  ending_nothing = refl

  named : run (one_of [] (names_of base)) name found ending ≡ some found
  named =
      one_of-Listed name found ending (λ t. ending-Only t found) [] (names_of base) listed
        ending_nothing

  abbrev pub name_part : Regex
  name_part = seq spaces (alt (literal []) (names base))

  abbrev pub captured : Bytes → Captures → Option Captures
  captured left c = run name_part left ((pos 1, consumed text left) ∷ c) ending

  pub named_after : captured name [] ≡ some found
  unfolding run
  named_after =
      ap (λ t. run name_part name ((pos 1, t) ∷ []) ending) (consumed-append (b ∷ d) name)
      ∙ run_class-StartsWithout is_space name
          (λ l. run (alt (literal []) (names base)) l found ending) no_space
      ∙ named

  abbrev pub number_part : Regex
  number_part = seq digits (alt (literal []) (seq any_char digits))

  abbrev pub after_digits : Bytes → Option Captures
  after_digits l = run (alt (literal []) (seq any_char digits)) l [] captured

  -- A text of digits.
  pub number_found-Digits :
      Digits d → StartsWithout is_digit name → run number_part text [] captured ≡ some found
  unfolding run strip_prefix
  number_found-Digits all_digits no_digit =
      ap (λ t. if t then run_class is_digit (d ++ name) after_digits else none) begins
      ∙ run_class-Digits d name after_digits all_digits no_digit
          (run_alt_left (literal []) (seq any_char digits) name [] found captured named_after)

  nothing_before : Only found (run (literal []) text [] ending)
  unfolding run strip_prefix run_class
  nothing_before = rw (Only, not_space b begins) tt

  -- The rest of the expression, where the number is found.
  module _ (number_found : run number_part text [] captured ≡ some found) where
    base_part_found : run (seq (base_part base) spaces) text [] at_end ≡ some found
    unfolding run
    base_part_found =
        run_alt_right (literal [])
          (seq (group (pos 1) (seq digits (alt (literal []) (seq any_char digits))))
            (seq spaces (alt (literal []) (names base))))
          text [] found ending nothing_before number_found

    parts_found : (ms : Multipliers) → run (parts ms base) text [] at_end ≡ some found
    unfolding run parts strip_prefix
    parts_found [] = base_part_found
    parts_found ((m, unit) ∷ ms) =
        run_alt_left (literal []) (seq (multiplier_number m) (seq spaces (names unit))) text []
          found (λ left c. run (seq spaces (parts ms base)) left c at_end)
          (run_class-StartsWithout is_space text (λ left. run (parts ms base) left [] at_end)
              (not_space b begins)
            ∙ parts_found ms)

    pub find_submatch-expression :
        (ms : Multipliers)
        → find_submatch (expression (record { base_unit = base; multipliers = ms })) text
          ≡ some found
    unfolding find_submatch expression run
    find_submatch-expression ms =
        run_class-StartsWithout is_space text (λ left. run (parts (sorted ms) base) left [] at_end)
          (not_space b begins)
        ∙ parts_found (sorted ms)
