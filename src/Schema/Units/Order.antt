-- ===== src/Schema/Units/Order.antt =====
-- A Go map has no order: the texts of a number do not depend on the order in which the multipliers
-- are met.
use arcaflow_plugin_sdk_go.Common.{
  ℕ, ℤ, ◌&&◌, Bytes, Option, none, some, if◌then◌else◌, [], ◌∷◌, ap, sym, ◌≡◌, refl, ◌∙◌,
}
use mathlib.Core.List.{Permᴰ}
use arcaflow_plugin_sdk_go.Go.Convert.{Floats}
use arcaflow_plugin_sdk_go.Go.Result.{panic}
use arcaflow_plugin_sdk_go.Go.Strings.{trim_space}
use arcaflow_plugin_sdk_go.Go.Regex.{Captures, find_submatch}
use arcaflow_plugin_sdk_go.Schema.Units.{
  UnitDefinition, Multipliers, UnitsDefinition, sorted, format_short_int, format_short_float,
  format_long_int, format_long_float,
}
use arcaflow_plugin_sdk_go.Schema.Units.Parse.{
  valid_names, group_compiles, multipliers_compile, compiles, parse, parse_trimmed, parse_match,
  unit_parse_error, expression,
}
use arcaflow_plugin_sdk_go.Schema.Units.Sorting.{&&_swap, SingleValued, sorted-Permᴰ}

multipliers_compile-Permᴰ :
    {ms ns : Multipliers} → Permᴰ ms ns → multipliers_compile ms ≡ multipliers_compile ns
unfolding multipliers_compile
multipliers_compile-Permᴰ Permᴰ.nil = refl
multipliers_compile-Permᴰ (Permᴰ.cons {b = b} {l₁ = ms} {l₂ = ns} e d) =
    rw (e, multipliers_compile-Permᴰ d) refl
multipliers_compile-Permᴰ (Permᴰ.swap {a = a} {b = b} {l = l} e f) =
    rw (sym e, sym f) (&&_swap (group_compiles a) (group_compiles b) (multipliers_compile l))
multipliers_compile-Permᴰ (Permᴰ.trans d e) =
    multipliers_compile-Permᴰ d ∙ multipliers_compile-Permᴰ e

abbrev pub units : UnitDefinition → Multipliers → UnitsDefinition
units base ms = record { base_unit = base; multipliers = ms }

same_compiles :
    (base : UnitDefinition) (ms ns : Multipliers)
    → multipliers_compile ms ≡ multipliers_compile ns
    → compiles (units base ms) ≡ compiles (units base ns)
unfolding compiles
same_compiles base ms ns e = ap (λ b. valid_names base && b) e

module _ (fl : Floats) (base : UnitDefinition) (ms ns : Multipliers) where
  short_int :
      (z : ℤ)
      → sorted ms ≡ sorted ns
      → format_short_int fl (units base ms) z ≡ format_short_int fl (units base ns) z
  unfolding format_short_int
  short_int z e = rw e refl

  long_int :
      (z : ℤ)
      → sorted ms ≡ sorted ns
      → format_long_int fl (units base ms) z ≡ format_long_int fl (units base ns) z
  unfolding format_long_int
  long_int z e = rw e refl

  short_float :
      (x : ℕ)
      → sorted ms ≡ sorted ns
      → format_short_float fl (units base ms) x ≡ format_short_float fl (units base ns) x
  unfolding format_short_float
  short_float x e = rw e refl

  long_float :
      (x : ℕ)
      → sorted ms ≡ sorted ns
      → format_long_float fl (units base ms) x ≡ format_long_float fl (units base ns) x
  unfolding format_long_float
  long_float x e = rw e refl

  matched :
      (s : Bytes) (found : Option Captures)
      → sorted ms ≡ sorted ns
      → parse_match fl (units base ms) s found ≡ parse_match fl (units base ns) s found
  unfolding parse_match unit_parse_error
  matched s none e = rw e refl
  matched s (some c) e = rw e refl

  same_expression : sorted ms ≡ sorted ns → expression (units base ms) ≡ expression (units base ns)
  unfolding expression
  same_expression e = rw e refl

  parsed :
      (s : Bytes)
      → sorted ms ≡ sorted ns
      → compiles (units base ms) ≡ compiles (units base ns)
      → parse_trimmed fl (units base ms) s ≡ parse_trimmed fl (units base ns) s
  unfolding parse_trimmed
  parsed [] e c = refl
  parsed (b ∷ s) e c = rw c (
      ap
        (λ r.
          if compiles (units base ns)
          then parse_match fl (units base ms) (b ∷ s) (find_submatch r (b ∷ s))
          else panic)
        (same_expression e)
      ∙ ap (λ m. if compiles (units base ns) then m else panic)
          (matched (b ∷ s) (find_submatch (expression (units base ns)) (b ∷ s)) e))

-- A map of multipliers may be met in any order: two lists of its entries, one a rearrangement of the
-- other and with one unit for a multiplier, give the same texts for every integer and every float,
-- short and long, and every text is parsed with the same outcome.
pub units_order_independent :
    (fl : Floats) (base : UnitDefinition) {ms ns : Multipliers}
    → Permᴰ ms ns
    → SingleValued ms
    → ((z : ℤ)
        → (format_short_int fl (units base ms) z ≡ format_short_int fl (units base ns) z)
          × (format_long_int fl (units base ms) z ≡ format_long_int fl (units base ns) z))
      × ((x : ℕ)
          → (format_short_float fl (units base ms) x ≡ format_short_float fl (units base ns) x)
            × (format_long_float fl (units base ms) x ≡ format_long_float fl (units base ns) x))
      × ((s : Bytes) → parse fl (units base ms) s ≡ parse fl (units base ns) s)
unfolding parse
units_order_independent fl base {ms} {ns} d h =
    let e = sorted-Permᴰ d h in
    (
      λ z. (short_int fl base ms ns z e, long_int fl base ms ns z e),
      λ x. (short_float fl base ms ns x e, long_float fl base ms ns x e),
      λ s.
          parsed fl base ms ns (trim_space s) e
            (same_compiles base ms ns (multipliers_compile-Permᴰ d)),
    )
