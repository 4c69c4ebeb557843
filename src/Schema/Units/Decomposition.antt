-- ===== src/Schema/Units/Decomposition.antt =====
-- How FormatShortInt and FormatLongInt take a number apart.
use arcaflow_plugin_sdk_go.Common.{
  ℕ, ◌+◌, ◌-◌, ◌*◌, ◌/◌, ◌%◌, ◌^◌, ◌≤◌, ◌<◌, ℤ, pos, negsuc, ◌-ℤ◌, ◌*ℤ◌, Bytes, false, ltb_ℤ,
  Bool-cases, inl, inr, List, [], ◌∷◌, ◌++◌, All, ◌≡◌, refl, wrap_int64_id, arith,
}
use native.Mathlib.Nat.{mod-add-div', mul-zero}
use mathlib.Core.List.{Permᴰ}
use mathlib.Core.List.Permᴰ
use arcaflow_plugin_sdk_go.Go.Convert.{Floats}
use arcaflow_plugin_sdk_go.Schema.Units.{
  UnitDefinition, Multipliers, int_number, insert_multiplier, sorted, format_number_unit_short,
  rest_of_int,
}

-- A multiplier whose float64 is exact.
abbrev pub Multiplier : ℤ × UnitDefinition → Type 0
Multiplier (pos n, unit) = (0 < n) × (n < 2 ^ 53)
Multiplier (negsuc n, unit) = ⊥

-- The amounts of the units of a list, the base unit's last, that make up a number: what is left below
-- a unit is less than one of it.
pub data Decomposes : Multipliers → UnitDefinition → ℕ → List (ℕ × UnitDefinition) → Type 0 where
  rest : {base : UnitDefinition} {r : ℕ} → Decomposes [] base r ((r, base) ∷ [])
  part :
      {m q r n : ℕ} {unit base : UnitDefinition} {ms : Multipliers}
      {amounts : List (ℕ × UnitDefinition)}
      → n ≡ q * m + r
      → r < m
      → Decomposes ms base r amounts
      → Decomposes ((pos m, unit) ∷ ms) base n ((q, unit) ∷ amounts)

-- Division of integers below 2^53 as float64s, rounded down, is exact.
abbrev pub ExactFloor : Floats → Type 0
ExactFloor fl =
    (n m : ℕ)
    → n < 2 ^ 53
    → 0 < m
    → m < 2 ^ 53
    → fl.to_int (fl.floor (fl.div (fl.of_int (pos n)) (fl.of_int (pos m)))) ≡ pos (n / m)

module _ (P : ℤ × UnitDefinition → Type 0) where
  All-insert_multiplier :
      (m : ℤ × UnitDefinition) (ms : Multipliers) → P m → All P ms → All P (insert_multiplier m ms)
  unfolding insert_multiplier
  All-insert_multiplier m [] h hs = (h, tt)
  All-insert_multiplier m (n ∷ ms) h hs = elim (Bool-cases (ltb_ℤ (m.0) (n.0))) [
    | inl smaller ↦ rw smaller (hs.0, All-insert_multiplier m ms h (hs.1))
    | inr larger ↦ rw larger (h, hs)
  ]

  pub All-sorted : (ms : Multipliers) → All P ms → All P (sorted ms)
  unfolding sorted
  All-sorted [] hs = tt
  All-sorted (m ∷ ms) hs = All-insert_multiplier m (sorted ms) (hs.0) (All-sorted ms (hs.1))

-- No multiplier is above one before it.
abbrev pub Descending : Multipliers → Type 0
Descending [] = Unit
Descending (m ∷ ms) = All (λ n. ltb_ℤ m.0 n.0 ≡ false) ms × Descending ms

mul_pos : (a b : ℕ) → pos a *ℤ pos b ≡ pos (a * b)
unfolding ◌*ℤ◌
mul_pos a b = ground (arith, mul-zero a)

sub_pos : (a b : ℕ) → b ≤ a → pos a -ℤ pos b ≡ pos (a - b)
unfolding ◌-ℤ◌
sub_pos a b h = ground arith

module _ (fl : Floats) where
  unfoldable pub written_short : List (ℕ × UnitDefinition) → Bytes
  unfolding format_number_unit_short
  written_short [] = []
  written_short ((q, unit) ∷ ps) =
      format_number_unit_short fl (int_number (pos q)) unit false ++ written_short ps

  pub rest_of_int-mod :
      (n m : ℕ) → n < 2 ^ 53 → 0 < m → rest_of_int fl (pos n) (pos (n / m)) (pos m) ≡ pos (n % m)
  rest_of_int-mod n m hn hm =
      let product : n / m * m ≤ n = omega (arith, mod-add-div' n m) in
      let left : n - n / m * m ≡ n % m = omega (arith, mod-add-div' n m) in
      unfold rest_of_int in
      rw
        (
          mul_pos (n / m) m,
          wrap_int64_id (pos (n / m * m)) (omega (arith, product)),
          sub_pos n (n / m * m) product,
          wrap_int64_id (pos (n - n / m * m)) (omega arith),
          left,
        )
        refl
