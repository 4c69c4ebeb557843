-- ===== src/Schema/Units/Sorting.antt =====
-- schema/units.go: sorting the multipliers gives the same for every order in which the map is met.
use arcaflow_plugin_sdk_go.Common.{
  ℤ, ◌&&◌, ltb_ℤ, Bool-cases, inl, inr, Bool, true, false, [], ◌∷◌, ap, sym, ◌≡◌, refl, ◌∙◌, arith,
}
use mathlib.Core.List.{Memᴰ, Permᴰ}
use arcaflow_plugin_sdk_go.Schema.Units.{UnitDefinition, Multipliers, insert_multiplier, sorted}

-- A multiplier has one unit.
abbrev pub SingleValued : Multipliers → Type 0
SingleValued ms = (m n : ℤ × UnitDefinition) → Memᴰ m ms → Memᴰ n ms → m.0 ≡ n.0 → m ≡ n

ltb_ℤ_antisymm : (a b : ℤ) → ltb_ℤ a b ≡ false → ltb_ℤ b a ≡ false → a ≡ b
ltb_ℤ_antisymm a b h g = ground arith

pub ltb_ℤ_asymm : (a b : ℤ) → ltb_ℤ a b ≡ true → ltb_ℤ b a ≡ false
ltb_ℤ_asymm a b h = ground arith

pub ltb_ℤ_trans : (a b c : ℤ) → ltb_ℤ a b ≡ false → ltb_ℤ b c ≡ false → ltb_ℤ a c ≡ false
ltb_ℤ_trans a b c h g = ground arith

ltb_ℤ_above : (a b c : ℤ) → ltb_ℤ a c ≡ true → ltb_ℤ b c ≡ false → ltb_ℤ a b ≡ true
ltb_ℤ_above a b c h g = ground arith

insert_multiplier_above :
    (m o : ℤ × UnitDefinition) (ms : Multipliers)
    → ltb_ℤ (m.0) (o.0) ≡ false
    → insert_multiplier m (o ∷ ms) ≡ m ∷ o ∷ ms
unfolding insert_multiplier
insert_multiplier_above m o ms h = rw h refl

insert_multiplier_below :
    (m o : ℤ × UnitDefinition) (ms : Multipliers)
    → ltb_ℤ (m.0) (o.0) ≡ true
    → insert_multiplier m (o ∷ ms) ≡ o ∷ insert_multiplier m ms
unfolding insert_multiplier
insert_multiplier_below m o ms h = rw h refl

-- Two units of which neither is below the first of the list.
insert_multiplier_swap :
    (m n : ℤ × UnitDefinition) (ms : Multipliers)
    → insert_multiplier m ms ≡ m ∷ ms
    → insert_multiplier n ms ≡ n ∷ ms
    → (m.0 ≡ n.0 → m ≡ n)
    → insert_multiplier m (n ∷ ms) ≡ insert_multiplier n (m ∷ ms)
insert_multiplier_swap m n ms hm hn h = elim (Bool-cases (ltb_ℤ (m.0) (n.0))) [
  | inl below ↦
      rw
        (
          insert_multiplier_below m n ms below,
          hm,
          insert_multiplier_above n m ms (ltb_ℤ_asymm (m.0) (n.0) below),
        )
        refl
  | inr above ↦ elim (Bool-cases (ltb_ℤ (n.0) (m.0))) [
    | inl larger ↦
        rw (insert_multiplier_above m n ms above, insert_multiplier_below n m ms larger, hn) refl
    | inr same ↦ let e : m ≡ n = h (ltb_ℤ_antisymm (m.0) (n.0) above same) in rw e refl
  ]
]

-- The first of the two goes behind the unit `o`, and the second in front of it.
insert_multiplier_apart :
    (m n o : ℤ × UnitDefinition) (ms : Multipliers)
    → ltb_ℤ (m.0) (o.0) ≡ true
    → ltb_ℤ (n.0) (o.0) ≡ false
    → insert_multiplier m (insert_multiplier n (o ∷ ms))
      ≡ insert_multiplier n (insert_multiplier m (o ∷ ms))
insert_multiplier_apart m n o ms below above =
    rw
      (
        insert_multiplier_above n o ms above,
        insert_multiplier_below m n (o ∷ ms) (ltb_ℤ_above (m.0) (n.0) (o.0) below above),
        insert_multiplier_below m o ms below,
        insert_multiplier_above n o (insert_multiplier m ms) above,
      )
      refl

pub &&_swap : (a b c : Bool) → (a && (b && c)) ≡ (b && (a && c))
&&_swap a b c = ground arith

insert_multiplier_comm :
    (m n : ℤ × UnitDefinition) (ms : Multipliers)
    → (m.0 ≡ n.0 → m ≡ n)
    → insert_multiplier m (insert_multiplier n ms) ≡ insert_multiplier n (insert_multiplier m ms)
insert_multiplier_comm m n [] h =
    unfold insert_multiplier in insert_multiplier_swap m n [] refl refl h
insert_multiplier_comm m n (o ∷ ms) h = elim (Bool-cases (ltb_ℤ (m.0) (o.0))) [
  | inl m_below ↦ elim (Bool-cases (ltb_ℤ (n.0) (o.0))) [
    | inl n_below ↦
        rw
          (
            insert_multiplier_below n o ms n_below,
            insert_multiplier_below m o ms m_below,
            insert_multiplier_below m o (insert_multiplier n ms) m_below,
            insert_multiplier_below n o (insert_multiplier m ms) n_below,
          )
          (ap (λ l. o ∷ l) (insert_multiplier_comm m n ms h))
    | inr n_above ↦ insert_multiplier_apart m n o ms m_below n_above
  ]
  | inr m_above ↦ elim (Bool-cases (ltb_ℤ (n.0) (o.0))) [
    | inl n_below ↦ sym (insert_multiplier_apart n m o ms n_below m_above)
    | inr n_above ↦
        let hm = insert_multiplier_above m o ms m_above in
        let hn = insert_multiplier_above n o ms n_above in
        rw (hm, hn) (insert_multiplier_swap m n (o ∷ ms) hm hn h)
  ]
]

Memᴰ-Permᴰ : {m : ℤ × UnitDefinition} {ms ns : Multipliers} → Permᴰ ms ns → Memᴰ m ns → Memᴰ m ms
Memᴰ-Permᴰ Permᴰ.nil p = p
Memᴰ-Permᴰ (Permᴰ.cons e d) (Memᴰ.head h) = Memᴰ.head (h ∙ sym e)
Memᴰ-Permᴰ (Permᴰ.cons e d) (Memᴰ.tail p) = Memᴰ.tail (Memᴰ-Permᴰ d p)
Memᴰ-Permᴰ (Permᴰ.swap e f) (Memᴰ.head h) = Memᴰ.tail (Memᴰ.head (h ∙ sym f))
Memᴰ-Permᴰ (Permᴰ.swap e f) (Memᴰ.tail (Memᴰ.head h)) = Memᴰ.head (h ∙ sym e)
Memᴰ-Permᴰ (Permᴰ.swap e f) (Memᴰ.tail (Memᴰ.tail p)) = Memᴰ.tail (Memᴰ.tail p)
Memᴰ-Permᴰ (Permᴰ.trans d e) p = Memᴰ-Permᴰ d (Memᴰ-Permᴰ e p)

pub sorted-Permᴰ : {ms ns : Multipliers} → Permᴰ ms ns → SingleValued ms → sorted ms ≡ sorted ns
unfolding sorted
sorted-Permᴰ Permᴰ.nil h = refl
sorted-Permᴰ (Permᴰ.cons {b = b} {l₁ = ms} {l₂ = ns} e d) h =
    rw e (ap (insert_multiplier b) (sorted-Permᴰ d (λ m n p q. h m n (Memᴰ.tail p) (Memᴰ.tail q))))
sorted-Permᴰ (Permᴰ.swap {a = a} {b = b} {l = l} e f) h =
    rw (sym e, sym f)
      (insert_multiplier_comm a b (sorted l) (h a b (Memᴰ.head refl) (Memᴰ.tail (Memᴰ.head refl))))
sorted-Permᴰ (Permᴰ.trans d e) h =
    sorted-Permᴰ d h ∙ sorted-Permᴰ e (λ m n p q. h m n (Memᴰ-Permᴰ d p) (Memᴰ-Permᴰ d q))
