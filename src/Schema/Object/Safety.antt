-- ===== src/Schema/Object/Safety.antt =====
-- schema/object.go, property.go: an object schema whose properties unserialize safely does so itself.
use arcaflow_plugin_sdk_go.Common.{
  Bytes, str_eq, str_eq_iff, List, [], ◌∷◌, All, Option, none, some, ◌≡◌, refl, inl, inr, arith,
  lookup, insert, has, lookup-insert, Bool-cases, Option-cases, subst,
}
use arcaflow_plugin_sdk_go.Go.Value.{Value, str, map, entries, string_map}
use arcaflow_plugin_sdk_go.Go.Result.{
  ok_injective, Result, ok, err, panic, out_of_fuel, ◌>>=◌, IsSafe, name, under, ensure,
  invalid_key, >>=-eq-ok,
}
use arcaflow_plugin_sdk_go.Schema.Types.{Property, Rules}
use arcaflow_plugin_sdk_go.Schema.Object.{
  unserialize_property, check_unset, check_set, check_interdependencies, collect_fields,
  add_default, add_defaults, unserialize_fields, unserialize_inlined, raw_data, unserialize_object,
  inlined,
}
use arcaflow_plugin_sdk_go.Schema.Sound.{
  Sound, Sound-bind, IsSafe-bind, IsSafe-under, IsSafe-ensure, StringKeyed, KeyedEntry,
  All-KeyedEntry,
}

check_set-IsSafe :
    (raw : List (Bytes × Value)) (id : Bytes) (r : Rules) → IsSafe (check_set raw id r)
unfolding check_set
check_set-IsSafe raw id r = ground arith

check_unset-IsSafe :
    (raw : List (Bytes × Value)) (id : Bytes) (r : Rules) → IsSafe (check_unset raw id r)
unfolding check_unset
check_unset-IsSafe raw id r = ground arith

pub check_interdependencies-IsSafe :
    (ps : List (Bytes × Property)) (raw : List (Bytes × Value))
    → IsSafe (check_interdependencies ps raw)
unfolding check_interdependencies
check_interdependencies-IsSafe [] raw = tt
check_interdependencies-IsSafe ((id, p) ∷ ps) raw = ground (
  arith,
  check_set-IsSafe raw id p.rules,
  check_unset-IsSafe raw id p.rules,
  check_interdependencies-IsSafe ps raw,
)

-- The value at a name, where there is one, is data with string keys.
abbrev KeyedAt : List (Bytes × Value) → Bytes → Type 0
KeyedAt raw id = (v : Value) → lookup id raw ≡ some v → StringKeyed v

abbrev KeyedDefault : Option Value → Type 0
KeyedDefault none = Unit
KeyedDefault (some d) = StringKeyed d

-- What an object's properties need: safe types, defaults with string keys, and different names.
abbrev pub Handles : (Property → Value → Result Value) → List (Bytes × Property) → Type 0
Handles type [] = Unit
Handles type ((id, p) ∷ ps) =
    ((v : Value) → StringKeyed v → IsSafe (type p v))
    × KeyedDefault p.rules.default_value
    × (lookup id ps ≡ none)
    × Handles type ps

insert-KeyedAt :
    (id j : Bytes) (u : Value) (raw : List (Bytes × Value))
    → StringKeyed u
    → KeyedAt raw j
    → KeyedAt (insert id u raw) j
insert-KeyedAt id j u raw hu h v e = elim (Bool-cases (str_eq id j)) [
  | inl same ↦
      let found : u ≡ v = ground (arith, lookup-insert id j u raw) in subst StringKeyed found hu
  | inr differ ↦ h v (ground (arith, lookup-insert id j u raw))
]

collect_fields-KeyedAt :
    (ps : List (Bytes × Property)) (es : List (Value × Value)) (raw raw' : List (Bytes × Value))
    → All KeyedEntry es
    → ((j : Bytes) → KeyedAt raw j)
    → collect_fields ps es raw ≡ ok raw'
    → (j : Bytes) → KeyedAt raw' j
unfolding collect_fields
collect_fields-KeyedAt ps [] raw raw' h k e = λ j. subst (λ r. KeyedAt r j) (cc) (k j)
collect_fields-KeyedAt ps ((str id, v) ∷ es) raw raw' h k e =
    let (_, allowed, rest) = >>=-eq-ok (ensure (has id ps) (invalid_key (str id))) _ e in
    collect_fields-KeyedAt ps es (insert id v raw) raw' h.1
      (λ j. insert-KeyedAt id j v raw h.0.1 (k j)) rest
collect_fields-KeyedAt ps ((_, v) ∷ es) raw raw' h k e = cc

collect_fields-IsSafe :
    (ps : List (Bytes × Property)) (es : List (Value × Value)) (raw : List (Bytes × Value))
    → IsSafe (collect_fields ps es raw)
unfolding collect_fields
collect_fields-IsSafe ps [] raw = tt
collect_fields-IsSafe ps ((str id, v) ∷ es) raw =
    IsSafe-bind (ensure (has id ps) (invalid_key (str id))) _ (IsSafe-ensure _ _)
      λ _ _. collect_fields-IsSafe ps es (insert id v raw)
collect_fields-IsSafe ps ((_, v) ∷ es) raw = tt

add_default-KeyedAt :
    (id : Bytes) (d : Option Value) (raw : List (Bytes × Value))
    → KeyedDefault d
    → ((j : Bytes) → KeyedAt raw j)
    → (j : Bytes) → KeyedAt (add_default id d raw) j
unfolding add_default
add_default-KeyedAt id none raw h k j = k j
add_default-KeyedAt id (some d) raw h k j = elim (Bool-cases (has id raw)) [
  | inl present ↦ rw present (k j)
  | inr missing ↦ rw missing (insert-KeyedAt id j d raw h (k j))
]

add_defaults-KeyedAt :
    (type : Property → Value → Result Value) (ps : List (Bytes × Property))
    (raw : List (Bytes × Value))
    → Handles type ps
    → ((j : Bytes) → KeyedAt raw j)
    → (j : Bytes) → KeyedAt (add_defaults ps raw) j
unfolding add_defaults
add_defaults-KeyedAt type [] raw h k = k
add_defaults-KeyedAt type ((id, p) ∷ ps) raw h k =
    add_defaults-KeyedAt type ps (add_default id p.rules.default_value raw) h.3
      (add_default-KeyedAt id p.rules.default_value raw h.1 k)

-- The values that the loop of `unserialize_fields` has still to visit.
abbrev KeyedFor : List (Bytes × Property) → List (Bytes × Value) → Type 0
KeyedFor [] raw = Unit
KeyedFor ((id, p) ∷ ps) raw = KeyedAt raw id × KeyedFor ps raw

KeyedFor-all :
    (ps : List (Bytes × Property)) (raw : List (Bytes × Value))
    → ((j : Bytes) → KeyedAt raw j)
    → KeyedFor ps raw
KeyedFor-all [] raw k = tt
KeyedFor-all ((id, p) ∷ ps) raw k = (k id, KeyedFor-all ps raw k)

-- Writing another property's value changes none of them.
insert-KeyedFor :
    (id : Bytes) (u : Value) (ps : List (Bytes × Property)) (raw : List (Bytes × Value))
    → lookup id ps ≡ none
    → KeyedFor ps raw
    → KeyedFor ps (insert id u raw)
unfolding lookup
insert-KeyedFor id u [] raw e k = tt
insert-KeyedFor id u ((j, p) ∷ ps) raw e k = (
  λ v found. k.0 v (ground (arith, lookup-insert id j u raw, str_eq_iff id j, str_eq_iff j id)),
  insert-KeyedFor id u ps raw (ground arith) k.1,
)

unserialize_property-IsSafe :
    (type : Property → Value → Result Value) (p : Property) (v : Value)
    → IsSafe (type p v)
    → IsSafe (unserialize_property type p v)
unfolding unserialize_property
unserialize_property-IsSafe type p v h = elim (Bool-cases p.rules.disabled) [
  | inl off ↦ simp off tt
  | inr on ↦ simp on h
]

unserialize_fields-IsSafe :
    (type : Property → Value → Result Value) (ps : List (Bytes × Property))
    (raw : List (Bytes × Value))
    → Handles type ps
    → KeyedFor ps raw
    → IsSafe (unserialize_fields type ps raw)
unfolding unserialize_fields
unserialize_fields-IsSafe type [] raw h k = tt
unserialize_fields-IsSafe type ((id, p) ∷ ps) raw h k = elim (Option-cases (lookup id raw)) [
  | inl unset ↦ rw unset (unserialize_fields-IsSafe type ps raw h.3 k.1)
  | inr (d, found) ↦ rw found (
      IsSafe-bind (under (name id) (unserialize_property type p d) >>= λ u. ok (insert id u raw)) _
        (IsSafe-bind (under (name id) (unserialize_property type p d)) _
          (IsSafe-under (name id) (unserialize_property type p d)
            (unserialize_property-IsSafe type p d (h.0 d (k.0 d found))))
          λ u _. tt)
        λ raw' e.
          let (u, done, same) = >>=-eq-ok (under (name id) (unserialize_property type p d)) _ e in
          let rest =
            unserialize_fields-IsSafe type ps (insert id u raw) h.3
              (insert-KeyedFor id u ps raw h.2 k.1) in
          subst (λ r. IsSafe (unserialize_fields type ps r)) (ok_injective same) rest)
]

inlined-IsSafe {ℓ} : {A : Type ℓ} (r : Result A) → IsSafe r → IsSafe (inlined r)
inlined-IsSafe (ok a) h = tt
inlined-IsSafe (err e) h = tt
inlined-IsSafe panic h = elim h [ ]
inlined-IsSafe out_of_fuel h = elim h [ ]

unserialize_inlined-IsSafe :
    (type : Property → Value → Result Value) (ps : List (Bytes × Property)) (v : Value)
    → Handles type ps
    → StringKeyed v
    → IsSafe (unserialize_inlined type ps v)
unfolding unserialize_inlined
unserialize_inlined-IsSafe type ((id, p) ∷ []) v h k =
    IsSafe-bind (inlined (unserialize_property type p v)) _
      (inlined-IsSafe (unserialize_property type p v)
        (unserialize_property-IsSafe type p v (h.0 v k)))
      λ u _. tt
unserialize_inlined-IsSafe type [] v h k = tt
unserialize_inlined-IsSafe type ((id, p) ∷ q ∷ ps) v h k = tt

raw_data-IsSafe :
    (type : Property → Value → Result Value) (ps : List (Bytes × Property)) (v : Value)
    → Handles type ps
    → StringKeyed v
    → IsSafe (raw_data type ps v)
unfolding raw_data StringKeyed
raw_data-IsSafe type ps (map tk tv es) h k =
    IsSafe-bind (collect_fields ps (entries es) []) _ (collect_fields-IsSafe ps (entries es) [])
      λ raw e. unserialize_fields-IsSafe type ps (add_defaults ps raw) h (
        KeyedFor-all ps (add_defaults ps raw) (
          add_defaults-KeyedAt type ps raw h (
            collect_fields-KeyedAt ps (entries es) [] raw (All-KeyedEntry es k.1)
              (λ j v none_found. unfold lookup in cc) e)))
raw_data-IsSafe type ps v h k = unserialize_inlined-IsSafe type ps v h k

-- An object schema whose properties are safe on data with string keys is so itself, and gives a
-- `map[string]any`.
pub unserialize_object-Sound :
    (type : Property → Value → Result Value) (ps : List (Bytes × Property)) (v : Value)
    → Handles type ps
    → StringKeyed v
    → Sound string_map (unserialize_object type ps v)
unfolding unserialize_object
unserialize_object-Sound type ps v h k =
    Sound-bind string_map (raw_data type ps v) _ (raw_data-IsSafe type ps v h k) λ raw _.
      Sound-bind string_map (check_interdependencies ps raw) _
        (check_interdependencies-IsSafe ps raw) λ _ _. (string_map, refl, inr refl)
