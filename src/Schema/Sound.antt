-- ===== src/Schema/Sound.antt =====
-- What an unserialized value has to satisfy: the predicates that the proofs about the schema types
-- share.
use arcaflow_plugin_sdk_go.Common.{Bool, true, false, All, some, ◌≡◌, refl, ◌⊎◌, inl, inr, arith}
use arcaflow_plugin_sdk_go.Go.Value.{
  Value, slice, map, Items, no_items, item, Entries, no_entries, entry, items, entries, GoType,
  any_type, string_type, type_of, type_eq_refl,
}
use arcaflow_plugin_sdk_go.Go.Result.{
  Result, ok, err, panic, out_of_fuel, ◌>>=◌, IsSafe, Segment, Message, under, ensure,
}
use arcaflow_plugin_sdk_go.Schema.List.{assign, place}

-- A place of type `t` takes the value: its dynamic type is `t`, or it has one and `t` is `any`.
abbrev pub Fits : GoType → Value → Type 0
Fits t w = (u : GoType) × (type_of w ≡ some u) × ((t ≡ any_type) ⊎ (t ≡ u))

-- The call returns an error or a value of the type; it neither panics nor runs on.
abbrev pub Sound : GoType → Result Value → Type 0
Sound t (ok w) = Fits t w
Sound t (err e) = Unit
Sound t panic = ⊥
Sound t out_of_fuel = ⊥

pub Sound-IsSafe : (t : GoType) (r : Result Value) → Sound t r → IsSafe r
Sound-IsSafe t (ok w) h = tt
Sound-IsSafe t (err e) h = tt
Sound-IsSafe t panic h = elim h [ ]
Sound-IsSafe t out_of_fuel h = elim h [ ]

-- Whatever of a type may be a string.
abbrev pub HoldsString : GoType → Type 0
HoldsString string_type = Unit
HoldsString any_type = Unit
HoldsString _ = ⊥

-- The keys of every map in the data may be strings, as in decoded JSON, YAML and CBOR.
unfoldable mutual
  pub StringKeyed : Value → Type 0
  StringKeyed (slice t vs) = StringKeyedItems vs
  StringKeyed (map k t es) = HoldsString k × StringKeyedEntries es
  StringKeyed _ = Unit

  pub StringKeyedItems : Items → Type 0
  StringKeyedItems no_items = Unit
  StringKeyedItems (item v vs) = StringKeyed v × StringKeyedItems vs

  pub StringKeyedEntries : Entries → Type 0
  StringKeyedEntries no_entries = Unit
  StringKeyedEntries (entry k v es) = StringKeyed k × StringKeyed v × StringKeyedEntries es

pub All-StringKeyed : (vs : Items) → StringKeyedItems vs → All StringKeyed (items vs)
unfolding StringKeyed
All-StringKeyed no_items h = tt
All-StringKeyed (item v vs) h = (h.0, All-StringKeyed vs h.1)

abbrev pub KeyedEntry : Value × Value → Type 0
KeyedEntry e = StringKeyed e.0 × StringKeyed e.1

pub All-KeyedEntry : (es : Entries) → StringKeyedEntries es → All KeyedEntry (entries es)
unfolding StringKeyed
All-KeyedEntry no_entries h = tt
All-KeyedEntry (entry k v es) h = ((h.0, h.1), All-KeyedEntry es h.2)

place_any : (t u : GoType) (w : Value) → t ≡ any_type → place t (some u) w ≡ ok w
place_any t u w e = rw e

place_same : (t u : GoType) (w : Value) → t ≡ u → place t (some u) w ≡ ok w
place_same t u w e = ground (arith, e, type_eq_refl u)

assign-eq-ok : (t : GoType) (w : Value) → Fits t w → assign t w ≡ ok w
unfolding assign
assign-eq-ok t w (u, e, inl a) = rw e (place_any t u w a)
assign-eq-ok t w (u, e, inr a) = rw e (place_same t u w a)

-- A result that fits is assigned without a panic.
pub Sound-assign : (t : GoType) (r : Result Value) → Sound t r → IsSafe (r >>= assign t)
Sound-assign t (ok w) h = rw (assign-eq-ok t w h) tt
Sound-assign t (err e) h = tt
Sound-assign t panic h = elim h [ ]
Sound-assign t out_of_fuel h = elim h [ ]

-- The same by the result of the assignment, for what is built from the assigned values.
pub IsSafe-bind {ℓ κ} :
    {A : Type ℓ} {B : Type κ} (m : Result A) (f : A → Result B)
    → IsSafe m
    → ((a : A) → m ≡ ok a → IsSafe (f a))
    → IsSafe (m >>= f)
IsSafe-bind (ok a) f h k = k a refl
IsSafe-bind (err e) f h k = tt
IsSafe-bind panic f h k = elim h [ ]
IsSafe-bind out_of_fuel f h k = elim h [ ]

pub IsSafe-under {ℓ} : {A : Type ℓ} (s : Segment) (m : Result A) → IsSafe m → IsSafe (under s m)
IsSafe-under s (ok a) h = tt
IsSafe-under s (err e) h = tt
IsSafe-under s panic h = elim h [ ]
IsSafe-under s out_of_fuel h = elim h [ ]

pub IsSafe-ensure : (b : Bool) (m : Message) → IsSafe (ensure b m)
IsSafe-ensure true m = tt
IsSafe-ensure false m = tt

-- A safe computation that ends by building a value of the type.
pub Sound-bind {ℓ} :
    {A : Type ℓ} (t : GoType) (m : Result A) (f : A → Result Value)
    → IsSafe m
    → ((a : A) → m ≡ ok a → Sound t (f a))
    → Sound t (m >>= f)
Sound-bind t (ok a) f h k = k a refl
Sound-bind t (err e) f h k = tt
Sound-bind t panic f h k = elim h [ ]
Sound-bind t out_of_fuel f h k = elim h [ ]
