-- ===== src/Schema/Object/Interdependencies.antt =====
-- schema/object.go, validateFieldInterdependencies: what the check of the fields against one another
-- accepts.
use arcaflow_plugin_sdk_go.Common.{
  Bytes, false, List, [], ◌∷◌, Option, none, some, ◌≡◌, refl, ◌≢◌, ◌↔◌, inl, inr, arith, lookup,
  has, Option-cases, if◌then◌else◌,
}
use arcaflow_plugin_sdk_go.Go.Value.{Value}
use arcaflow_plugin_sdk_go.Go.Result.{Result, ok, err, >>=-eq-ok, Error}
use arcaflow_plugin_sdk_go.Schema.Types.{Property, Rules}
use arcaflow_plugin_sdk_go.Schema.Object.{
  find_set, one_required, check_unset, check_set, check_interdependencies, fail_if,
}

abbrev pub NoneSet : List (Bytes × Value) → List Bytes → Type 0
NoneSet raw [] = Unit
NoneSet raw (k ∷ ks) = (lookup k raw ≡ none) × NoneSet raw ks

-- The documented meaning of `conflicts`, `required`, `required_if` and `required_if_not`.
abbrev pub Respects : List (Bytes × Value) → Bytes → Rules → Type 0
Respects raw id r =
    (lookup id raw ≢ none → NoneSet raw r.conflicts)
    × (lookup id raw ≡ none
        → (r.required ≡ false)
          × NoneSet raw r.required_if
          × (r.required_if_not ≢ [] → ¬ NoneSet raw r.required_if_not))

abbrev pub RespectsAll : List (Bytes × Value) → List (Bytes × Property) → Type 0
RespectsAll raw [] = Unit
RespectsAll raw ((id, p) ∷ ps) = Respects raw id p.rules × RespectsAll raw ps

find_set→NoneSet :
    (raw : List (Bytes × Value)) (ks : List Bytes) → find_set raw ks ≡ none → NoneSet raw ks
unfolding find_set
find_set→NoneSet raw [] e = tt
find_set→NoneSet raw (k ∷ ks) e = (ground arith, find_set→NoneSet raw ks (ground arith))

NoneSet→find_set :
    (raw : List (Bytes × Value)) (ks : List Bytes) → NoneSet raw ks → find_set raw ks ≡ none
unfolding find_set
NoneSet→find_set raw [] h = refl
NoneSet→find_set raw (k ∷ ks) h = ground (arith, NoneSet→find_set raw ks h.1)

fail_if-ok : (o : Option Bytes) (f : Bytes → Error) → fail_if o (λ k. err (f k)) ≡ ok tt → o ≡ none
fail_if-ok none f h = refl
fail_if-ok (some k) f h = cc

check_set→NoneSet :
    (raw : List (Bytes × Value)) (id : Bytes) (r : Rules)
    → check_set raw id r ≡ ok tt
    → NoneSet raw r.conflicts
unfolding check_set
check_set→NoneSet raw id r h = find_set→NoneSet raw r.conflicts (fail_if-ok _ _ h)

NoneSet→check_set :
    (raw : List (Bytes × Value)) (id : Bytes) (r : Rules)
    → NoneSet raw r.conflicts
    → check_set raw id r ≡ ok tt
unfolding check_set
NoneSet→check_set raw id r h = rw (NoneSet→find_set raw r.conflicts h)

-- What an unset property asks for.
abbrev UnsetAllowed : List (Bytes × Value) → Rules → Type 0
UnsetAllowed raw r =
    (r.required ≡ false)
    × NoneSet raw r.required_if
    × (r.required_if_not ≢ [] → ¬ NoneSet raw r.required_if_not)

one_required→SomeSet :
    (raw : List (Bytes × Value)) (ks : List Bytes) (id : Bytes)
    → one_required raw ks id ≡ ok tt
    → (ks ≢ [] → ¬ NoneSet raw ks)
unfolding one_required
one_required→SomeSet raw [] id h = λ some_names. elim (some_names refl) [ ]
one_required→SomeSet raw (k ∷ ks) id h =
    λ some_names all_unset. ground (arith, NoneSet→find_set raw (k ∷ ks) all_unset)

SomeSet→one_required :
    (raw : List (Bytes × Value)) (ks : List Bytes) (id : Bytes)
    → (ks ≢ [] → ¬ NoneSet raw ks)
    → one_required raw ks id ≡ ok tt
unfolding one_required
SomeSet→one_required raw [] id h = refl
SomeSet→one_required raw (k ∷ ks) id h = elim (Option-cases (find_set raw (k ∷ ks))) [
  | inl e ↦ elim (h (λ p. cc) (find_set→NoneSet raw (k ∷ ks) e)) [ ]
  | inr (x, e) ↦ rw (one_required, e)
]

check_unset→UnsetAllowed :
    (raw : List (Bytes × Value)) (id : Bytes) (r : Rules)
    → check_unset raw id r ≡ ok tt
    → UnsetAllowed raw r
unfolding check_unset
check_unset→UnsetAllowed raw id r h = (
  ground arith,
  find_set→NoneSet raw r.required_if (ground arith),
  one_required→SomeSet raw r.required_if_not id (ground arith),
)

UnsetAllowed→check_unset :
    (raw : List (Bytes × Value)) (id : Bytes) (r : Rules)
    → UnsetAllowed raw r
    → check_unset raw id r ≡ ok tt
unfolding check_unset
UnsetAllowed→check_unset raw id r h = ground (
  arith,
  h.0,
  NoneSet→find_set raw r.required_if h.1,
  SomeSet→one_required raw r.required_if_not id h.2,
)

abbrev respect : (raw : List (Bytes × Value)) (id : Bytes) (r : Rules) → Result (Unit {0})
respect raw id r = if has id raw then check_set raw id r else check_unset raw id r

respect→Respects :
    (raw : List (Bytes × Value)) (id : Bytes) (r : Rules)
    → respect raw id r ≡ ok tt
    → Respects raw id r
respect→Respects raw id r h = elim (Option-cases (lookup id raw)) [
  | inl e ↦ (λ set. elim (set e) [ ], λ unset. check_unset→UnsetAllowed raw id r (ground arith))
  | inr (x, e) ↦ (λ set. check_set→NoneSet raw id r (ground arith), λ unset. cc)
]

Respects→respect :
    (raw : List (Bytes × Value)) (id : Bytes) (r : Rules)
    → Respects raw id r
    → respect raw id r ≡ ok tt
Respects→respect raw id r h = elim (Option-cases (lookup id raw)) [
  | inl e ↦ ground (arith, e, UnsetAllowed→check_unset raw id r (h.1 e))
  | inr (x, e) ↦ ground (arith, e, NoneSet→check_set raw id r (h.0 (λ p. cc)))
]

check_interdependencies→RespectsAll :
    (ps : List (Bytes × Property)) (raw : List (Bytes × Value))
    → check_interdependencies ps raw ≡ ok tt
    → RespectsAll raw ps
unfolding check_interdependencies
check_interdependencies→RespectsAll [] raw h = tt
check_interdependencies→RespectsAll ((id, p) ∷ ps) raw h = (
  respect→Respects raw id p.rules (>>=-eq-ok (respect raw id p.rules) _ h).1,
  check_interdependencies→RespectsAll ps raw (>>=-eq-ok (respect raw id p.rules) _ h).2,
)

RespectsAll→check_interdependencies :
    (ps : List (Bytes × Property)) (raw : List (Bytes × Value))
    → RespectsAll raw ps
    → check_interdependencies ps raw ≡ ok tt
unfolding check_interdependencies
RespectsAll→check_interdependencies [] raw h = refl
RespectsAll→check_interdependencies ((id, p) ∷ ps) raw h =
    rw (Respects→respect raw id p.rules h.0) (RespectsAll→check_interdependencies ps raw h.1)

-- validateFieldInterdependencies accepts the fields that are set exactly when every property's rules
-- hold: one that is set has no conflicting name set; one that is not set is not required, has no name
-- of `required_if` set, and, where `required_if_not` is not empty, has some name of it set.
pub check_interdependencies_iff :
    (ps : List (Bytes × Property)) (raw : List (Bytes × Value))
    → (check_interdependencies ps raw ≡ ok tt) ↔ RespectsAll raw ps
check_interdependencies_iff ps raw =
    (check_interdependencies→RespectsAll ps raw, RespectsAll→check_interdependencies ps raw)
