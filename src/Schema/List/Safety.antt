-- ===== src/Schema/List/Safety.antt =====
-- schema/list.go: a loop over the items is safe if the item's operation is, and an error names the
-- first item that fails.
use arcaflow_plugin_sdk_go.Common.{ℕ, suc, ℤ, List, [], ◌∷◌, All, length, Option, refl, arith, inr}
use arcaflow_plugin_sdk_go.Go.Value.{Value, GoType, slice, slice_type, items}
use arcaflow_plugin_sdk_go.Go.Result.{Result, ok, IsSafe, index, under}
use arcaflow_plugin_sdk_go.Schema.List.{each_item, check_length, unserialize_item, unserialize_list}
use arcaflow_plugin_sdk_go.Schema.Sound.{
  Sound, Sound-assign, Sound-bind, IsSafe-bind, IsSafe-under, StringKeyed, All-StringKeyed,
}

pub each_item-IsSafe {ℓ} :
    {A : Type ℓ} (f : Value → Result A) (i : ℕ) (vs : List Value)
    → All (λ v. IsSafe (f v)) vs
    → IsSafe (each_item f i vs)
unfolding each_item
each_item-IsSafe f i [] h = tt
each_item-IsSafe f i (v ∷ vs) h =
    IsSafe-bind (under (index i) (f v)) _ (IsSafe-under (index i) (f v) h.0)
      λ w _. IsSafe-bind (each_item f (suc i) vs) _ (each_item-IsSafe f (suc i) vs h.1) λ ws _. tt

pub check_length-IsSafe : (lo hi : Option ℤ) (n : ℕ) → IsSafe (check_length lo hi n)
unfolding check_length
check_length-IsSafe lo hi n = ground arith

pub All-imp {ℓ κ μ} :
    {A : Type ℓ} {P : A → Type κ} {Q : A → Type μ}
    → ((a : A) → P a → Q a)
    → (xs : List A) → All P xs
    → All Q xs
All-imp f [] h = tt
All-imp f (x ∷ xs) h = (f x h.0, All-imp f xs h.1)

-- A list schema whose items unserialize soundly does so itself.
pub unserialize_list-Sound :
    (t : GoType) (item : Value → Result Value) (lo hi : Option ℤ) (v : Value)
    → ((w : Value) → StringKeyed w → Sound t (item w))
    → StringKeyed v
    → Sound (slice_type t) (unserialize_list (ok t) item lo hi v)
unfolding unserialize_list StringKeyed
unserialize_list-Sound t item lo hi (slice u vs) sound keyed =
    Sound-bind (slice_type t) (check_length lo hi (length (items vs))) _
      (check_length-IsSafe lo hi (length (items vs)))
      λ _ _.
        Sound-bind (slice_type t) (each_item (unserialize_item t item) 0 (items vs)) _
          (each_item-IsSafe (unserialize_item t item) 0 (items vs) (
            All-imp (λ w k. Sound-assign t (item w) (sound w k)) (items vs)
              (All-StringKeyed vs keyed)))
          λ ws _. (slice_type t, refl, inr refl)
unserialize_list-Sound t item lo hi _ sound keyed = tt
