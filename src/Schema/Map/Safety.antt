-- ===== src/Schema/Map/Safety.antt =====
-- schema/map.go: a map schema whose keys and values unserialize soundly does so itself.
use arcaflow_plugin_sdk_go.Common.{ℤ, List, [], ◌∷◌, All, length, Option, true, ◌≡◌, refl, inr}
use arcaflow_plugin_sdk_go.Go.Value.{Value, GoType, map, map_type, entries, comparable}
use arcaflow_plugin_sdk_go.Go.Result.{Result, ok, ◌>>=◌, IsSafe, key_of, value_of, under}
use arcaflow_plugin_sdk_go.Go.Convert.{Floats}
use arcaflow_plugin_sdk_go.Schema.List.{assign, check_length}
use arcaflow_plugin_sdk_go.Schema.List.Safety.{check_length-IsSafe, All-imp}
use arcaflow_plugin_sdk_go.Schema.Map.{each_entry, unserialize_map}
use arcaflow_plugin_sdk_go.Schema.Sound.{
  Sound, Sound-assign, Sound-bind, IsSafe-bind, IsSafe-under, StringKeyed, All-KeyedEntry,
}

pub each_entry-IsSafe {ℓ κ} :
    {A : Type ℓ} {B : Type κ} (f : Value → Result A) (g : Value → Result B)
    (es : List (Value × Value))
    → All (λ e. IsSafe (f e.0) × IsSafe (g e.1)) es
    → IsSafe (each_entry f g es)
unfolding each_entry
each_entry-IsSafe f g [] h = tt
each_entry-IsSafe f g ((k, v) ∷ es) h =
    IsSafe-bind (under (key_of k) (f k)) _ (IsSafe-under (key_of k) (f k) h.0.0) λ a _.
      IsSafe-bind (under (value_of k) (g v)) _ (IsSafe-under (value_of k) (g v) h.0.1)
        λ b _. IsSafe-bind (each_entry f g es) _ (each_entry-IsSafe f g es h.1) λ rest _. tt

pub unserialize_map-Sound :
    (fl : Floats) (tk tv : GoType) (key elem : Value → Result Value) (lo hi : Option ℤ) (v : Value)
    → comparable tk ≡ true
    → ((w : Value) → StringKeyed w → Sound tk (key w))
    → ((w : Value) → StringKeyed w → Sound tv (elem w))
    → StringKeyed v
    → Sound (map_type tk tv) (unserialize_map fl (ok tk) (ok tv) key elem lo hi v)
unfolding unserialize_map StringKeyed
unserialize_map-Sound fl tk tv key elem lo hi (map _ _ es) hashes sound_key sound_elem keyed =
    Sound-bind (map_type tk tv) (check_length lo hi (length (entries es))) _
      (check_length-IsSafe lo hi (length (entries es)))
      λ _ _. rw hashes (
        Sound-bind (map_type tk tv)
          (each_entry (λ k. key k >>= assign tk) (λ w. elem w >>= assign tv) (entries es)) _
          (each_entry-IsSafe (λ k. key k >>= assign tk) (λ w. elem w >>= assign tv) (entries es)
            (All-imp
              (λ e h. (
                Sound-assign tk (key (e.0)) (sound_key (e.0) h.0),
                Sound-assign tv (elem (e.1)) (sound_elem (e.1) h.1),
              ))
              (entries es) (All-KeyedEntry es keyed.1)))
          λ ws _. (map_type tk tv, refl, inr refl))
unserialize_map-Sound fl tk tv key elem lo hi _ hashes sound_key sound_elem keyed = tt
